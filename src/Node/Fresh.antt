-- ===== src/Node/Fresh.antt =====
-- crates/subhost-node/src/lib.rs: a node that starts on an empty data directory.
use mathlib.Core.Path.{subst}
use sub_host_demo.Base.{
  ℕ, ◌≡◌, ◌≢◌, ◌∙◌, sym, ap, inl, inr, refl, true, false, Option, none, some, [], ◌∷◌, arith,
  nat_eq, is_empty, Result, ok, err, ⊤, Result-cases,
}
use sub_host_demo.Core.{Address}
use sub_host_demo.Core.Genesis.{GenesisConfig}
use sub_host_demo.Map
use sub_host_demo.Map.{Map}
use sub_host_demo.Map.Keys.{IsMap}
use sub_host_demo.State.{State, set_balance, balance, nonce, account, entry, with_chain_id}
use sub_host_demo.State.Effect.{balance-set_balance, nonce-set_balance, chain_id-set_balance}
use sub_host_demo.State.Snapshot.{IsState}
use sub_host_demo.Mempool.{default_config}
use sub_host_demo.Mempool.Consistent.{new-IsConsistent}
use sub_host_demo.Storage.{
  LedgerStore, FileFormat, WriteIo, ReadIo, Disk, exists, restore, load, empty, height,
}
use sub_host_demo.Storage.Durable.{
  ReadsBack, Persisted, skipped, failed, written, persist_cases, persist_loads,
}
use sub_host_demo.Mempool
use sub_host_demo.Storage
use sub_host_demo.Storage.Chain
use sub_host_demo.Node as NodeStart
use sub_host_demo.Rpc
use sub_host_demo.Rpc.{
  RpcState, RpcError, seed, with_store, seed_accounts, set_state, persist, snapshot_of,
  collect_receipts,
}
use sub_host_demo.Rpc.Commit.{with_disk, writing, persist_ok, persist_err}
use sub_host_demo.Rpc.Ledger.{IsSound, set_balance-IsState}
use sub_host_demo.Rpc.Restart.{SameChain, own_snapshot}
use sub_host_demo.Node.{
  NodeConfig, NodeError, BootIo, Node, load_genesis, check_role, chain_id_of, seed_if_fresh,
  node_of, start, bootstrap,
}
use sub_host_demo.Node.Boot.{durable, Opens, bootstrap-start, bootstrap_resumes}

abbrev pub amount : Option ℕ → ℕ → ℕ
amount none x = x
amount (some b) x = b

-- Seeding gives every listed account its amount and touches nothing else.
balance-seed :
    (l : Map Address ℕ) (a : Address) (s : State)
    → IsMap l
    → balance a (seed l s) ≡ amount (Map.get a l) (balance a s)
unfolding seed Map.get
balance-seed [] a s h = refl
balance-seed ((k, b) ∷ l) a s h =
    ground (arith, balance-seed l a (set_balance k b s) h.1, balance-set_balance a k b s, h.0)

nonce-seed : (l : Map Address ℕ) (a : Address) (s : State) → nonce a (seed l s) ≡ nonce a s
unfolding seed
nonce-seed [] a s = refl
nonce-seed ((k, b) ∷ l) a s = nonce-seed l a (set_balance k b s) ∙ nonce-set_balance a k b s

chain_id-seed : (l : Map Address ℕ) (s : State) → (seed l s).chain_id ≡ s.chain_id
unfolding seed
chain_id-seed [] s = refl
chain_id-seed ((k, b) ∷ l) s = chain_id-seed l (set_balance k b s) ∙ chain_id-set_balance k b s

seed-IsState : (l : Map Address ℕ) (s : State) → IsState s → IsState (seed l s)
unfolding seed
seed-IsState [] s h = h
seed-IsState ((k, b) ∷ l) s h = seed-IsState l (set_balance k b s) (set_balance-IsState k b s h)

-- A node without a ledger, with a state of its chain.
abbrev blank : ℕ → State → Disk → RpcState
blank chain_id s disk = record {
  chain_id = chain_id;
  block_height = 0;
  mempool = Mempool.new default_config;
  state = s;
  blocks = [];
  receipts = [];
  store = durable chain_id;
  disk = disk;
}

blank-IsSound :
    (f : FileFormat) (chain_id : ℕ) (s : State) (disk : Disk)
    → chain_id ≢ 0
    → IsState s
    → s.chain_id ≡ chain_id
    → IsSound f (blank chain_id s disk)
blank-IsSound f chain_id s disk c h e = record {
  ledger = record { linked = tt; counted = refl; apart = tt; described = tt; rooted = tt };
  accounts = h;
  keyed = tt;
  once = tt;
  pool = new-IsConsistent f.codec.digest default_config;
  state_chain = e;
  store_chain = refl;
  positive = c;
  top = refl;
  spent = tt;
}

with_store-none :
    (f : FileFormat) (reads : ReadIo) (chain_id : ℕ)
    → with_store f reads (durable chain_id) none ≡ ok (blank chain_id (with_chain_id chain_id) none)
unfolding with_store load empty height collect_receipts
with_store-none f reads chain_id = refl

module _ (f : FileFormat) (sys : WriteIo) (l : Map Address ℕ) (n : RpcState) where
  -- The write of a seeding, and its end.
  abbrev seeding : Result Storage.Chain.StorageError ⊤ × Disk
  seeding = writing f sys (seed l n.state) n.blocks n.receipts n

  seed_accounts_ok :
      seeding.0 ≡ ok tt
      → seed_accounts f sys l n ≡ (ok tt, set_state (seed l n.state) (with_disk seeding.1 n))
  unfolding seed_accounts
  seed_accounts_ok h = ground (arith, persist_ok f sys (seed l n.state) n.blocks n.receipts n h)

  seed_accounts_err :
      (e : Storage.Chain.StorageError)
      → seeding.0 ≡ err e
      → (seed_accounts f sys l n).0 ≡ err (Rpc.persistence e)
  unfolding seed_accounts
  seed_accounts_err e h =
      ground (arith, persist_err f sys (seed l n.state) n.blocks n.receipts n e h)

module _ (f : FileFormat) (io : BootIo) (config : NodeConfig) (g : GenesisConfig) where
  abbrev pub minted : State
  minted = seed g.allocations (with_chain_id g.chain_id)

  -- The node that a first start gives.
  abbrev pub first : Disk → RpcState
  first disk = blank g.chain_id minted disk

  abbrev boot_write : Result Storage.Chain.StorageError ⊤ × Disk
  boot_write = seeding f io.writes g.allocations (blank g.chain_id (with_chain_id g.chain_id) none)

  start_ok :
      io.new_metrics ≡ true
      → is_empty g.allocations ≡ false
      → boot_write.0 ≡ ok tt
      → start f io config (some g) (durable g.chain_id) none
        ≡ (ok (node_of f io config (first boot_write.1) (some g)), boot_write.1)
  unfolding start seed_if_fresh NodeStart.seed exists set_state
  start_ok a b h = ground (
    arith,
    a,
    b,
    with_store-none f io.reads g.chain_id,
    seed_accounts_ok f io.writes g.allocations (blank g.chain_id (with_chain_id g.chain_id) none) h,
  )

  start_err :
      (e : Storage.Chain.StorageError)
      → is_empty g.allocations ≡ false
      → boot_write.0 ≡ err e
      → (start f io config (some g) (durable g.chain_id) none).0
        ≡ err (NodeStart.rpc (Rpc.persistence e))
  unfolding start seed_if_fresh NodeStart.seed exists
  start_err e b h = ground (
    arith,
    b,
    with_store-none f io.reads g.chain_id,
    seed_accounts_err f io.writes g.allocations (blank g.chain_id (with_chain_id g.chain_id) none) e
        h,
  )

  first_written :
      ReadsBack f (own_snapshot (first none))
      → io.reads.metadata ≡ true
      → io.reads.read ≡ true
      → boot_write.0 ≡ ok tt
      → load f (durable g.chain_id) io.reads boot_write.1
        ≡ restore f (durable g.chain_id) (own_snapshot (first boot_write.1))
  first_written back a b h =
      (persist_loads f (durable g.chain_id) io.writes io.reads (own_snapshot (first none)) none back
          a b).1
        h refl

  first-IsSound : (disk : Disk) → g.chain_id ≢ 0 → IsSound f (first disk)
  unfolding with_chain_id
  first-IsSound disk c =
      blank-IsSound f g.chain_id (seed g.allocations (with_chain_id g.chain_id)) disk c
        (seed-IsState g.allocations (with_chain_id g.chain_id) tt)
        (chain_id-seed g.allocations (with_chain_id g.chain_id))

  balance-minted :
      (a : Address) → IsMap g.allocations → balance a minted ≡ amount (Map.get a g.allocations) 0
  unfolding with_chain_id balance entry account Map.get
  balance-minted a keys = balance-seed g.allocations a (with_chain_id g.chain_id) keys ∙ refl

  file_there : boot_write.0 ≡ ok tt → exists (durable g.chain_id) boot_write.1 ≡ true
  unfolding exists
  file_there h = by_cases (
      persist_cases f (durable g.chain_id) io.writes
        (snapshot_of g.chain_id (seed g.allocations (with_chain_id g.chain_id)) [] []) none)
    where
      clash :
          {r : Result Storage.Chain.StorageError ⊤} (e : Storage.Chain.StorageError)
          → r ≡ err e
          → r ≡ ok tt
          → ⊥
      clash e x y = absurd (cc (x, y))

      by_cases :
          Persisted f
            (durable g.chain_id)
            io.writes
            (snapshot_of g.chain_id (seed g.allocations (with_chain_id g.chain_id)) [] [])
            none
          → exists (durable g.chain_id) boot_write.1 ≡ true
      by_cases (skipped x _ _ _) = cc x
      by_cases (failed e x) = absurd (clash e (ap (λ q. q.0) x) h)
      by_cases (written bytes _ x) = unfold exists in ground (arith, x)

  minted_by :
      (node : Node) (disk : Disk)
      → Opens io config (some g)
      → IsMap g.allocations
      → is_empty g.allocations ≡ false
      → bootstrap f io config none ≡ (ok node, disk)
      → (a : Address) → balance a node.state.state ≡ amount (Map.get a g.allocations) 0
  minted_by node disk o keys full x a = elim (Result-cases boot_write.0) [
    | inr (e, y) ↦ absurd (unwritten e y)
    | inl (u, y) ↦
        let same =
          sym (bootstrap-start f io config (some g) none o ∙ start_ok o.metrics full y) ∙ x in
        subst (λ s. balance a s ≡ amount (Map.get a g.allocations) 0) (state_of same)
          (balance-minted a keys)
  ]
    where
      unwritten : (e : Storage.Chain.StorageError) → boot_write.0 ≡ err e → ⊥
      unwritten e y =
          let z = ap (λ q. q.0) (sym x ∙ bootstrap-start f io config (some g) none o) in
          cc (z, start_err e full y)

      state_of :
          {s : RpcState} {n : Node} {d d' : Disk}
          → ◌≡◌ {A = Result NodeError Node × Disk}
              (ok (node_of f io config s (some g)), d)
              (ok n, d')
          → s.state ≡ n.state.state
      state_of h = cc h

  -- The node that a first start leaves is sound, and its file reads as its ledger.
  first_left :
      Opens io config (some g)
      → ReadsBack f (own_snapshot (first none))
      → io.reads.metadata ≡ true
      → io.reads.read ≡ true
      → boot_write.0 ≡ ok tt
      → IsSound f (first boot_write.1)
        × (exists (durable g.chain_id) boot_write.1 ≡ true)
        × (load f (durable g.chain_id) io.reads boot_write.1
            ≡ restore f (durable g.chain_id) (own_snapshot (first boot_write.1)))
  first_left o back a b y =
      (first-IsSound boot_write.1 o.chain, file_there y, first_written back a b y)

  -- The first start: when a node starts on an empty directory with the allocations of a genesis file,
  -- every address has what that file allots to it, or nothing. A start where any sound node of the
  -- chain has left its ledger, whatever has been paid since, takes up that ledger: its accounts are
  -- as they were, so that nothing is allotted twice, and its file is left as it is.
  pub bootstrap_once :
      (node : Node) (disk : Disk) (later : RpcState)
      → Opens io config (some g)
      → IsMap g.allocations
      → is_empty g.allocations ≡ false
      → bootstrap f io config none ≡ (ok node, disk)
      → IsSound f later
      → later.store ≡ durable g.chain_id
      → exists later.store later.disk ≡ true
      → load f later.store io.reads later.disk ≡ restore f later.store (own_snapshot later)
      → ((a : Address) → balance a node.state.state ≡ amount (Map.get a g.allocations) 0)
        × ((m : RpcState) × (bootstrap f io config later.disk
              ≡ (ok (node_of f io config m (some g)), later.disk))
            × SameChain m later)
  bootstrap_once node disk later o keys full x sound placed there reads = (
    minted_by node disk o keys full x,
    bootstrap_resumes f io config (some g) later o sound placed there reads,
  )
