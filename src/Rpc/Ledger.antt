-- ===== src/Rpc/Ledger.antt =====
-- crates/subhost-rpc/src/lib.rs: the ledger that a node holds in memory is valid, and sealing keeps it so.
use mathlib.Core.Path.{subst}
use sub_host_demo.Base.{
  ℕ, ◌<◌, ◌≡◌, ◌≢◌, inl, inr, refl, true, false, none, some, List, [], ◌∷◌, ◌++◌, arith, ◌==◌,
  nat_eq, length, All, ok, Bool-cases, Result-cases,
}
use sub_host_demo.Core.{Address, Hash, Digest, Block, Receipt, Transaction, tx_hash}
use sub_host_demo.Map
use sub_host_demo.Map.{Map}
use sub_host_demo.Map.Keys.{IsMap, insert-IsMap}
use sub_host_demo.State.{State, store, set_balance, set_nonce, apply_transaction, nonce}
use sub_host_demo.State.Effect.{
  Admissible, moved, settled, settles, nonce-settled, Admissible-of_ok,
}
use sub_host_demo.State.Snapshot.{IsState}
use sub_host_demo.Mempool.Consistent.{IsConsistent}
use sub_host_demo.Storage.{FileFormat}
use sub_host_demo.Storage.Chain.{Codec, find_block, holds, hash_of}
use sub_host_demo.Storage.Spec.{IsReceipt, IsLedger}
use sub_host_demo.Rpc.{RpcState, values, attempt}

-- Every transaction of the blocks is behind the nonce of its sender.
abbrev pub AreSpent : State → List Block → Type 0
AreSpent s = All (λ b. All (λ tx. tx.nonce < nonce tx.from s) b.transactions)

-- No transaction of the blocks shares its hash with another one, which BLAKE3 is relied on for.
abbrev pub HasNoDouble : Digest → Transaction → List Block → Type 0
HasNoDouble d tx = All (λ b. All (λ u. tx_hash d u ≡ tx_hash d tx → u ≡ tx) b.transactions)

-- What a node keeps: a valid ledger for its state, each receipt under its transaction, the height of
-- the newest block, and blocks of spent transactions only.
pub record IsSound (f : FileFormat) (n : RpcState) : Type 0 where
  pub ledger : IsLedger f.codec n.chain_id n.state n.blocks (values n.receipts)
  pub accounts : IsMap n.state.accounts
  pub keyed : All (λ e. e.1.tx_hash ≡ e.0) n.receipts
  pub once : IsMap n.receipts
  pub pool : IsConsistent f.codec.digest n.mempool
  pub state_chain : n.state.chain_id ≡ n.chain_id
  pub store_chain : n.store.chain_id ≡ n.chain_id
  pub positive : n.chain_id ≢ 0
  pub top : n.block_height ≡ length n.blocks
  pub spent : AreSpent n.state n.blocks

pub set_balance-IsState :
    (a : Address) (x : ℕ) (s : State) → IsState s → IsState (set_balance a x s)
unfolding set_balance store
set_balance-IsState a x s h = insert-IsMap a _ s.accounts h

set_nonce-IsState : (a : Address) (x : ℕ) (s : State) → IsState s → IsState (set_nonce a x s)
unfolding set_nonce store
set_nonce-IsState a x s h = insert-IsMap a _ s.accounts h

moved-IsState : (a b : Address) (x : ℕ) (s : State) → IsState s → IsState (moved a b x s)
unfolding moved
moved-IsState a b x s h = elim (Bool-cases (a == b)) [
  | inl e ↦ rw e h
  | inr e ↦ rw e (set_balance-IsState b _ _ (set_balance-IsState a _ s h))
]

pub settled-IsState :
    (tx : Transaction) (to : Address) (s : State) → IsState s → IsState (settled tx to s)
unfolding settled
settled-IsState tx to s h =
    set_nonce-IsState tx.from _ _
      (set_balance-IsState tx.from _ _ (moved-IsState tx.from to tx.value s h))

-- A transaction that executes is admissible, and leaves the settled state.
pub attempt_ok :
    (f : FileFormat) (tx : Transaction) (s t : State)
    → attempt f tx s ≡ ok t
    → (to : Address) × Admissible tx to s × (t ≡ settled tx to s)
unfolding attempt
attempt_ok f tx s t h = elim (Result-cases (apply_transaction tx s).0) [
  | inr (e, x) ↦ absurd (ground arith)
  | inl (paid, x) ↦
      let (to, a) = Admissible-of_ok tx s x in (to, a, ground (arith, settles tx to s a))
]

spent_after :
    (tx : Transaction) (to : Address) (s : State) (txs : List Transaction)
    → tx.nonce ≡ nonce tx.from s
    → All (λ u. u.nonce < nonce u.from s) txs
    → All (λ u. u.nonce < nonce u.from (settled tx to s)) txs
spent_after tx to s [] e h = tt
spent_after tx to s (u ∷ us) e h =
    (ground (arith, nonce-settled tx to s u.from, h.0), spent_after tx to s us e h.1)

pub AreSpent-settled :
    (tx : Transaction) (to : Address) (s : State) (bs : List Block)
    → tx.nonce ≡ nonce tx.from s
    → AreSpent s bs
    → AreSpent (settled tx to s) bs
AreSpent-settled tx to s [] e h = tt
AreSpent-settled tx to s (b ∷ bs) e h =
    (spent_after tx to s b.transactions e h.0, AreSpent-settled tx to s bs e h.1)

module _ (c : Codec) (tx : Transaction) (s : State) where
  unheld :
      (txs : List Transaction)
      → tx.nonce ≡ nonce tx.from s
      → All (λ u. u.nonce < nonce u.from s) txs
      → All (λ u. tx_hash c.digest u ≡ tx_hash c.digest tx → u ≡ tx) txs
      → holds c (tx_hash c.digest tx) txs ≡ false
  unheld [] e a d = refl
  unheld (u ∷ us) e a d = elim (Bool-cases (tx_hash c.digest u == tx_hash c.digest tx)) [
    | inr apart ↦ rw apart (unheld us e a.1 d.1)
    | inl same ↦ absurd (behind (d.0 (ground arith)) a.0 e)
  ]
    where
      behind :
          {u : Transaction} → u ≡ tx → u.nonce < nonce u.from s → tx.nonce ≡ nonce tx.from s → ⊥
      behind {u} p h e = omega (arith, subst (λ x. x.nonce < nonce x.from s) p h)

  unfound :
      (h : Hash) (b : Block) (bs : List Block)
      → tx.nonce ≡ nonce tx.from s
      → AreSpent s bs
      → HasNoDouble c.digest tx bs
      → find_block c h bs ≡ some b
      → holds c (tx_hash c.digest tx) b.transactions ≡ false
  unfolding find_block
  unfound h b [] e a d x = cc
  unfound h b (y ∷ bs) e a d x = elim (Bool-cases (hash_of c y == h)) [
    | inl same ↦ ground (arith, unheld y.transactions e a.0 d.0)
    | inr apart ↦ ground (arith, unfound h b bs e a.1 d.1)
  ]

  -- The hash of the next transaction of a sender has no receipt yet.
  pub unreceipted :
      (bs : List Block) (m : Map Hash Receipt)
      → tx.nonce ≡ nonce tx.from s
      → AreSpent s bs
      → HasNoDouble c.digest tx bs
      → All (λ e. e.1.tx_hash ≡ e.0) m
      → All (IsReceipt c bs) (values m)
      → Map.get (tx_hash c.digest tx) m ≡ none
  unfolding Map.get
  unreceipted bs [] e a d k l = refl
  unreceipted bs ((j, r) ∷ m) e a d k l =
      let absent = unfound r.block_hash l.0.block bs e a d l.0.found in
      let present : holds c j l.0.block.transactions ≡ true =
        subst (λ x. holds c x l.0.block.transactions ≡ true) k.0 l.0.tx in
      elim (Bool-cases (j == tx_hash c.digest tx)) [
        | inr apart ↦ rw apart (unreceipted bs m e a d k.1 l.1)
        | inl same ↦ absurd (ground arith)
      ]

pub values-insert :
    (h : Hash) (r : Receipt) (m : Map Hash Receipt)
    → Map.get h m ≡ none
    → values (Map.insert h r m) ≡ values m ++ r ∷ []
unfolding Map.get Map.insert
values-insert h r [] e = refl
values-insert h r ((j, x) ∷ m) e = ground (arith, values-insert h r m)

pub keyed-insert :
    (h : Hash) (r : Receipt) (m : Map Hash Receipt)
    → r.tx_hash ≡ h
    → All (λ e. e.1.tx_hash ≡ e.0) m
    → All (λ e. e.1.tx_hash ≡ e.0) (Map.insert h r m)
unfolding Map.insert
keyed-insert h r [] e k = (e, tt)
keyed-insert h r ((j, x) ∷ m) e k = ground (arith, keyed-insert h r m e k.1)
