-- ===== src/Rpc/Seal.antt =====
-- crates/subhost-rpc/src/lib.rs: a sealed block keeps the node's ledger valid.
use mathlib.Core.Path.{subst}
use sub_host_demo.Base.{
  ℕ, ◌+◌, ◌≤◌, ◌<◌, ◌≡◌, ◌∙◌, sym, ap, refl, Option, none, some, List, [], ◌∷◌, ◌++◌, arith, nat_eq,
  length, All, length-append, All-append,
}
use sub_host_demo.Base.Words.{u64_max}
use sub_host_demo.Core.{Hash, Digest, Block, Transaction, zero_hash, tx_hash}
use sub_host_demo.Map
use sub_host_demo.Map.{Map}
use sub_host_demo.Map.Keys.{insert-IsMap}
use sub_host_demo.State.{State, nonce}
use sub_host_demo.State.Effect.{nonce-settled, chain_id-settled}
use sub_host_demo.State.Snapshot.{IsState}
use sub_host_demo.Mempool.{Mempool, get_tx}
use sub_host_demo.Mempool.Consistent.{IsConsistent, remove-IsConsistent}
use sub_host_demo.Storage.{FileFormat, WriteIo, Disk, last, height_of}
use sub_host_demo.Storage.Chain.{Codec, find_block, hash_of}
use sub_host_demo.Storage.Spec.{IsBlock, IsReceipt, IsLedger}
use sub_host_demo.Storage.Append.{tip, HasNoTwin, height-length, IsLedger-append}
use sub_host_demo.Rpc.{
  RpcState, values, next_height, parent_of, block_for, receipt_for, commit, seal_next_block,
}
use sub_host_demo.Rpc.Commit.{
  with_disk, IsReady, new_block, new_receipt, Sealed, refused, unwritten, sealed, seal_cases,
}
use sub_host_demo.Rpc.Ledger.{
  AreSpent, HasNoDouble, IsSound, settled-IsState, attempt_ok, AreSpent-settled, unreceipted,
  values-insert, keyed-insert,
}

parent_of-last :
    (f : FileFormat) (parent : Hash) (b : Block) (bs : List Block)
    → parent_of f (last (b ∷ bs)) ≡ tip f.codec parent (b ∷ bs)
parent_of-last f parent b [] = refl
parent_of-last f parent b (b' ∷ bs) = parent_of-last f (hash_of f.codec b) b' bs

parent_of-tip :
    (f : FileFormat) (bs : List Block) → parent_of f (last bs) ≡ tip f.codec zero_hash bs
parent_of-tip f [] = refl
parent_of-tip f (b ∷ bs) = parent_of-last f zero_hash b bs

pub next_height_lem :
    (o : Option Block) (h : ℕ) → next_height o ≡ some h → (h ≡ height_of o + 1) × (h ≤ u64_max)
next_height_lem none h e = ground arith
next_height_lem (some b) h e = ground arith

found_alone : (c : Codec) (b : Block) → find_block c (hash_of c b) (b ∷ []) ≡ some b
unfolding find_block
found_alone c b = ground arith

pub pending_hash :
    (d : Digest) (h : Hash) (tx : Transaction) (p : Mempool)
    → IsConsistent d p
    → get_tx h p ≡ some tx
    → tx_hash d tx ≡ h
unfolding get_tx
pending_hash d h tx p c e = (c.indexed h tx e).0

module _ (f : FileFormat) (sys : WriteIo) (now : ℕ) (h : Hash) (n : RpcState) (tx : Transaction)
    (s : State) (height : ℕ) where
  IsBlock-fits :
      IsSound f n
      → IsReady f sys now h n tx s height
      → IsBlock f.codec n.chain_id
          (length n.blocks + 1)
          (tip f.codec zero_hash n.blocks)
          (new_block f sys now h n tx s height)
          tx
  unfolding block_for
  IsBlock-fits sound r =
      let (to, a, _) = attempt_ok f tx n.state s r.executed in
      let (e, _) = next_height_lem (last n.blocks) height r.next in
      let hash = pending_hash f.codec.digest h tx n.mempool sound.pool r.pending in
      record {
        single = refl;
        height =
            e ∙ ap (λ x. x + 1) (height-length f.codec n.chain_id n.blocks sound.ledger.linked);
        parent_hash = parent_of-tip f n.blocks;
        chain = refl;
        gas = r.gas;
        commits_tx = rw hash refl;
        tx_chain = a.chain ∙ sound.state_chain;
        gas_used = refl;
        commits_receipt = rw hash refl;
      }

  IsReceipt-fits :
      IsSound f n
      → IsReady f sys now h n tx s height
      → IsReceipt f.codec
          (new_block f sys now h n tx s height ∷ [])
          (new_receipt f sys now h n tx s height)
  unfolding block_for receipt_for
  IsReceipt-fits sound r =
      let hash = pending_hash f.codec.digest h tx n.mempool sound.pool r.pending in
      record {
        block = new_block f sys now h n tx s height;
        found = found_alone f.codec (new_block f sys now h n tx s height);
        height = refl;
        tx = ground (arith, hash);
        status = refl;
        gas = refl;
        commits = refl;
      }

  -- The parts of a commit.
  ledger_fits :
      IsSound f n
      → IsReady f sys now h n tx s height
      → HasNoTwin f.codec (new_block f sys now h n tx s height) n.blocks
      → IsLedger f.codec n.chain_id s
          (n.blocks ++ new_block f sys now h n tx s height ∷ [])
          (values n.receipts ++ new_receipt f sys now h n tx s height ∷ [])
  unfolding block_for receipt_for
  ledger_fits sound r twin =
      let (e, fits) = next_height_lem (last n.blocks) height r.next in
      let count = height-length f.codec n.chain_id n.blocks sound.ledger.linked in
      IsLedger-append f.codec n.chain_id n.state s n.blocks (values n.receipts)
        (new_block f sys now h n tx s height) (new_receipt f sys now h n tx s height) tx
        sound.ledger (IsBlock-fits sound r) (omega arith) twin refl (IsReceipt-fits sound r) refl

  fresh :
      IsSound f n
      → IsReady f sys now h n tx s height
      → HasNoDouble f.codec.digest tx n.blocks
      → Map.get h n.receipts ≡ none
  fresh sound r double =
      let (to, a, _) = attempt_ok f tx n.state s r.executed in
      let hash = pending_hash f.codec.digest h tx n.mempool sound.pool r.pending in
      subst (λ x. Map.get x n.receipts ≡ none) hash
        (unreceipted f.codec tx n.state n.blocks n.receipts a.in_order sound.spent double
          sound.keyed sound.ledger.described)

  spent_fits :
      IsSound f n
      → IsReady f sys now h n tx s height
      → AreSpent s (n.blocks ++ new_block f sys now h n tx s height ∷ [])
  unfolding block_for
  spent_fits sound r =
      let (to, a, e) = attempt_ok f tx n.state s r.executed in
      All-append (λ b. All (λ u. u.nonce < nonce u.from s) b.transactions)
        (new_block f sys now h n tx s height) n.blocks
        (subst (λ t. AreSpent t n.blocks) (sym e)
          (AreSpent-settled tx to n.state n.blocks a.in_order sound.spent))
        (
          subst (λ t. tx.nonce < nonce tx.from t) (sym e)
              (ground (arith, nonce-settled tx to n.state tx.from)),
          tt,
        )

  -- A sound node that commits a block of a pending transaction is sound afterwards, whatever
  -- its file then holds.
  pub commit-IsSound :
      (disk : Disk)
      → IsSound f n
      → IsReady f sys now h n tx s height
      → HasNoDouble f.codec.digest tx n.blocks
      → HasNoTwin f.codec (new_block f sys now h n tx s height) n.blocks
      → IsSound f (
          commit s
            (new_block f sys now h n tx s height)
            (new_receipt f sys now h n tx s height)
            h
            (with_disk disk n))
  unfolding commit receipt_for block_for
  commit-IsSound disk sound r double twin =
      let (to, a, e) = attempt_ok f tx n.state s r.executed in
      let (next, _) = next_height_lem (last n.blocks) height r.next in
      let count = height-length f.codec n.chain_id n.blocks sound.ledger.linked in
      record {
        ledger =
            subst
              (λ rs.
                IsLedger f.codec n.chain_id s (n.blocks ++ new_block f sys now h n tx s height ∷ [])
                  rs)
              (sym (
                values-insert h (new_receipt f sys now h n tx s height) n.receipts
                  (fresh sound r double)))
              (ledger_fits sound r twin);
        accounts = subst IsState (sym e) (settled-IsState tx to n.state sound.accounts);
        keyed = keyed-insert h (new_receipt f sys now h n tx s height) n.receipts refl sound.keyed;
        once = insert-IsMap h (new_receipt f sys now h n tx s height) n.receipts sound.once;
        pool = remove-IsConsistent f.codec.digest h n.mempool sound.pool;
        state_chain = ap (λ t. t.chain_id) e ∙ (chain_id-settled tx to n.state ∙ sound.state_chain);
        store_chain = sound.store_chain;
        positive = sound.positive;
        top =
            top_lem next count (length-append n.blocks (new_block f sys now h n tx s height ∷ []));
        spent = spent_fits sound r;
      }
    where
      top_lem : {a b c d : ℕ} → a ≡ b + 1 → b ≡ c → d ≡ c + 1 → a ≡ d
      top_lem x y z = omega (arith, x, y, z)

module _ (f : FileFormat) (sys : WriteIo) (now : ℕ) (h : Hash) (n : RpcState) where
  -- What BLAKE3 is relied on for when a block is sealed: neither the transaction nor the block shares
  -- its hash with another one of the chain.
  abbrev pub HasNoCollision : Type 0
  HasNoCollision =
      (tx : Transaction) (s : State) (height : ℕ)
      → IsReady f sys now h n tx s height
      → HasNoDouble f.codec.digest tx n.blocks
        × HasNoTwin f.codec (new_block f sys now h n tx s height) n.blocks

  with_disk-IsSound : (disk : Disk) → IsSound f n → IsSound f (with_disk disk n)
  with_disk-IsSound disk s = record {
    ledger = s.ledger;
    accounts = s.accounts;
    keyed = s.keyed;
    once = s.once;
    pool = s.pool;
    state_chain = s.state_chain;
    store_chain = s.store_chain;
    positive = s.positive;
    top = s.top;
    spent = s.spent;
  }

  -- However the sealing of a pending transaction ends, a sound node is sound afterwards, if no hash of
  -- the transaction or of the block collides with one of the chain.
  pub seal_next_block-IsSound :
      IsSound f n → HasNoCollision → IsSound f (seal_next_block f sys now h n).1
  seal_next_block-IsSound sound free = by_cases (seal_cases f sys now h n)
    where
      by_cases : Sealed f sys now h n → IsSound f (seal_next_block f sys now h n).1
      by_cases (refused e x) = rw x sound
      by_cases (unwritten tx s height e r w x) = rw x (with_disk-IsSound _ sound)
      by_cases (sealed tx s height r w x) = rw x (
          commit-IsSound f sys now h n tx s height _ sound r (free tx s height r).0
            (free tx s height r).1)
