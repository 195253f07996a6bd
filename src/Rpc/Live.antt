-- ===== src/Rpc/Live.antt =====
-- crates/subhost-rpc/src/lib.rs: when a submission goes through.
use sub_host_demo.Base.{
  ℕ, ◌+◌, ◌≤◌, ◌<◌, ◌≡◌, ◌∙◌, ap, inl, inr, refl, true, Option, none, some, [], ◌∷◌, ◌++◌, arith,
  nat_eq, length, ok, Option-cases,
}
use sub_host_demo.Base.Words.{u64_max}
use sub_host_demo.Core.{
  Address, Hash, Digest, Block, Receipt, Transaction, tx_hash, block_gas_limit,
}
use sub_host_demo.Map
use sub_host_demo.Map.{Map}
use sub_host_demo.State.{State}
use sub_host_demo.State.Effect.{Admissible, settled, settles}
use sub_host_demo.Mempool.{Mempool, kept, admit, get_tx, has}
use sub_host_demo.Mempool.Consistent.{IsConsistent}
use sub_host_demo.Mempool.Admit.{admitted}
use sub_host_demo.Mempool.Outcome.{Outcome, failed, again, beaten, entered, admit-Outcome}
use sub_host_demo.Storage.{FileFormat, WriteIo, last, height_of}
use sub_host_demo.Storage.Append.{height-length}
use sub_host_demo.Rpc.{
  RpcState, attempt, next_height, set_mempool, seal_next_block, receipt_for, submit_transaction,
}
use sub_host_demo.Rpc.Commit.{IsReady, new_block, new_receipt, ledger_write, seal_ready, persist_ok}
use sub_host_demo.Rpc.Ledger.{IsSound}
use sub_host_demo.Rpc.Effect.{IsIncluded, submit_transaction_included}
use sub_host_demo.Rpc.Submit.{hash, pooled, submit_sealed}

attempt-settled :
    (f : FileFormat) (tx : Transaction) (to : Address) (s : State)
    → Admissible tx to s
    → attempt f tx s ≡ ok (settled tx to s)
unfolding attempt
attempt-settled f tx to s a = ground (arith, settles tx to s a)

next_height-some :
    (o : Option Block) → height_of o < u64_max → next_height o ≡ some (height_of o + 1)
next_height-some none h = refl
next_height-some (some b) h = ground arith

has-some : (h : Hash) (p : Mempool) → has h p ≡ true → (u : Transaction) × (get_tx h p ≡ some u)
unfolding has get_tx
has-some h p e = elim (Option-cases (Map.get h p.txs)) [
  | inl x ↦ absurd (ground arith)
  | inr (u, x) ↦ (u, x)
]

-- A pool that accepts a transaction holds one under its hash.
accepted_pending :
    (d : Digest) (tx : Transaction) (displaced : Option Transaction) (p : Mempool)
    → IsConsistent d p
    → 0 < p.config.max_pending
    → (admit d tx p).0 ≡ ok (admitted (tx_hash d tx) displaced)
    → (u : Transaction) × (get_tx (tx_hash d tx) (admit d tx p).1 ≡ some u)
accepted_pending d tx displaced p c roomy e = by_cases (admit-Outcome d tx p c roomy)
  where
    by_cases :
        Outcome d tx p → (u : Transaction) × (get_tx (tx_hash d tx) (admit d tx p).1 ≡ some u)
    by_cases (failed _ x) = absurd (cc (x, e))
    by_cases (again k x) = rw x (has-some (tx_hash d tx) p k)
    by_cases (beaten old _ _ x) = absurd (clash old x e)
      where
        clash :
            (old : Hash)
            → admit d tx p ≡ (ok (kept old), p)
            → (admit d tx p).0 ≡ ok (admitted (tx_hash d tx) displaced)
            → ⊥
        clash old x e = ground (arith, x, e)
    by_cases (entered _ _ _ _ k) = (tx, k.pending)

module _ (f : FileFormat) (sys : WriteIo) (now : ℕ) (tx : Transaction) (to : Address)
    (n : RpcState) where
  pub ready :
      IsSound f n
      → Admissible tx to n.state
      → tx.gas_limit ≤ block_gas_limit
      → length n.blocks < u64_max
      → get_tx (hash f sys now tx n) (pooled f sys now tx n).mempool ≡ some tx
      → IsReady f sys now
          (hash f sys now tx n)
          (pooled f sys now tx n)
          tx
          (settled tx to n.state)
          (length n.blocks + 1)
  unfolding set_mempool
  ready s a gas room pending =
      let count = height-length f.codec n.chain_id n.blocks s.ledger.linked in
      record {
        pending = pending;
        gas = gas;
        executed = attempt-settled f tx to n.state a;
        next =
            next_height-some (last n.blocks) (omega (arith, count)) ∙ ap (λ k. some (k + 1)) count;
      }

  pub sealed_ok :
      (h : Hash) (m : RpcState) (s : State) (top : ℕ)
      → IsReady f sys now h m tx s top
      → (ledger_write f sys now h m tx s top).0 ≡ ok tt
      → (seal_next_block f sys now h m).0 ≡ ok (new_receipt f sys now h m tx s top)
  sealed_ok h m s top r w =
      let same = seal_ready f sys now h m tx s top r in
      let written =
        persist_ok f sys s (m.blocks ++ new_block f sys now h m tx s top ∷ [])
          (Map.insert h (new_receipt f sys now h m tx s top) m.receipts) m w in
      ap (λ q. q.0) same ∙ ground (arith, written)

  answers :
      (displaced : Option Transaction)
      → IsSound f n
      → 0 < n.mempool.config.max_pending
      → Admissible tx to n.state
      → tx.gas_limit ≤ block_gas_limit
      → length n.blocks < u64_max
      → (admit f.codec.digest tx n.mempool).0 ≡ ok (admitted (tx_hash f.codec.digest tx) displaced)
      → ((u : Transaction)
          → get_tx (tx_hash f.codec.digest tx) (admit f.codec.digest tx n.mempool).1 ≡ some u
          → u ≡ tx)
      → (ledger_write f sys now
          (hash f sys now tx n)
          (pooled f sys now tx n)
          tx
          (settled tx to n.state)
          (length n.blocks + 1)).0
        ≡ ok tt
      → (submit_transaction f sys now tx n).0 ≡ ok (tx_hash f.codec.digest tx)
  unfolding set_mempool receipt_for
  answers displaced s roomy a gas room accepted alone w =
      let (u, p) = accepted_pending f.codec.digest tx displaced n.mempool s.pool roomy accepted in
      let pending = p ∙ ap some (alone u p) in
      let r = ready s a gas room pending in
      ap (λ q. q.0)
        (submit_sealed f sys now tx n displaced _ accepted (
          sealed_ok (hash f sys now tx n) (pooled f sys now tx n) (settled tx to n.state)
            (length n.blocks + 1) r w))

  -- An admissible transaction within the block gas limit that the pool of a sound node accepts is
  -- included in the chain, and its hash is returned, if its hash is its own in the pool, the chain is
  -- not at the last height and the new ledger can be written: the transaction is executed, its
  -- block is appended one height above, its receipt is recorded and its slot in the pool is free.
  pub submit_transaction_live :
      (displaced : Option Transaction)
      → IsSound f n
      → 0 < n.mempool.config.max_pending
      → Admissible tx to n.state
      → tx.gas_limit ≤ block_gas_limit
      → length n.blocks < u64_max
      → (admit f.codec.digest tx n.mempool).0 ≡ ok (admitted (tx_hash f.codec.digest tx) displaced)
      → ((u : Transaction)
          → get_tx (tx_hash f.codec.digest tx) (admit f.codec.digest tx n.mempool).1 ≡ some u
          → u ≡ tx)
      → (ledger_write f sys now
          (hash f sys now tx n)
          (pooled f sys now tx n)
          tx
          (settled tx to n.state)
          (length n.blocks + 1)).0
        ≡ ok tt
      → ((submit_transaction f sys now tx n).0 ≡ ok (tx_hash f.codec.digest tx))
        × ((r : Receipt) × IsIncluded f.codec.digest tx r n (submit_transaction f sys now tx n).1)
  submit_transaction_live displaced s roomy a gas room accepted alone w =
      let answered = answers displaced s roomy a gas room accepted alone w in
      (
        answered,
        (submit_transaction_included f sys now tx n (tx_hash f.codec.digest tx) s roomy alone
            answered).1,
      )
