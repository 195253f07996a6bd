-- ===== src/Rpc/Submit.antt =====
-- crates/subhost-rpc/src/lib.rs: every outcome of `submit_transaction`.
use mathlib.Core.Path.{subst}
use sub_host_demo.Base.{
  ℕ, ◌<◌, ◌≡◌, ◌∙◌, sym, ap, inl, inr, Option, none, some, arith, nat_eq, ok, err, Result-cases,
}
use sub_host_demo.Core.{Hash, Receipt, Transaction, tx_hash}
use sub_host_demo.Mempool
use sub_host_demo.Mempool.{
  Mempool, MempoolError, Admission, admit, get_tx, has, get_by_sender_nonce, add,
}
use sub_host_demo.Mempool.Consistent.{IsConsistent, remove-IsConsistent}
use sub_host_demo.Mempool.Admit.{admit-IsConsistent, admitted}
use sub_host_demo.Mempool.Outcome.{Outcome, failed, again, beaten, entered, admit-Outcome}
use sub_host_demo.Storage.{FileFormat, WriteIo}
use sub_host_demo.Rpc.{
  RpcState, RpcError, transaction_rejected, pool, slot_taken, set_mempool, second, put_back,
  restore_pool, admit_pending, seal_or_restore, seal_next_block, submit_transaction,
}
use sub_host_demo.Rpc.Ledger.{IsSound}
use sub_host_demo.Rpc.Seal.{HasNoCollision, seal_next_block-IsSound}

module _ (f : FileFormat) where
  put_back-admit :
      (tx : Transaction) (p : Mempool) → put_back f (some tx) p ≡ (admit f.codec.digest tx p).1
  unfolding put_back add
  put_back-admit tx p = ground arith

  put_back-IsConsistent :
      (o : Option Transaction) (p : Mempool)
      → IsConsistent f.codec.digest p
      → IsConsistent f.codec.digest (put_back f o p)
  unfolding put_back
  put_back-IsConsistent none p c = c
  put_back-IsConsistent (some tx) p c =
      subst (IsConsistent f.codec.digest) (sym (put_back-admit tx p))
        (admit-IsConsistent f.codec.digest tx p c)

  restore_pool-IsConsistent :
      (h : Hash) (o o' : Option Transaction) (p : Mempool)
      → IsConsistent f.codec.digest p
      → IsConsistent f.codec.digest (restore_pool f h o o' p)
  unfolding restore_pool
  restore_pool-IsConsistent h o o' p c =
      put_back-IsConsistent o' _
        (put_back-IsConsistent o _ (remove-IsConsistent f.codec.digest h p c))

  pub set_mempool-IsSound :
      (p : Mempool) (n : RpcState)
      → IsConsistent f.codec.digest p
      → IsSound f n
      → IsSound f (set_mempool p n)
  unfolding set_mempool
  set_mempool-IsSound p n c s = record {
    ledger = s.ledger;
    accounts = s.accounts;
    keyed = s.keyed;
    once = s.once;
    pool = c;
    state_chain = s.state_chain;
    store_chain = s.store_chain;
    positive = s.positive;
    top = s.top;
    spent = s.spent;
  }

  module _ (sys : WriteIo) (now : ℕ) (tx : Transaction) (n : RpcState) where
    abbrev pub hash : Hash
    hash = tx_hash f.codec.digest tx

    -- The node once the transaction is admitted.
    abbrev pub pooled : RpcState
    pooled = set_mempool (admit f.codec.digest tx n.mempool).1 n

    abbrev pub previous : Option Transaction
    previous = second f (get_by_sender_nonce tx.from tx.nonce n.mempool)

    -- How a submission ends: refused by the pool with nothing changed; or admitted and then sealed, or
    -- admitted, not sealed, and taken out of the pool again.
    pub data Submitted : Type 0 where
      refused : (e : RpcError) → submit_transaction f sys now tx n ≡ (err e, n) → Submitted
      included :
          (r : Receipt)
          → (seal_next_block f sys now hash pooled).0 ≡ ok r
          → submit_transaction f sys now tx n
            ≡ (ok r.tx_hash, (seal_next_block f sys now hash pooled).1)
          → Submitted
      undone :
          (e : RpcError) (displaced : Option Transaction)
          → (seal_next_block f sys now hash pooled).0 ≡ err e
          → submit_transaction f sys now tx n ≡ (
            err e,
            set_mempool
                (restore_pool f hash previous displaced
                  (seal_next_block f sys now hash pooled).1.mempool)
                (seal_next_block f sys now hash pooled).1,
          )
          → Submitted

    refusing :
        (e : RpcError)
        → admit_pending f tx n ≡ (err e, n)
        → submit_transaction f sys now tx n ≡ (err e, n)
    unfolding submit_transaction
    refusing e x = ground (arith, x)

    entering :
        (h : Hash) (displaced : Option Transaction) (n' : RpcState)
        → admit_pending f tx n ≡ (ok (admitted h displaced), n')
        → submit_transaction f sys now tx n
          ≡ seal_or_restore f sys now (admitted h displaced) previous n'
    unfolding submit_transaction
    entering h displaced n' x = ground (arith, x)

    admitting :
        (h : Hash) (displaced : Option Transaction)
        → (admit f.codec.digest tx n.mempool).0 ≡ ok (admitted h displaced)
        → admit_pending f tx n ≡ (ok (admitted h displaced), pooled)
    unfolding admit_pending
    admitting h displaced e = ground (arith, e)

    seal_or_restore_ok :
        (displaced : Option Transaction) (r : Receipt)
        → (seal_next_block f sys now hash pooled).0 ≡ ok r
        → seal_or_restore f sys now (admitted hash displaced) previous pooled
          ≡ (ok r.tx_hash, (seal_next_block f sys now hash pooled).1)
    unfolding seal_or_restore
    seal_or_restore_ok displaced r y = ground (arith, y)

    seal_or_restore_err :
        (displaced : Option Transaction) (e : RpcError)
        → (seal_next_block f sys now hash pooled).0 ≡ err e
        → seal_or_restore f sys now (admitted hash displaced) previous pooled ≡ (
          err e,
          set_mempool
              (restore_pool f hash previous displaced
                (seal_next_block f sys now hash pooled).1.mempool)
              (seal_next_block f sys now hash pooled).1,
        )
    unfolding seal_or_restore
    seal_or_restore_err displaced e y = ground (arith, y)

    -- A submission that the pool accepts and that is sealed succeeds.
    pub submit_sealed :
        (displaced : Option Transaction) (r : Receipt)
        → (admit f.codec.digest tx n.mempool).0 ≡ ok (admitted hash displaced)
        → (seal_next_block f sys now hash pooled).0 ≡ ok r
        → submit_transaction f sys now tx n
          ≡ (ok r.tx_hash, (seal_next_block f sys now hash pooled).1)
    submit_sealed displaced r e y =
        entering hash displaced pooled (admitting hash displaced e)
        ∙ seal_or_restore_ok displaced r y

    sealing :
        (displaced : Option Transaction)
        → (admit f.codec.digest tx n.mempool).0 ≡ ok (admitted hash displaced)
        → Submitted
    sealing displaced e = elim (Result-cases (seal_next_block f sys now hash pooled).0) [
      | inl (r, y) ↦ included r y (submit_sealed displaced r e y)
      | inr (z, y) ↦ undone z displaced y (
          entering hash displaced pooled (admitting hash displaced e)
          ∙ seal_or_restore_err displaced z y)
    ]

    pub submit_cases :
        IsConsistent f.codec.digest n.mempool → 0 < n.mempool.config.max_pending → Submitted
    submit_cases c roomy = by_cases (admit-Outcome f.codec.digest tx n.mempool c roomy)
      where
        by_cases : Outcome f.codec.digest tx n.mempool → Submitted
        by_cases (failed e x) = refused (transaction_rejected (pool e)) (refusing _ (rejecting e x))
          where
            rejecting :
                (e : MempoolError)
                → admit f.codec.digest tx n.mempool ≡ (err e, n.mempool)
                → admit_pending f tx n ≡ (err (transaction_rejected (pool e)), n)
            rejecting e x = unfold admit_pending set_mempool in ground (arith, x)
        by_cases (again _ x) = sealing none (ap (λ r. r.0) x)
        by_cases (beaten old _ _ x) = refused (transaction_rejected slot_taken) (losing old x)
          where
            losing :
                (old : Hash)
                → admit f.codec.digest tx n.mempool ≡ (ok (Mempool.kept old), n.mempool)
                → submit_transaction f sys now tx n ≡ (err (transaction_rejected slot_taken), n)
            losing old x = unfold submit_transaction admit_pending set_mempool in ground (arith, x)
        by_cases (entered displaced _ _ x _) = sealing displaced x

    -- However a submission ends, a sound node whose pool has room for a transaction is sound
    -- afterwards, if no hash of the sealed transaction or of its block collides with one of the chain.
    pub submit_transaction-IsSound :
        IsSound f n
        → 0 < n.mempool.config.max_pending
        → HasNoCollision f sys now hash pooled
        → IsSound f (submit_transaction f sys now tx n).1
    submit_transaction-IsSound s roomy free = by_cases (submit_cases s.pool roomy)
      where
        next : IsSound f (seal_next_block f sys now hash pooled).1
        next =
            seal_next_block-IsSound f sys now hash pooled
              (set_mempool-IsSound _ n (admit-IsConsistent f.codec.digest tx n.mempool s.pool) s)
              free

        by_cases : Submitted → IsSound f (submit_transaction f sys now tx n).1
        by_cases (refused _ x) = rw x s
        by_cases (included _ _ x) = rw x next
        by_cases (undone _ displaced _ x) = rw x (
            set_mempool-IsSound _ _ (restore_pool-IsConsistent hash previous displaced _ next.pool)
              next)
