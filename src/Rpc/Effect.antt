-- ===== src/Rpc/Effect.antt =====
-- crates/subhost-rpc/src/lib.rs: what `seal_next_block` and `submit_transaction` do to the chain.
use mathlib.Core.Path.{subst}
use sub_host_demo.Base.{
  ℕ, ◌+◌, ◌<◌, ◌≡◌, ◌∙◌, sym, ap, refl, Option, none, some, [], ◌∷◌, ◌++◌, arith, nat_eq, ok, err,
}
use sub_host_demo.Core.{Address, Hash, Digest, Block, Receipt, success, Transaction, tx_hash}
use sub_host_demo.Map.{get-insert}
use sub_host_demo.State.{State, apply_transaction}
use sub_host_demo.State.Effect.{Admissible, settles}
use sub_host_demo.Mempool.{Mempool, admit, get_tx}
use sub_host_demo.Mempool.Consistent.{IsConsistent}
use sub_host_demo.Mempool.Admit.{admit-IsConsistent, txs-remove}
use sub_host_demo.Storage.{FileFormat, WriteIo, Disk, last}
use sub_host_demo.Storage.Append.{height-length}
use sub_host_demo.Rpc.{
  RpcState, RpcError, restore_pool, receipt, commit, set_mempool, seal_next_block,
  submit_transaction, block_for, receipt_for,
}
use sub_host_demo.Rpc.Commit.{
  with_disk, IsReady, new_block, new_receipt, Sealed, refused, unwritten, sealed, seal_cases,
  ledger_write,
}
use sub_host_demo.Rpc.Ledger.{IsSound, attempt_ok}
use sub_host_demo.Rpc.Seal.{pending_hash, next_height_lem}
use sub_host_demo.Rpc.Restart.{SameChain}
use sub_host_demo.Rpc.Submit
use sub_host_demo.Rpc.Submit.{hash, pooled, previous, Submitted, submit_cases, set_mempool-IsSound}

-- What it means that a transaction got into the chain of `n`, which gave `m`, under the receipt `r`.
pub record IsIncluded (d : Digest) (tx : Transaction) (r : Receipt) (n m : RpcState) : Type 0 where
  pub to : Address
  pub admissible : Admissible tx to n.state
  pub executed : m.state ≡ (apply_transaction tx n.state).1
  pub block : Block
  pub content : block.transactions ≡ tx ∷ []
  pub appended : m.blocks ≡ n.blocks ++ block ∷ []
  pub height : m.block_height ≡ n.block_height + 1
  pub recorded : receipt (tx_hash d tx) m ≡ some r
  pub named : r.tx_hash ≡ tx_hash d tx
  pub at_top : r.block_height ≡ m.block_height
  pub succeeded : r.status ≡ success
  pub gone : get_tx (tx_hash d tx) m.mempool ≡ none

module _ (f : FileFormat) (sys : WriteIo) (now : ℕ) (h : Hash) (n : RpcState) where
  same_chain : (p : Mempool) (disk : Disk) → SameChain (set_mempool p (with_disk disk n)) n
  unfolding set_mempool receipt
  same_chain p disk = record {
    chain = refl;
    height = refl;
    blocks = refl;
    accounts = λ a. refl;
    receipts = λ x. refl;
  }

  -- A sealing that fails leaves the chain as it was.
  pub seal_failed :
      (e : RpcError)
      → (seal_next_block f sys now h n).0 ≡ err e
      → (disk : Disk) × ((seal_next_block f sys now h n).1 ≡ with_disk disk n)
  seal_failed e x = by_cases (seal_cases f sys now h n)
    where
      by_cases :
          Sealed f sys now h n
          → (disk : Disk) × ((seal_next_block f sys now h n).1 ≡ with_disk disk n)
      by_cases (refused _ y) = (n.disk, ap (λ q. q.1) y)
      by_cases (unwritten tx s height _ _ _ y) = (_, ap (λ q. q.1) y)
      by_cases (sealed _ _ _ _ _ y) = absurd (cc (x, y))

  committed :
      (tx : Transaction) (s : State) (top : ℕ) (disk : Disk)
      → IsSound f n
      → IsReady f sys now h n tx s top
      → IsIncluded f.codec.digest tx (new_receipt f sys now h n tx s top) n (
          commit s
            (new_block f sys now h n tx s top)
            (new_receipt f sys now h n tx s top)
            h
            (with_disk disk n))
  unfolding commit receipt block_for receipt_for get_tx
  committed tx s top disk sound r =
      let (to, a, e) = attempt_ok f tx n.state s r.executed in
      let (next, _) = next_height_lem (last n.blocks) top r.next in
      let count = height-length f.codec n.chain_id n.blocks sound.ledger.linked in
      let same = pending_hash f.codec.digest h tx n.mempool sound.pool r.pending in
      record {
        to = to;
        admissible = a;
        executed = e ∙ sym (ap (λ q. q.1) (settles tx to n.state a));
        block = new_block f sys now h n tx s top;
        content = refl;
        appended = refl;
        height = omega (arith, next, count, sound.top);
        recorded =
            ground (arith, same, get-insert h h (new_receipt f sys now h n tx s top) n.receipts);
        named = sym same;
        at_top = refl;
        succeeded = refl;
        gone = ground (arith, same, txs-remove f.codec.digest h h n.mempool);
      }

  -- When a sound node seals the pending transaction of a hash, that transaction is admissible and
  -- is executed on the state, its block is appended one height above, its receipt says so and is
  -- recorded under its hash, and it is no longer pending.
  pub seal_next_block-IsIncluded :
      (r : Receipt)
      → IsSound f n
      → (seal_next_block f sys now h n).0 ≡ ok r
      → (tx : Transaction) × (get_tx h n.mempool ≡ some tx)
        × IsIncluded f.codec.digest tx r n (seal_next_block f sys now h n).1
  seal_next_block-IsIncluded r sound x = by_cases (seal_cases f sys now h n)
    where
      by_cases :
          Sealed f sys now h n
          → (tx : Transaction) × (get_tx h n.mempool ≡ some tx)
            × IsIncluded f.codec.digest tx r n (seal_next_block f sys now h n).1
      by_cases (refused _ y) = absurd (cc (x, y))
      by_cases (unwritten _ _ _ _ _ _ y) = absurd (cc (x, y))
      by_cases (sealed tx s top k _ y) = rw (ap (λ q. q.1) y) (
        tx,
        k.pending,
        subst
            (λ z. IsIncluded f.codec.digest tx z n (
              commit s (new_block f sys now h n tx s top) (new_receipt f sys now h n tx s top) h
                (with_disk (ledger_write f sys now h n tx s top).1 n)))
            (same y x) (committed tx s top (ledger_write f sys now h n tx s top).1 sound k),
      )
        where
          same :
              {a b : Receipt} {m : RpcState}
              → seal_next_block f sys now h n ≡ (ok a, m)
              → (seal_next_block f sys now h n).0 ≡ ok b
              → a ≡ b
          same y x = cc (x, y)

module _ (f : FileFormat) (sys : WriteIo) (now : ℕ) (tx : Transaction) (n : RpcState) where
  -- A submission that fails leaves the chain as it was: its height, its blocks, its accounts and its
  -- receipts.
  pub submit_transaction_failed :
      (e : RpcError)
      → IsConsistent f.codec.digest n.mempool
      → 0 < n.mempool.config.max_pending
      → (submit_transaction f sys now tx n).0 ≡ err e
      → SameChain (submit_transaction f sys now tx n).1 n
  unfolding set_mempool
  submit_transaction_failed e c roomy x = by_cases (submit_cases f sys now tx n c roomy)
    where
      by_cases : Submitted f sys now tx n → SameChain (submit_transaction f sys now tx n).1 n
      by_cases (Submit.refused _ y) =
          subst (λ q. SameChain q n) (sym (ap (λ q. q.1) y))
            (same_chain f sys now (hash f sys now tx n) n n.mempool n.disk)
      by_cases (Submit.included _ _ y) = absurd (cc (x, y))
      by_cases (Submit.undone e' displaced s y) =
          let (disk, z) =
            seal_failed f sys now (hash f sys now tx n) (pooled f sys now tx n) e' s in
          subst (λ q. SameChain q n) (sym (ap (λ q. q.1) y))
            (subst
              (λ q.
                SameChain
                  (set_mempool
                    (restore_pool f (hash f sys now tx n) (previous f sys now tx n) displaced
                      q.mempool)
                    q)
                  n)
              (sym z) (whole disk displaced))
        where
          whole :
              (disk : Disk) (displaced : Option Transaction)
              → SameChain
                  (set_mempool
                    (restore_pool f
                      (hash f sys now tx n)
                      (previous f sys now tx n)
                      displaced
                      (admit f.codec.digest tx n.mempool).1)
                    (with_disk disk (pooled f sys now tx n)))
                  n
          whole disk displaced =
              unfold set_mempool in same_chain f sys now (hash f sys now tx n) n _ disk

  -- A submission that succeeds returns the hash of its transaction, and that transaction is included
  -- in the chain, if no other pending transaction has its hash.
  pub submit_transaction_included :
      (h : Hash)
      → IsSound f n
      → 0 < n.mempool.config.max_pending
      → ((u : Transaction)
          → get_tx (tx_hash f.codec.digest tx) (admit f.codec.digest tx n.mempool).1 ≡ some u
          → u ≡ tx)
      → (submit_transaction f sys now tx n).0 ≡ ok h
      → (h ≡ tx_hash f.codec.digest tx)
        × ((r : Receipt) × IsIncluded f.codec.digest tx r n (submit_transaction f sys now tx n).1)
  unfolding set_mempool
  submit_transaction_included h s roomy alone x =
      by_cases (submit_cases f sys now tx n s.pool roomy)
    where
      by_cases :
          Submitted f sys now tx n
          → (h ≡ tx_hash f.codec.digest tx)
            × ((r : Receipt) × IsIncluded f.codec.digest tx r n
                  (submit_transaction f sys now tx n).1)
      by_cases (Submit.refused _ y) = absurd (cc (x, y))
      by_cases (Submit.undone _ _ _ y) = absurd (cc (x, y))
      by_cases (Submit.included r z y) =
          let (u, p, k) =
            seal_next_block-IsIncluded f sys now (hash f sys now tx n) (pooled f sys now tx n) r
              (set_mempool-IsSound f _ n (admit-IsConsistent f.codec.digest tx n.mempool s.pool) s)
              z in
          let k' =
            subst
              (λ t.
                IsIncluded f.codec.digest t r (pooled f sys now tx n)
                  (seal_next_block f sys now (hash f sys now tx n) (pooled f sys now tx n)).1)
              (alone u p) k in
          (
            named x y k'.named,
            (
              r,
              subst (λ q. IsIncluded f.codec.digest tx r n q) (sym (ap (λ q. q.1) y)) (unpool k'),
            ),
          )
        where
          named :
              {a b : Hash} {m : RpcState}
              → (submit_transaction f sys now tx n).0 ≡ ok a
              → submit_transaction f sys now tx n ≡ (ok r.tx_hash, m)
              → r.tx_hash ≡ b
              → a ≡ b
          named x y z = cc (x, y, z)

          unpool :
              {m : RpcState}
              → IsIncluded f.codec.digest tx r (pooled f sys now tx n) m
              → IsIncluded f.codec.digest tx r n m
          unpool k = record {
            to = k.to;
            admissible = k.admissible;
            executed = k.executed;
            block = k.block;
            content = k.content;
            appended = k.appended;
            height = k.height;
            recorded = k.recorded;
            named = k.named;
            at_top = k.at_top;
            succeeded = k.succeeded;
            gone = k.gone;
          }
