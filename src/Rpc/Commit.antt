-- ===== src/Rpc/Commit.antt =====
-- crates/subhost-rpc/src/lib.rs: every outcome of `seal_next_block`.
use sub_host_demo.Base.{
  ℕ, ◌≤◌, ◌≡◌, ◌∙◌, inl, inr, some, List, [], ◌∷◌, ◌++◌, arith, nat_eq, ltb, Result, ok, err, ⊤,
  ◌>>◌, Bool-cases, Option-cases, Result-cases,
}
use sub_host_demo.Core.{Hash, Block, Receipt, Transaction, block_gas_limit}
use sub_host_demo.Map
use sub_host_demo.Map.{Map}
use sub_host_demo.State.{State}
use sub_host_demo.Mempool.{get_tx}
use sub_host_demo.Storage
use sub_host_demo.Storage.{FileFormat, WriteIo, Disk, last}
use sub_host_demo.Storage.Chain.{StorageError}
use sub_host_demo.Rpc.{
  RpcState, RpcError, invalid_tx_hash, transaction_rejected, above_block_gas_limit, internal,
  persistence, attempt, next_height, block_for, receipt_for, snapshot_of, persist, commit,
  seal_next_block,
}

-- The node with another content of the ledger file.
abbrev pub with_disk : Disk → RpcState → RpcState
with_disk disk n = record n { disk = disk }

module _ (f : FileFormat) (sys : WriteIo) where
  -- What is written for a state, blocks and receipts, and how that ends.
  abbrev pub writing :
      State → List Block → Map Hash Receipt → RpcState → Result StorageError ⊤ × Disk
  writing s blocks receipts n =
      Storage.persist f n.store sys (snapshot_of n.chain_id s blocks receipts) n.disk

  pub persist_ok :
      (s : State) (blocks : List Block) (receipts : Map Hash Receipt) (n : RpcState)
      → (writing s blocks receipts n).0 ≡ ok tt
      → persist f sys s blocks receipts n ≡ (ok tt, with_disk (writing s blocks receipts n).1 n)
  unfolding persist
  persist_ok s blocks receipts n h = ground arith

  pub persist_err :
      (s : State) (blocks : List Block) (receipts : Map Hash Receipt) (n : RpcState)
      (e : StorageError)
      → (writing s blocks receipts n).0 ≡ err e
      → persist f sys s blocks receipts n
        ≡ (err (persistence e), with_disk (writing s blocks receipts n).1 n)
  unfolding persist
  persist_err s blocks receipts n e h = ground arith

  module _ (now : ℕ) (h : Hash) (n : RpcState) where
    -- The block and the receipt of a transaction that gives the state `s`.
    abbrev pub new_block : Transaction → State → ℕ → Block
    new_block tx s height = block_for f now tx h s height (last n.blocks) n.chain_id

    abbrev pub new_receipt : Transaction → State → ℕ → Receipt
    new_receipt tx s height = receipt_for f tx h (new_block tx s height)

    -- A pending transaction within the block's gas limit that executes, and the height of its block.
    pub record IsReady (tx : Transaction) (s : State) (height : ℕ) : Type 0 where
      pub pending : get_tx h n.mempool ≡ some tx
      pub gas : tx.gas_limit ≤ block_gas_limit
      pub executed : attempt f tx n.state ≡ ok s
      pub next : next_height (last n.blocks) ≡ some height

    abbrev pub ledger_write : Transaction → State → ℕ → Result StorageError ⊤ × Disk
    ledger_write tx s height =
        writing s (n.blocks ++ new_block tx s height ∷ [])
          (Map.insert h (new_receipt tx s height) n.receipts) n

    -- The call is refused and nothing changes; or the ledger cannot be written, and only the file may
    -- change; or the ledger is written and every view is swapped.
    pub data Sealed : Type 0 where
      refused : (e : RpcError) → seal_next_block f sys now h n ≡ (err e, n) → Sealed
      unwritten :
          (tx : Transaction) (s : State) (height : ℕ) (e : StorageError)
          → IsReady tx s height
          → (ledger_write tx s height).0 ≡ err e
          → seal_next_block f sys now h n
            ≡ (err (persistence e), with_disk (ledger_write tx s height).1 n)
          → Sealed
      sealed :
          (tx : Transaction) (s : State) (height : ℕ)
          → IsReady tx s height
          → (ledger_write tx s height).0 ≡ ok tt
          → seal_next_block f sys now h n ≡ (
            ok (new_receipt tx s height),
            commit s
                (new_block tx s height)
                (new_receipt tx s height)
                h
                (with_disk (ledger_write tx s height).1 n),
          )
          → Sealed

    pub seal_ready :
        (tx : Transaction) (s : State) (height : ℕ)
        → IsReady tx s height
        → seal_next_block f sys now h n
          ≡ (persist f sys s
                  (n.blocks ++ new_block tx s height ∷ [])
                  (Map.insert h (new_receipt tx s height) n.receipts)
                >> λ n'. (
                  ok (new_receipt tx s height),
                  commit s (new_block tx s height) (new_receipt tx s height) h n',
                ))
              n
    unfolding seal_next_block
    seal_ready tx s height r = ground (arith, r.pending, r.gas, r.executed, r.next)

    pub seal_cases : Sealed
    unfolding seal_next_block
    seal_cases = elim (Option-cases (get_tx h n.mempool)) [
      | inl x ↦ refused invalid_tx_hash (ground arith)
      | inr (tx, pending) ↦ elim (Bool-cases (ltb block_gas_limit tx.gas_limit)) [
        | inl x ↦ refused (transaction_rejected (above_block_gas_limit tx.gas_limit)) (ground arith)
        | inr gas ↦ elim (Result-cases (attempt f tx n.state)) [
          | inr (e, x) ↦ refused e (ground arith)
          | inl (s, executed) ↦ elim (Option-cases (next_height (last n.blocks))) [
            | inl x ↦ refused internal (ground arith)
            | inr (height, next) ↦
                let r : IsReady tx s height = record {
                  pending = pending;
                  gas = ground arith;
                  executed = executed;
                  next = next;
                } in
                let blocks = n.blocks ++ new_block tx s height ∷ [] in
                let receipts = Map.insert h (new_receipt tx s height) n.receipts in
                elim (Result-cases (ledger_write tx s height).0) [
                  | inr (e, x) ↦ unwritten tx s height e r x (
                      seal_ready tx s height r
                      ∙ ground (arith, persist_err s blocks receipts n e x))
                  | inl (tt, x) ↦
                      sealed tx s height r x (
                        seal_ready tx s height r ∙ ground (arith, persist_ok s blocks receipts n x))
                ]
          ]
        ]
      ]
    ]
