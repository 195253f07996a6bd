-- ===== src/Storage/Chain.antt =====
-- crates/subhost-storage/src/lib.rs: `validate_chain`, the gate that every ledger passes before it
-- is trusted, and the errors of the store.
use sub_host_demo.Base.{
  ℕ, ◌+◌, Bool, true, false, not, ◌||◌, Option, none, some, List, [], ◌∷◌, ◌==◌, nat_eq, ltb,
  length, elem, if◌then◌else◌, Result, ok, err, ⊤,
}
use sub_host_demo.Base.Words.{u64_max, checked_add}
use sub_host_demo.Core.{
  Byte, Hash, Digest, Block, Transaction, Receipt, ReceiptStatus, success, failure, zero_hash,
  tx_hash, block_hash, tx_root_of,
}
use sub_host_demo.State.{State, StateSnapshot, StateError, root}

-- `StorageError::Invalid`, with its text by cases.
pub data Fault : Type 0 where
  height_overflow receipt_count duplicate_receipt unknown_block state_root : Fault
  block_sequence block_commitment receipt_of : ℕ → Fault

pub data StorageError : Type 0 where
  invalid_chain_id unsupported_format checksum_mismatch : StorageError
  chain_mismatch : ℕ → ℕ → StorageError
  too_large : ℕ → ℕ → StorageError
  unsupported_version : ℕ → StorageError
  invalid : Fault → StorageError
  bad_state : StateError → StorageError
  decode encode missing_parent_directory io : StorageError

-- The encodings that third-party code computes for the commitments.
pub record Codec : Type 0 where
  pub digest : Digest
  pub encode_state : StateSnapshot → List Byte
  pub encode_receipt : Hash → ℕ → ℕ → ℕ → List Byte

-- `status as u8`
abbrev pub status_byte : ReceiptStatus → ℕ
status_byte failure = 0
status_byte success = 1

abbrev pub is_success : ReceiptStatus → Bool
is_success success = true
is_success failure = false

module _ (c : Codec) where
  unfoldable pub receipt_root : Hash → ℕ → ℕ → Hash
  receipt_root h height gas_used =
      c.digest.blake3 (c.encode_receipt h height gas_used (status_byte success))

  unfoldable pub state_root_of : State → Hash
  state_root_of s = root c.encode_state c.digest.blake3 s

  abbrev pub hash_of : Block → Hash
  hash_of = block_hash c.digest

  -- The second check of a block: what its header commits to.
  unfoldable pub check_commitment : ℕ → Block → Transaction → Result StorageError ⊤
  check_commitment chain_id b tx =
      if not (b.header.tx_root == tx_root_of c.digest (tx_hash c.digest tx ∷ []))
        || not (tx.chain_id == chain_id)
        || not (b.header.gas_used == tx.gas_limit)
        || not (
            b.header.receipt_root
            == receipt_root (tx_hash c.digest tx) b.header.height b.header.gas_used)
      then err (invalid (block_commitment b.header.height))
      else ok tt

  -- The first check of a block: its place in the chain, and that it holds one transaction.
  unfoldable pub check_sequence : ℕ → ℕ → Hash → Block → Result StorageError Transaction
  check_sequence chain_id expected parent b = elim b.transactions [
    | tx ∷ [] ↦
        if not (b.header.height == expected)
          || not (b.header.parent_hash == parent)
          || not (b.header.chain_id == chain_id)
          || ltb b.header.gas_limit b.header.gas_used
        then err (invalid (block_sequence expected))
        else ok tx
    | _ ↦ err (invalid (block_sequence expected))
  ]

  -- The loop over the blocks; `index` counts them from 0.
  unfoldable pub check_blocks : ℕ → ℕ → Hash → List Block → Result StorageError ⊤
  check_blocks chain_id index parent [] = ok tt
  check_blocks chain_id index parent (b ∷ bs) =
      let later = check_blocks chain_id (index + 1) (hash_of b) bs in
      elim (checked_add u64_max index 1) [
        | none ↦ err (invalid height_overflow)
        | some expected ↦ elim (check_sequence chain_id expected parent b) [
          | err e ↦ err e
          | ok tx ↦ elim (check_commitment chain_id b tx) [ err e ↦ err e | ok _ ↦ later ]
        ]
      ]

  -- `blocks.iter().find(..)`
  unfoldable pub find_block : Hash → List Block → Option Block
  find_block h [] = none
  find_block h (b ∷ bs) = if hash_of b == h then some b else find_block h bs

  abbrev pub holds : Hash → List Transaction → Bool
  holds h [] = false
  holds h (tx ∷ txs) = (tx_hash c.digest tx == h) || holds h txs

  unfoldable pub check_receipt : Receipt → Block → Result StorageError ⊤
  check_receipt r b =
      if not (r.block_height == b.header.height)
        || not (holds r.tx_hash b.transactions)
        || not (is_success r.status)
        || not (r.gas_used == b.header.gas_used)
        || not (receipt_root r.tx_hash r.block_height r.gas_used == b.header.receipt_root)
      then err (invalid (receipt_of r.block_height))
      else ok tt

  -- The loop over the receipts; `seen` is the hash set of their blocks.
  unfoldable pub check_receipts : List Block → List Hash → List Receipt → Result StorageError ⊤
  check_receipts blocks seen [] = ok tt
  check_receipts blocks seen (r ∷ rs) =
      let later = check_receipts blocks (r.block_hash ∷ seen) rs in
      if elem r.block_hash seen
      then err (invalid duplicate_receipt)
      else elim (find_block r.block_hash blocks) [
        | none ↦ err (invalid unknown_block)
        | some b ↦ elim (check_receipt r b) [ err e ↦ err e | ok _ ↦ later ]
      ]

  -- The newest block commits to the state.
  unfoldable pub check_root : State → List Block → Result StorageError ⊤
  check_root s [] = ok tt
  check_root s (b ∷ []) =
      if not (state_root_of s == b.header.state_root) then err (invalid state_root) else ok tt
  check_root s (b ∷ b' ∷ bs) = check_root s (b' ∷ bs)

  unfoldable pub validate_chain : List Block → List Receipt → ℕ → State → Result StorageError ⊤
  validate_chain blocks receipts chain_id s = elim (check_blocks chain_id 0 zero_hash blocks) [
    | err e ↦ err e
    | ok _ ↦
        if not (length blocks == length receipts)
        then err (invalid receipt_count)
        else elim (check_receipts blocks [] receipts) [ err e ↦ err e | ok _ ↦ check_root s blocks ]
  ]
