-- ===== src/Core.antt =====
-- crates/subhost-core/src/lib.rs: the types that every crate shares, and the rules on them that
-- are code. A `Hash` or an `Address` is a fixed-width byte string that the program only compares:
-- it is the number that the bytes spell, big end first, so that `Ord` is the order of numbers.
pub mod Genesis
pub mod Signature
use Prim.Native.String.{String}
use sub_host_demo.Base.{ℕ, ◌+◌, ◌*◌, ◌≡◌, Bool, true, false, Option, none, some, List, [], ◌∷◌, map}
use sub_host_demo.Base.Words.{u128_max, checked_add, checked_mul}

abbrev pub Hash : Type 0
Hash = ℕ

abbrev pub Address : Type 0
Address = ℕ

-- `Hash::ZERO` and `Address::ZERO`.
abbrev pub zero_hash : Hash
zero_hash = 0

abbrev pub zero_address : Address
zero_address = 0

abbrev pub Byte : Type 0
Byte = ℕ

abbrev pub block_gas_limit : ℕ
block_gas_limit = 30000000

abbrev pub default_block_time_ms : ℕ
default_block_time_ms = 1000

pub record BlockHeader : Type 0 where
  pub version : ℕ
  pub chain_id : ℕ
  pub height : ℕ
  pub timestamp : ℕ
  pub parent_hash : Hash
  pub state_root : Hash
  pub tx_root : Hash
  pub receipt_root : Hash
  pub validator : Address
  pub gas_used : ℕ
  pub gas_limit : ℕ
  pub extra_data : List Byte

pub data TransactionType : Type 0 where
  transfer contract_creation contract_call stake unstake governance_vote cross_chain :
      TransactionType

-- `r` and `s` are 32 bytes each.
pub record TransactionSignature : Type 0 where
  pub r : List Byte
  pub s : List Byte
  pub v : Byte

pub record Transaction : Type 0 where
  pub tx_type : TransactionType
  pub nonce : ℕ
  pub from : Address
  pub to : Option Address
  pub value : ℕ
  pub gas_price : ℕ
  pub gas_limit : ℕ
  pub payload : List Byte
  pub chain_id : ℕ
  pub signature : TransactionSignature

pub record ValidatorSignature : Type 0 where
  pub validator : Address
  pub signature : List Byte

pub record Block : Type 0 where
  pub header : BlockHeader
  pub transactions : List Transaction
  pub signatures : List ValidatorSignature

pub data ReceiptStatus : Type 0 where
  success failure : ReceiptStatus

pub record Log : Type 0 where
  pub address : Address
  pub topics : List Hash
  pub payload : List Byte

pub record Receipt : Type 0 where
  pub tx_hash : Hash
  pub block_hash : Hash
  pub block_height : ℕ
  pub gas_used : ℕ
  pub status : ReceiptStatus
  pub logs : List Log
  pub contract_address : Option Address

-- What third-party crates compute: `bincode::serialize` behind `encode_canonical`, at the types
-- that the program commits to, and `blake3::hash`.
pub record Digest : Type 0 where
  pub blake3 : List Byte → Hash
  pub encode_transaction : Transaction → List Byte
  pub encode_header : BlockHeader → List Byte
  pub encode_hashes : List Hash → List Byte

-- `Transaction::fee`
unfoldable pub fee : Transaction → Option ℕ
fee tx = checked_mul u128_max tx.gas_price tx.gas_limit

-- `Transaction::total_cost`
unfoldable pub total_cost : Transaction → Option ℕ
total_cost tx = elim (fee tx) [ none ↦ none | some paid ↦ checked_add u128_max tx.value paid ]

module _ (d : Digest) where
  -- `Transaction::hash`
  unfoldable pub tx_hash : Transaction → Hash
  tx_hash tx = d.blake3 (d.encode_transaction tx)

  -- `BlockHeader::hash` and `Block::hash`
  unfoldable pub block_hash : Block → Hash
  block_hash b = d.blake3 (d.encode_header b.header)

  unfoldable pub tx_root_of : List Hash → Hash
  tx_root_of hashes = d.blake3 (d.encode_hashes hashes)

  -- `Block::tx_root`
  unfoldable pub tx_root : Block → Hash
  tx_root b =
      d.blake3 (d.encode_hashes (map (λ tx. d.blake3 (d.encode_transaction tx)) b.transactions))
