-- ===== src/Rpc/Server.antt =====
-- crates/subhost-rpc/src/lib.rs and crates/subhost-core/src/lib.rs: the methods of the RPC server. A request is what
-- `params.get` answers for each of its keys.
pub mod Signed
pub mod Lookup
use sub_host_demo.Base.{
  ℕ, suc, ◌+◌, ◌-◌, ◌*◌, ◌%◌, ◌^◌, Bool, true, false, not, ◌&&◌, ◌||◌, Option, none, some, List, [],
  ◌∷◌, ◌++◌, ◌==◌, nat_eq, ltb, leb, length, if◌then◌else◌, Exec, Result, ok, err, fail_if, fail,
  ok_or, gets, modify, pure, lift, ◌>>=◌, ◌>>◌, ⊤,
}
use sub_host_demo.Core.{
  Digest, Address, Byte, Hash, Block, Receipt, Transaction, TransactionType, TransactionSignature,
  transfer, contract_creation, tx_hash,
}
use sub_host_demo.Core.Signature.{empty_signature, from_ed25519, signing_payload}
use sub_host_demo.Storage.{FileFormat, WriteIo}
use sub_host_demo.Rpc.{
  RpcState, RpcError, Action, invalid_address, invalid_tx_hash, invalid_params, invalid_chain_id,
  invalid_signature, internal, unsupported_transaction_type, transaction_rejected, persistence,
  block_at_height, receipt, block_count, balance_of, nonce_of, submit_transaction, min_gas_price,
}
use sub_host_demo.Rpc.Wire.{
  format_quantity, Text, Json, string, number, other, default_tx_gas_limit, strip_prefix,
  hex_prefix, hex_quantity, hex_amount, resolve_block_height,
}

-- `hex::decode`, and ed25519's check of a key and of a signature.
pub record Crypto : Type 0 where
  pub hex_decode : Text → Option (List Byte)
  pub is_key : List Byte → Bool
  pub verify : List Byte → List Byte → List Byte → Bool

-- The parameter object of `eth_sendTransaction`.
pub record Request : Type 0 where
  pub from : Option Json
  pub to : Option Json
  pub chain_id : Option Json
  pub gas : Option Json
  pub gas_limit : Option Json
  pub nonce : Option Json
  pub value : Option Json
  pub gas_price : Option Json
  pub payload : Option Json
  pub input : Option Json
  pub public_key : Option Json
  pub signature : Option Json

-- The code of an error, whose sign is minus, and whether the answer carries its text.
pub record ErrorObject : Type 0 where
  pub code : ℕ
  pub detail : Bool

-- `ErrorObject::from`
unfoldable pub error_object : RpcError → ErrorObject
error_object invalid_address = record { code = 32602; detail = true }
error_object invalid_tx_hash = record { code = 32602; detail = true }
error_object invalid_params = record { code = 32602; detail = true }
error_object invalid_chain_id = record { code = 32602; detail = true }
error_object invalid_signature = record { code = 32602; detail = true }
error_object (unsupported_transaction_type _) = record { code = 32000; detail = true }
error_object (transaction_rejected _) = record { code = 32000; detail = true }
error_object (persistence _) = record { code = 32603; detail = false }
error_object internal = record { code = 32603; detail = false }

-- The number that bytes spell, big end first.
unfoldable pub of_bytes : ℕ → List Byte → ℕ
of_bytes n [] = n
of_bytes n (b ∷ bs) = of_bytes (n * 256 + b) bs

-- `Value::as_str`
unfoldable pub as_str : Option Json → Option Text
as_str (some (string text)) = some text
as_str (some (number _)) = none
as_str (some other) = none
as_str none = none

-- `params.get(first).or_else(|| params.get(second))`
unfoldable pub or_else : Option Json → Option Json → Option Json
or_else (some value) _ = some value
or_else none o = o

abbrev pub unprefixed : Text → Option Text → Text
unprefixed text none = text
unprefixed text (some rest) = rest

module _ (c : Crypto) where
  -- `Hash::from_hex` and `Address::from_hex`, by the number of their bytes.
  unfoldable pub from_hex : ℕ → Text → Option ℕ
  from_hex size text = elim (c.hex_decode (unprefixed text (strip_prefix hex_prefix text))) [
    | none ↦ none
    | some bytes ↦ if length bytes == size then some (of_bytes 0 bytes) else none
  ]

  unfoldable pub parse_address : Text → Result RpcError Address
  parse_address text =
      if not (length text == 42)
      then err invalid_address
      else elim (from_hex 20 text) [ none ↦ err invalid_address | some a ↦ ok a ]

  unfoldable pub parse_tx_hash : Text → Result RpcError Hash
  parse_tx_hash text =
      if not (length text == 66)
      then err invalid_tx_hash
      else elim (from_hex 32 text) [ none ↦ err invalid_tx_hash | some h ↦ ok h ]

  unfoldable pub fixed_hex : ℕ → Option Json → Result RpcError (List Byte)
  fixed_hex size value = elim (as_str value) [
    | none ↦ err invalid_signature
    | some text ↦ elim (strip_prefix hex_prefix text) [
      | none ↦ err invalid_signature
      | some digits ↦ elim (c.hex_decode digits) [
        | none ↦ err invalid_signature
        | some bytes ↦ if length bytes == size then ok bytes else err invalid_signature
      ]
    ]
  ]

  unfoldable pub hex_data : Option Json → Result RpcError (List Byte)
  hex_data none = ok []
  hex_data (some value) = elim (as_str (some value)) [
    | none ↦ err invalid_params
    | some text ↦ elim (strip_prefix hex_prefix text) [
      | none ↦ err invalid_params
      | some digits ↦ elim (c.hex_decode digits) [
        | none ↦ err invalid_params
        | some bytes ↦ ok bytes
      ]
    ]
  ]

  abbrev pub parse_sender : Option Text → Result RpcError Address
  parse_sender none = err invalid_address
  parse_sender (some text) = parse_address text

  abbrev pub parse_recipient : Option Text → Result RpcError (Option Address)
  parse_recipient none = ok none
  parse_recipient (some text) = elim (parse_address text) [ err e ↦ err e | ok a ↦ ok (some a) ]

  -- `transaction_from_params`; it keeps no state, which is the unit.
  unfoldable pub transaction_from_params : Request → ℕ → Exec ⊤ RpcError Transaction
  transaction_from_params params configured = do
    from ← lift (parse_sender (as_str params.from))
    to ← lift (parse_recipient (as_str params.to))
    chain_id ← lift (hex_quantity params.chain_id configured)
    fail_if (not (chain_id == configured)) invalid_chain_id
    gas_limit ← lift (hex_quantity (or_else params.gas params.gas_limit) default_tx_gas_limit)
    recipient ← ok_or to (unsupported_transaction_type contract_creation)
    nonce ← lift (hex_quantity params.nonce 0)
    value ← lift (hex_amount params.value 0)
    gas_price ← lift (hex_amount params.gas_price 1)
    payload ← lift (hex_data (or_else params.payload params.input))
    pure (record {
      tx_type = transfer;
      nonce = nonce;
      from = from;
      to = some recipient;
      value = value;
      gas_price = gas_price;
      gas_limit = gas_limit;
      payload = payload;
      chain_id = chain_id;
      signature = empty_signature;
    })

-- `Address::from_public_key`: the low 20 bytes of the key's hash.
unfoldable pub from_public_key : Digest → List Byte → Address
from_public_key d key = d.blake3 key % 2 ^ 160

-- `iter().position(..)`, from an index on.
unfoldable pub position : Digest → Hash → ℕ → List Transaction → Option ℕ
position d h i [] = none
position d h i (tx ∷ txs) =
    let later = position d h (i + 1) txs in if tx_hash d tx == h then some i else later

module _ (d : Digest) (c : Crypto) where
  unfoldable pub verify_transaction_signature :
      Transaction → List Byte → List Byte → Result RpcError ⊤
  verify_transaction_signature tx key signature =
      if not (c.is_key key)
      then err invalid_signature
      else if not (from_public_key d key == tx.from)
      then err invalid_signature
      else if c.verify key (signing_payload d tx) signature
      then ok tt
      else err invalid_signature

  -- The part of `eth_sendTransaction` before the submission.
  unfoldable pub authenticate : Request → ℕ → Exec ⊤ RpcError Transaction
  authenticate params chain_id = do
    unsigned ← transaction_from_params c params chain_id
    key ← lift (fixed_hex c 32 params.public_key)
    signature ← lift (fixed_hex c 64 params.signature)
    lift (verify_transaction_signature unsigned key signature)
    pure (record unsigned { signature = from_ed25519 signature })

module _ (f : FileFormat) (c : Crypto) where
  -- `eth_sendTransaction`
  unfoldable pub send_transaction : WriteIo → ℕ → Request → Action Hash
  send_transaction sys now params = do
    chain_id ← gets (λ n. n.chain_id)
    tx ← lift (authenticate f.codec.digest c params chain_id tt).0
    submit_transaction f sys now tx

  -- `eth_getTransactionByHash`, before it is rendered: the block and the place in it.
  unfoldable pub get_transaction_by_hash : Text → RpcState → Result RpcError (Option (Block × ℕ))
  get_transaction_by_hash text n = elim (parse_tx_hash c text) [
    | err e ↦ err e
    | ok h ↦ elim (receipt h n) [
      | none ↦ ok none
      | some r ↦ elim (block_at_height r.block_height n) [
        | none ↦ ok none
        | some b ↦ elim (position f.codec.digest h 0 b.transactions) [
          | none ↦ ok none
          | some i ↦ ok (some (b, i))
        ]
      ]
    ]
  ]

module _ (c : Crypto) where
  unfoldable pub get_chain_id : RpcState → Text
  get_chain_id n = format_quantity n.chain_id

  unfoldable pub get_block_number : RpcState → Text
  get_block_number n = format_quantity n.block_height

  unfoldable pub get_gas_price : RpcState → Text
  get_gas_price n = format_quantity (min_gas_price n)

  unfoldable pub get_balance : Text → RpcState → Result RpcError Text
  get_balance text n = elim (parse_address c text) [
    | err e ↦ err e
    | ok a ↦ ok (format_quantity (balance_of a n))
  ]

  unfoldable pub get_transaction_count : Text → RpcState → Result RpcError Text
  get_transaction_count text n = elim (parse_address c text) [
    | err e ↦ err e
    | ok a ↦ ok (format_quantity (nonce_of a n))
  ]

  unfoldable pub get_transaction_receipt : Text → RpcState → Result RpcError (Option Receipt)
  get_transaction_receipt text n = elim (parse_tx_hash c text) [
    | err e ↦ err e
    | ok h ↦ ok (receipt h n)
  ]

  unfoldable pub get_block_by_number : Text → RpcState → Result RpcError (Option Block)
  get_block_by_number tag n = elim (resolve_block_height tag (block_count n)) [
    | err e ↦ err e
    | ok none ↦ ok none
    | ok (some height) ↦ ok (block_at_height height n)
  ]
