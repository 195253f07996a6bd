-- ===== src/Rpc/Wire.antt =====
-- crates/subhost-rpc/src/lib.rs and crates/subhost-core/src/lib.rs: what the RPC surface reads from a request and writes
-- into an answer. Text is the list of its bytes; `hex::decode` and ed25519 are parameters.
pub mod Quantity
use sub_host_demo.Base.{
  ℕ, zero, suc, ◌+◌, ◌-◌, ◌*◌, ◌/◌, ◌%◌, ◌^◌, Bool, true, false, not, ◌&&◌, ◌||◌, Option, none,
  some, List, [], ◌∷◌, ◌++◌, ◌==◌, nat_eq, list_eq, ltb, leb, length, is_empty, if◌then◌else◌,
  Result, ok, err, ⊤,
}
use sub_host_demo.Base.Words.{u64_max, u128_max, checked_add, checked_mul}
use sub_host_demo.Core.{
  Address, Byte, Hash, Block, Receipt, Transaction, TransactionType, TransactionSignature, transfer,
  contract_creation, tx_hash,
}
use sub_host_demo.Core.Signature.{empty_signature}
use sub_host_demo.Rpc.{
  RpcState, RpcError, invalid_address, invalid_tx_hash, invalid_params, invalid_chain_id,
  invalid_signature, internal, unsupported_transaction_type, transaction_rejected, persistence,
  block_at_height, receipt, block_count,
}

abbrev pub Text : Type 0
Text = List Byte

-- `serde_json::Value`, by the cases that the code tells apart; a number carries its `as_u64`.
pub data Json : Type 0 where
  string : Text → Json
  number : Option ℕ → Json
  other : Json

abbrev pub default_tx_gas_limit : ℕ
default_tx_gas_limit = 21000

unfoldable pub strip_prefix : Text → Text → Option Text
strip_prefix [] text = some text
strip_prefix (c ∷ cs) [] = none
strip_prefix (c ∷ cs) (d ∷ ds) = let rest = strip_prefix cs ds in if c == d then rest else none

abbrev pub hex_prefix : Text
hex_prefix = b'0' ∷ b'x' ∷ []

-- The value of a hexadecimal digit, of either case.
unfoldable pub digit_value : Byte → Option ℕ
digit_value c =
    if leb 48 c && leb c 57
    then some (c - 48)
    else if leb 97 c && leb c 102
    then some (c - 87)
    else if leb 65 c && leb c 70
    then some (c - 55)
    else none

unfoldable pub is_ascii_hexdigit : Byte → Bool
is_ascii_hexdigit c = (leb 48 c && leb c 57) || (leb 97 c && leb c 102) || (leb 65 c && leb c 70)

abbrev pub all_hexdigits : Text → Bool
all_hexdigits [] = true
all_hexdigits (c ∷ cs) = is_ascii_hexdigit c && all_hexdigits cs

-- The loop of `from_str_radix` with radix 16, on a word of the given largest value.
unfoldable pub read_digits : ℕ → ℕ → Text → Option ℕ
read_digits max_value n [] = some n
read_digits max_value n (c ∷ cs) = elim (digit_value c) [
  | none ↦ none
  | some d ↦ elim (checked_mul max_value n 16) [
    | none ↦ none
    | some m ↦ elim (checked_add max_value m d) [
      | none ↦ none
      | some next ↦ read_digits max_value next cs
    ]
  ]
]

-- `from_str_radix(text, 16)` of an unsigned word: it takes a leading `+`, unless that is all.
unfoldable pub from_str_radix : ℕ → Text → Option ℕ
from_str_radix max_value [] = none
from_str_radix max_value (c ∷ []) = if c == b'+' then none else read_digits max_value 0 (c ∷ [])
from_str_radix max_value (c ∷ d ∷ cs) =
    if c == b'+' then read_digits max_value 0 (d ∷ cs) else read_digits max_value 0 (c ∷ d ∷ cs)

abbrev pub starts_with_zero : Text → Bool
starts_with_zero [] = false
starts_with_zero (c ∷ cs) = c == b'0'

unfoldable pub hex_digits : Json → Result RpcError Text
hex_digits (string text) = elim (strip_prefix hex_prefix text) [
  | none ↦ err invalid_params
  | some digits ↦
      if is_empty digits
        || (ltb 1 (length digits) && starts_with_zero digits)
        || not (all_hexdigits digits)
      then err invalid_params
      else ok digits
]
hex_digits (number _) = err invalid_params
hex_digits other = err invalid_params

-- `hex_quantity` and `hex_amount`, by the largest value of their words.
unfoldable pub hex_word : ℕ → Option Json → ℕ → Result RpcError ℕ
hex_word max_value none default = ok default
hex_word max_value (some value) default = elim (hex_digits value) [
  | err e ↦ err e
  | ok digits ↦ elim (from_str_radix max_value digits) [ none ↦ err invalid_params | some n ↦ ok n ]
]

unfoldable pub hex_quantity : Option Json → ℕ → Result RpcError ℕ
hex_quantity = hex_word u64_max

unfoldable pub hex_amount : Option Json → ℕ → Result RpcError ℕ
hex_amount = hex_word u128_max

-- `format!("0x{:x}", n)`
abbrev pub hex_digit : ℕ → Byte
hex_digit d = if ltb d 10 then 48 + d else 87 + d

-- The digits of a number before those of `tail`; the fuel bounds how many there are.
unfoldable pub write_digits : ℕ → ℕ → Text → Text
write_digits zero n tail = tail
write_digits (suc fuel) n tail =
    let longer = write_digits fuel (n / 16) (hex_digit (n % 16) ∷ tail) in
    if ltb n 16 then hex_digit n ∷ tail else longer

-- A u128 has at most 32 digits.
unfoldable pub format_quantity : ℕ → Text
format_quantity n = hex_prefix ++ write_digits 32 n []

abbrev pub latest : Text
latest = b'l' ∷ b'a' ∷ b't' ∷ b'e' ∷ b's' ∷ b't' ∷ []

abbrev pub pending : Text
pending = b'p' ∷ b'e' ∷ b'n' ∷ b'd' ∷ b'i' ∷ b'n' ∷ b'g' ∷ []

abbrev pub safe : Text
safe = b's' ∷ b'a' ∷ b'f' ∷ b'e' ∷ []

abbrev pub finalized : Text
finalized = b'f' ∷ b'i' ∷ b'n' ∷ b'a' ∷ b'l' ∷ b'i' ∷ b'z' ∷ b'e' ∷ b'd' ∷ []

abbrev pub earliest : Text
earliest = b'e' ∷ b'a' ∷ b'r' ∷ b'l' ∷ b'i' ∷ b'e' ∷ b's' ∷ b't' ∷ []

unfoldable pub resolve_block_height : Text → ℕ → Result RpcError (Option ℕ)
resolve_block_height tag count =
    if count == 0
    then ok none
    else if (tag == latest) || (tag == pending) || (tag == safe) || (tag == finalized)
    then ok (some count)
    else if tag == earliest
    then ok (some 1)
    else elim (strip_prefix hex_prefix tag) [
      | none ↦ err invalid_params
      | some digits ↦ elim (from_str_radix u64_max digits) [
        | none ↦ err invalid_params
        | some height ↦ ok (if leb 1 height && leb height count then some height else none)
      ]
    ]
