-- ===== src/Faucet.antt =====
-- crates/subhost-faucet/src/lib.rs: the faucet. Text is the list of its characters, and time is counted in
-- nanoseconds. The node's answers to the faucet's requests, ed25519 and `hex` are parameters.
pub mod Cooldown
pub mod Request
pub mod Drip
pub mod Bounded
use sub_host_demo.Base.{
  ℕ, zero, suc, ◌+◌, ◌-◌, ◌*◌, ◌/◌, max, Bool, true, false, not, ◌&&◌, ◌||◌, Option, none, some,
  List, [], ◌∷◌, ◌++◌, map, filter, ◌==◌, nat_eq, list_eq, ltb, leb, length, is_empty,
  if◌then◌else◌, Exec, Result, ok, err, fail_if, fail, ok_or, gets, modify, pure, lift, ◌>>=◌, ◌>>◌,
  ⊤,
}
use sub_host_demo.Base.Words.{u64_max}
use sub_host_demo.Core.{Address, Byte, Transaction, TransactionType, transfer}
use sub_host_demo.Core.Signature.{empty_signature}
use sub_host_demo.Map
use sub_host_demo.Map.{Map}
use sub_host_demo.Rpc.Wire.{
  Text, Json, string, number, other, strip_prefix, hex_prefix, from_str_radix,
}
use sub_host_demo.Rpc.Server.{Crypto, from_hex}

abbrev pub max_rpc_response_bytes : ℕ
max_rpc_response_bytes = 64 * 1024

abbrev pub transfer_gas_limit : ℕ
transfer_gas_limit = 21000

abbrev pub second : ℕ
second = 1000000000

-- `Duration::MAX`
abbrev pub max_duration : ℕ
max_duration = u64_max * second + 999999999

-- The texts of `FaucetError::Rpc` and `FaucetError::Config`, by cases.
pub data RpcFault : Type 0 where
  request_failed http_status too_large read_failed invalid_json failed no_result invalid_chain_id
        invalid_nonce no_hash :
      RpcFault

pub data ConfigFault : Type 0 where
  zero_drip zero_cooldown bad_url : ConfigFault

pub data FaucetError : Type 0 where
  invalid_address self_funding missing_password wallet bind serve : FaucetError
  cooling : ℕ → FaucetError
  rpc : RpcFault → FaucetError
  misconfigured : ConfigFault → FaucetError

pub record FaucetConfig : Type 0 where
  pub rpc_url : Text
  pub drip_amount : ℕ
  pub cooldown_secs : ℕ

-- "http://" and "https://"
abbrev pub http_prefix : Text
http_prefix = 104 ∷ 116 ∷ 116 ∷ 112 ∷ 58 ∷ 47 ∷ 47 ∷ []

abbrev pub https_prefix : Text
https_prefix = 104 ∷ 116 ∷ 116 ∷ 112 ∷ 115 ∷ 58 ∷ 47 ∷ 47 ∷ []

abbrev pub default_config : FaucetConfig
default_config = record {
  rpc_url =
      http_prefix ++ (49 ∷ 50 ∷ 55 ∷ 46 ∷ 48 ∷ 46 ∷ 48 ∷ 46 ∷ 49 ∷ 58 ∷ 56 ∷ 53 ∷ 52 ∷ 53 ∷ []);
  drip_amount = 1000000000000000000;
  cooldown_secs = 86400;
}

abbrev pub is_there : {A : Type 0} → Option A → Bool
is_there none = false
is_there (some _) = true

-- `FaucetConfig::validate`
unfoldable pub validate : FaucetConfig → Result FaucetError ⊤
validate c =
    if c.drip_amount == 0
    then err (misconfigured zero_drip)
    else if c.cooldown_secs == 0
    then err (misconfigured zero_cooldown)
    else if not (is_there (strip_prefix http_prefix c.rpc_url))
        && not (is_there (strip_prefix https_prefix c.rpc_url))
    then err (misconfigured bad_url)
    else ok tt

pub record CooldownLedger : Type 0 where
  pub entries : Map Text ℕ
  pub cooldown : ℕ

-- `CooldownLedger::new`
unfoldable pub new_ledger : ℕ → CooldownLedger
new_ledger cooldown = record { entries = []; cooldown = cooldown }

unfoldable pub to_ascii_lowercase : Text → Text
to_ascii_lowercase text = map (λ c. if leb 65 c && leb c 90 then c + 32 else c) text

abbrev pub with_entries : Map Text ℕ → CooldownLedger → CooldownLedger
with_entries m l = record l { entries = m }

-- `try_claim`; the clock is read once for the claim and once for what has elapsed.
unfoldable pub try_claim : ℕ → ℕ → Text → Exec CooldownLedger ℕ ⊤
try_claim now later address l =
    let key = to_ascii_lowercase address in
    elim (Map.get key l.entries) [
      | none ↦ (ok tt, with_entries (Map.insert key now l.entries) l)
      | some claimed ↦
          if ltb (later - claimed) l.cooldown
          then (err (l.cooldown - (later - claimed)), l)
          else (ok tt, with_entries (Map.insert key now l.entries) l)
    ]

unfoldable pub release : Text → CooldownLedger → CooldownLedger
release address l = with_entries (Map.remove (to_ascii_lowercase address) l.entries) l

-- `sweep`, with how many entries it drops; `none` is the panic of `Duration`'s product, which is
-- computed for each entry.
unfoldable pub sweep : ℕ → CooldownLedger → Option (ℕ × CooldownLedger)
sweep later l =
    if not (is_empty l.entries) && ltb max_duration (l.cooldown * 2)
    then none
    else let live = filter (λ (e : Text × ℕ). ltb (later - e.1) (l.cooldown * 2)) l.entries in
      some (length l.entries - length live, with_entries live l)

unfoldable pub len : CooldownLedger → ℕ
len l = length l.entries

-- `char::is_whitespace`
unfoldable pub is_whitespace : ℕ → Bool
is_whitespace c =
    (leb 9 c && leb c 13)
    || (c == 32)
    || (c == 133)
    || (c == 160)
    || (c == 5760)
    || (leb 8192 c && leb c 8202)
    || (c == 8232)
    || (c == 8233)
    || (c == 8239)
    || (c == 8287)
    || (c == 12288)

unfoldable pub trim_start : Text → Text
trim_start [] = []
trim_start (c ∷ cs) = let rest = trim_start cs in if is_whitespace c then rest else c ∷ cs

abbrev pub cons_unless_blank : ℕ → Text → Text
cons_unless_blank c [] = if is_whitespace c then [] else c ∷ []
cons_unless_blank c (d ∷ ds) = c ∷ d ∷ ds

unfoldable pub trim_end : Text → Text
trim_end [] = []
trim_end (c ∷ cs) = cons_unless_blank c (trim_end cs)

-- `str::trim`
unfoldable pub trim : Text → Text
trim text = trim_end (trim_start text)

-- `str::len`: the bytes of the characters in UTF-8.
unfoldable pub utf8_length : Text → ℕ
utf8_length [] = 0
utf8_length (c ∷ cs) =
    (if ltb c 128 then 1 else if ltb c 2048 then 2 else if ltb c 65536 then 3 else 4)
    + utf8_length cs

unfoldable pub parse_quantity : Json → Option ℕ
parse_quantity (string text) = elim (strip_prefix hex_prefix text) [
  | none ↦ none
  | some digits ↦ from_str_radix u64_max digits
]
parse_quantity (number n) = n
parse_quantity other = none

-- `read_bounded`, on the chunks of a response; a missing chunk is a failed read.
unfoldable pub read_chunks :
    ℕ → List Byte → List (Option (List Byte)) → Result FaucetError (List Byte)
read_chunks limit body [] = ok body
read_chunks limit body (none ∷ chunks) = err (rpc read_failed)
read_chunks limit body (some chunk ∷ chunks) =
    let rest = read_chunks limit (body ++ chunk) chunks in
    if ltb limit (length body + length chunk) then err (rpc too_large) else rest

abbrev pub exceeds : ℕ → Option ℕ → Bool
exceeds limit none = false
exceeds limit (some n) = ltb limit n

unfoldable pub read_bounded :
    ℕ → Option ℕ → List (Option (List Byte)) → Result FaucetError (List Byte)
read_bounded limit content_length chunks =
    if exceeds limit content_length then err (rpc too_large) else read_chunks limit [] chunks

-- What `reqwest` hands over for a request that went through.
pub record Response : Type 0 where
  pub is_success : Bool
  pub content_length : Option ℕ
  pub chunks : List (Option (List Byte))

-- The fields of a JSON-RPC answer that the faucet looks at.
pub record Envelope : Type 0 where
  pub has_error : Bool
  pub answer : Option Json

-- `rpc_call`, with `serde_json` as a parameter.
unfoldable pub rpc_call : (List Byte → Option Envelope) → Option Response → Result FaucetError Json
rpc_call parse none = err (rpc request_failed)
rpc_call parse (some response) =
    if not response.is_success
    then err (rpc http_status)
    else elim (read_bounded max_rpc_response_bytes response.content_length response.chunks) [
      | err e ↦ err e
      | ok body ↦ elim (parse body) [
        | none ↦ err (rpc invalid_json)
        | some envelope ↦
            if envelope.has_error
            then err (rpc failed)
            else elim envelope.answer [ none ↦ err (rpc no_result) | some value ↦ ok value ]
      ]
    ]
