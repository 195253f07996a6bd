-- ===== src/Tests/Requests.antt =====
-- A signed request at a concrete input.
use mathlib.Core.Path.{subst}
use sub_host_demo.Base.{
  ℕ, ◌+◌, ◌*◌, ◌≡◌, ◌⊎◌, ◌∙◌, sym, refl, true, Option, none, some, List, [], ◌∷◌, ◌++◌, arith,
  nat_eq, list_eq, ok, err, Result,
}
use sub_host_demo.Core.{
  Byte, Hash, Digest, Receipt, Transaction, transfer, tx_hash, fee, total_cost,
}
use sub_host_demo.Core.Signature
use sub_host_demo.Core.Signature.{replicate, from_ed25519}
use sub_host_demo.Map
use sub_host_demo.Mempool
use sub_host_demo.Mempool.{admit, get_tx, default_config}
use sub_host_demo.Mempool.Consistent.{new-IsConsistent}
use sub_host_demo.Storage.{FileFormat}
use sub_host_demo.Rpc.{RpcError}
use sub_host_demo.Rpc.Ledger.{IsSound}
use sub_host_demo.Rpc.Restart.{SameChain}
use sub_host_demo.Rpc.Effect.{IsIncluded}
use sub_host_demo.Rpc.Wire
use sub_host_demo.Rpc.Wire.{Text, Json, string, digit_value}
use sub_host_demo.Rpc.Server
use sub_host_demo.Rpc.Server.{Crypto, Request, authenticate, send_transaction}
use sub_host_demo.Rpc.Server.Signed.{IsSigned, send_transaction-IsSigned}
use sub_host_demo.Tests.Transactions.{ledger-IsState}
use sub_host_demo.Tests.Nodes.{healthy, node, node-roomy}

-- A hash that keeps the first byte, so that the key of an address spells it.
abbrev head : List Byte → Hash
head [] = 0
head (b ∷ bs) = b

abbrev short_digest : Digest
short_digest = record {
  blake3 = head;
  encode_transaction = λ tx. tx.from ∷ [];
  encode_header = λ h. h.height ∷ [];
  encode_hashes = λ hs. hs;
}

abbrev short_format : FileFormat
short_format = record {
  codec = record {
    digest = short_digest;
    encode_state = λ sn. [];
    encode_receipt = λ h height gas status. [];
  };
  serialize_snapshot = λ x. some [];
  deserialize_snapshot = λ x. none;
  serialize_envelope = λ e. some [];
  deserialize_envelope = λ x. none;
}

abbrev join : Option ℕ → Option ℕ → Option (List Byte) → Option (List Byte)
join (some h) (some l) (some bs) = some ((h * 16 + l) ∷ bs)
join none l bs = none
join (some h) none bs = none
join (some h) (some l) none = none

abbrev decode : Text → Option (List Byte)
decode [] = some []
decode (c ∷ []) = none
decode (c ∷ d ∷ cs) = join (digit_value c) (digit_value d) (decode cs)

abbrev crypto : Crypto
crypto = record { hex_decode = decode; is_key = λ k. true; verify = λ k m s. true }

abbrev prefixed : Text → Option Json
prefixed digits = some (string (b'0' ∷ b'x' ∷ digits))

abbrev request : Request
request = record {
  from = prefixed (replicate 39 b'0' ++ b'1' ∷ []);
  to = prefixed (replicate 39 b'0' ++ b'2' ∷ []);
  chain_id = none;
  gas = prefixed (b'2' ∷ []);
  gas_limit = none;
  nonce = none;
  value = prefixed (b'a' ∷ []);
  gas_price = prefixed (b'4' ∷ []);
  payload = none;
  input = none;
  public_key = prefixed (b'0' ∷ b'1' ∷ replicate 62 b'0');
  signature = prefixed (replicate 128 b'0');
}

abbrev signed : Transaction
signed = record {
  tx_type = transfer;
  nonce = 0;
  from = 1;
  to = some 2;
  value = 10;
  gas_price = 4;
  gas_limit = 2;
  payload = [];
  chain_id = 7;
  signature = from_ed25519 (replicate 64 0);
}

authenticated : (authenticate short_digest crypto request 7 tt).0 ≡ ok signed
unfolding authenticate Server.transaction_from_params Server.as_str Server.parse_address
    Server.from_hex Wire.strip_prefix digit_value Wire.hex_quantity Wire.hex_word Server.or_else
    Wire.hex_digits Wire.is_ascii_hexdigit Wire.from_str_radix Wire.read_digits Wire.hex_amount
    Server.hex_data Server.fixed_hex Server.verify_transaction_signature Signature.empty_signature
    from_ed25519 Signature.signing_payload Server.from_public_key Server.of_bytes
authenticated = refl

held : get_tx (tx_hash short_digest signed) (admit short_digest signed node.mempool).1 ≡ some signed
unfolding admit get_tx Map.get Mempool.new Mempool.try_new Mempool.validate Mempool.has total_cost
    fee Mempool.compete Mempool.slot Mempool.enter Mempool.sender_len Mempool.make_room Mempool.len
    Mempool.occupy Map.insert tx_hash
held = refl

short-IsSound : IsSound short_format node
short-IsSound = record {
  ledger = record { linked = tt; counted = refl; apart = tt; described = tt; rooted = tt };
  accounts = ledger-IsState;
  keyed = tt;
  once = tt;
  pool = new-IsConsistent short_digest default_config;
  state_chain = refl;
  store_chain = refl;
  positive = omega arith;
  top = refl;
  spent = tt;
}

alone :
    (tx u : Transaction)
    → (authenticate short_digest crypto request 7 tt).0 ≡ ok tx
    → get_tx (tx_hash short_digest tx) (admit short_digest tx node.mempool).1 ≡ some u
    → u ≡ tx
alone tx u e =
    subst
      (λ t. get_tx (tx_hash short_digest t) (admit short_digest t node.mempool).1 ≡ some u → u ≡ t)
      (same (sym authenticated ∙ e)) (λ h. cc (held, h))
  where
    same : {a b : Transaction} → ◌≡◌ {A = Result RpcError Transaction} (ok a) (ok b) → a ≡ b
    same h = cc h

send_transaction-IsSigned_example :
    let (r, n) = send_transaction short_format crypto healthy 5 request node in
    (((e : RpcError) × (r ≡ err e)) × SameChain n node)
    ⊎ ((tx : Transaction) × (r ≡ ok (tx_hash short_digest tx))
        × IsSigned short_digest crypto 7 tx
        × ((k : Receipt) × IsIncluded short_digest tx k node n))
send_transaction-IsSigned_example =
    send_transaction-IsSigned short_format crypto healthy 5 request node short-IsSound node-roomy
      alone
