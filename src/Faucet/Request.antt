-- ===== src/Faucet/Request.antt =====
-- crates/subhost-faucet/src/lib.rs: one request for funds, with what other requests do while it waits.
use sub_host_demo.Base.{
  ℕ, ◌/◌, modify, max, not, Option, none, some, List, [], ◌∷◌, ◌++◌, ◌==◌, nat_eq, list_eq,
  if◌then◌else◌, Exec, Result, ok, err, fail_if, lift, ◌>>=◌, ◌>>◌, ⊤,
}
use sub_host_demo.Core.{Address, Byte, Digest, Transaction, transfer}
use sub_host_demo.Core.Signature.{empty_signature, from_ed25519, signing_payload}
use sub_host_demo.Rpc.Wire.{Text, Json, strip_prefix, hex_prefix}
use sub_host_demo.Rpc.Server.{Crypto, from_hex, as_str}
use sub_host_demo.Faucet.{
  RpcFault, invalid_chain_id, invalid_nonce, no_hash, FaucetError, invalid_address, self_funding,
  cooling, rpc, CooldownLedger, FaucetConfig, transfer_gas_limit, second, try_claim, release, trim,
  utf8_length, parse_quantity,
}
use sub_host_demo.Faucet.Cooldown.{Event, handle_all}

-- The faucet's key: the address that it pays from, and ed25519 with it.
pub record FaucetSigner : Type 0 where
  pub address : Address
  pub sign_payload : List Byte → List Byte

-- What `rpc_call` gives for one call, and what other requests do to the ledger before it does.
pub record Reply : Type 0 where
  pub meanwhile : List Event
  pub answer : Result FaucetError Json

-- The replies to the calls of one request, and what happens while it waits for `submit_lock`.
pub record Upstream : Type 0 where
  pub before_lock : List Event
  pub chain_id : Reply
  pub nonce : Reply
  pub send : Transaction → Reply

-- What a request reads and writes: the ledger, which all requests share, and the transfers that it has
-- handed to the node.
pub record Service : Type 0 where
  pub ledger : CooldownLedger
  pub sent : List Transaction

abbrev pub with_ledger : CooldownLedger → Service → Service
with_ledger l s = record { ledger = l; sent = s.sent }

abbrev pub put_sent : Transaction → Service → Service
put_sent tx s = record { ledger = s.ledger; sent = s.sent ++ tx ∷ [] }

-- An `await`: other requests go on.
abbrev pub elapse : List Event → Service → Service
elapse es s = with_ledger (handle_all es s.ledger) s

abbrev pub number_or : RpcFault → Option ℕ → Result FaucetError ℕ
number_or e none = err (rpc e)
number_or e (some n) = ok n

-- `chain_id` and `nonce`
unfoldable pub query : RpcFault → Result FaucetError Json → Result FaucetError ℕ
query e (err x) = err x
query e (ok value) = number_or e (parse_quantity value)

unfoldable pub ask : RpcFault → Reply → Exec Service FaucetError ℕ
ask e r = do modify (elapse r.meanwhile); lift (query e r.answer)

-- The end of `submit_transfer`
unfoldable pub read_hash : Result FaucetError Json → Result FaucetError Text
read_hash (err e) = err e
read_hash (ok value) = elim (as_str (some value)) [ none ↦ err (rpc no_hash) | some h ↦ ok h ]

unfoldable pub parse_address : Crypto → Text → Result FaucetError Address
parse_address c text =
    let trimmed = trim text in
    elim (strip_prefix hex_prefix trimmed) [
      | none ↦ err invalid_address
      | some _ ↦
          if not (utf8_length trimmed == 42)
          then err invalid_address
          else elim (from_hex c 20 trimmed) [ none ↦ err invalid_address | some a ↦ ok a ]
    ]

-- The slot of a request that has failed is free for a retry.
abbrev pub release_if_failed :
    Text → Result FaucetError Text × Service → Result FaucetError Text × Service
release_if_failed address (ok h, s) = (ok h, s)
release_if_failed address (err e, s) = (err e, with_ledger (release address s.ledger) s)

module _ (d : Digest) (c : Crypto) (config : FaucetConfig) (signer : FaucetSigner)
    (node : Upstream) where
  unfoldable pub unsigned_transfer : Address → ℕ → ℕ → Transaction
  unsigned_transfer recipient nonce chain_id = record {
    tx_type = transfer;
    nonce = nonce;
    from = signer.address;
    to = some recipient;
    value = config.drip_amount;
    gas_price = 1;
    gas_limit = transfer_gas_limit;
    payload = [];
    chain_id = chain_id;
    signature = empty_signature;
  }

  -- `FaucetSigner::sign`
  unfoldable pub sign : Transaction → Transaction
  sign tx = record tx { signature = from_ed25519 (signer.sign_payload (signing_payload d tx)) }

  -- `eth_sendTransaction`; its JSON says what the transaction says.
  unfoldable pub hand_in : Transaction → Exec Service FaucetError Text
  hand_in tx = do
    modify (put_sent tx)
    modify (elapse (node.send tx).meanwhile)
    lift (read_hash (node.send tx).answer)

  unfoldable pub submit_transfer : Address → Exec Service FaucetError Text
  submit_transfer recipient = do
    modify (elapse node.before_lock)
    chain_id ← ask invalid_chain_id node.chain_id
    nonce ← ask invalid_nonce node.nonce
    hand_in (sign (unsigned_transfer recipient nonce chain_id))

  -- `try_claim`, with its refusal in whole seconds.
  unfoldable pub claim_slot : ℕ → ℕ → Text → Exec Service FaucetError ⊤
  claim_slot now later address s =
      let (r, l) = try_claim now later address s.ledger in
      elim r [
        | ok _ ↦ (ok tt, with_ledger l s)
        | err remaining ↦ (err (cooling (max (remaining / second) 1)), with_ledger l s)
      ]

  -- The end of a request whose slot is claimed.
  unfoldable pub transfer_or_release : Address → Text → Exec Service FaucetError Text
  transfer_or_release recipient address s = release_if_failed address (submit_transfer recipient s)

  unfoldable pub drip : ℕ → ℕ → Text → Exec Service FaucetError Text
  drip now later address = do
    recipient ← lift (parse_address c address)
    fail_if (recipient == signer.address) self_funding
    claim_slot now later address
    transfer_or_release recipient address

  -- `handle_drip`
  unfoldable pub handle_drip : ℕ → ℕ → Text → Exec Service FaucetError Text
  handle_drip now later text = drip now later (trim text)
