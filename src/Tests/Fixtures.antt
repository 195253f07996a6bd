-- ===== src/Tests/Fixtures.antt =====
-- Sample transactions, and concrete stand-ins for the hash, the serializers and the signature scheme.
use sub_host_demo.Base.{ℕ, ◌+◌, ◌*◌, Option, none, some, List, [], ◌∷◌, ◌==◌, nat_eq}
use sub_host_demo.Core.{Byte, Hash, Digest, Transaction, transfer}
use sub_host_demo.Core.Signature.{empty_signature}
use sub_host_demo.Consensus.Registry.{Bls}
use sub_host_demo.Ibc.{Json, IbcTransfer}

-- Injective on lists of bytes.
abbrev pub mix : List Byte → Hash
mix [] = 0
mix (b ∷ bs) = b + 1 + 1000 * mix bs

abbrev pub digest : Digest
digest = record {
  blake3 = mix;
  encode_transaction = λ tx. tx.from ∷ tx.nonce ∷ tx.gas_price ∷ [];
  encode_header = λ h. h.height ∷ [];
  encode_hashes = λ hs. hs;
}

-- From one sender, with a nonce and a price, of value 10 and gas limit 2.
abbrev pub payment : ℕ → ℕ → ℕ → Transaction
payment from nonce price = record {
  tx_type = transfer;
  nonce = nonce;
  from = from;
  to = some 2;
  value = 10;
  gas_price = price;
  gas_limit = 2;
  payload = [];
  chain_id = 7;
  signature = empty_signature;
}

-- A signature is good if it spells the signer's key.
abbrev first : List Byte → Option ℕ
first [] = none
first (b ∷ bs) = some b

abbrev pub scheme : Bls
scheme = record {
  PublicKey = ℕ;
  Signature = ℕ;
  deserialize = first;
  verify = λ key payload signature. key == signature;
  verify_possession = λ key signature. key == signature;
}

abbrev read : List Byte → Option IbcTransfer
read [] = none
read (n ∷ bs) = some (record {
  sender = 1;
  receiver = b'x' ∷ [];
  token = b'y' ∷ [];
  amount = n;
  source_channel = b'c' ∷ [];
})

abbrev pub json : Json
json = record { to_vec = λ t. some (t.amount ∷ []); from_slice = read }
