-- ===== src/Rpc/Server/Signed.antt =====
-- crates/subhost-rpc/src/lib.rs: only its owner's signature spends from an account.
use mathlib.Core.Path.{subst}
use sub_host_demo.Base.{
  ℕ, ◌<◌, ◌≡◌, ◌⊎◌, ◌∙◌, ap, inl, inr, refl, true, some, List, arith, nat_eq, Result, ok, err,
  Result-cases,
}
use sub_host_demo.Core.{Byte, Digest, Receipt, Transaction, transfer, tx_hash}
use sub_host_demo.Core.Signature.{from_ed25519, signing_payload}
use sub_host_demo.Mempool.{admit, get_tx}
use sub_host_demo.Storage.{FileFormat, WriteIo}
use sub_host_demo.Rpc.{RpcState, RpcError, submit_transaction}
use sub_host_demo.Rpc.Ledger.{IsSound}
use sub_host_demo.Rpc.Restart.{SameChain}
use sub_host_demo.Rpc.Effect.{IsIncluded, submit_transaction_failed, submit_transaction_included}
use sub_host_demo.Rpc.Server.{
  Crypto, Request, transaction_from_params, fixed_hex, verify_transaction_signature, authenticate,
  send_transaction, from_public_key,
}

-- A transfer for the chain, whose sender is the owner of a key that has signed it.
pub record IsSigned (d : Digest) (c : Crypto) (chain_id : ℕ) (tx : Transaction) : Type 0 where
  pub key : List Byte
  pub signature : List Byte
  pub valid : c.is_key key ≡ true
  pub owner : from_public_key d key ≡ tx.from
  pub signed : c.verify key (signing_payload d tx) signature ≡ true
  pub carried : tx.signature ≡ from_ed25519 signature
  pub chain : tx.chain_id ≡ chain_id
  pub kind : tx.tx_type ≡ transfer

module _ (d : Digest) (c : Crypto) where
  from_params_lem :
      (params : Request) (chain_id : ℕ) (tx : Transaction)
      → (transaction_from_params c params chain_id tt).0 ≡ ok tx
      → (tx.chain_id ≡ chain_id) × (tx.tx_type ≡ transfer)
  unfolding transaction_from_params
  from_params_lem params chain_id tx h = ground arith

  verify_lem :
      (tx : Transaction) (key signature : List Byte)
      → verify_transaction_signature d c tx key signature ≡ ok tt
      → (c.is_key key ≡ true)
        × (from_public_key d key ≡ tx.from)
        × (c.verify key (signing_payload d tx) signature ≡ true)
  unfolding verify_transaction_signature
  verify_lem tx key signature h = ground arith

  signed_payload :
      (tx : Transaction) (signature : List Byte)
      → signing_payload d (record tx { signature = from_ed25519 signature }) ≡ signing_payload d tx
  unfolding signing_payload
  signed_payload tx signature = refl

  authenticate_lem :
      (params : Request) (chain_id : ℕ) (tx : Transaction)
      → (authenticate d c params chain_id tt).0 ≡ ok tx
      → IsSigned d c chain_id tx
  unfolding authenticate
  authenticate_lem params chain_id tx h =
      elim (Result-cases (transaction_from_params c params chain_id tt).0) [
        | inr (e, x) ↦ absurd (ground arith)
        | inl (u, x) ↦ elim (Result-cases (fixed_hex c 32 params.public_key)) [
          | inr (e, y) ↦ absurd (ground arith)
          | inl (key, y) ↦ elim (Result-cases (fixed_hex c 64 params.signature)) [
            | inr (e, z) ↦ absurd (ground arith)
            | inl (signature, z) ↦
                elim (Result-cases (verify_transaction_signature d c u key signature)) [
                  | inr (e, w) ↦ absurd (ground arith)
                  | inl (o, w) ↦
                      let (chain, kind) = from_params_lem params chain_id u x in
                      let (valid, owner, signed) = verify_lem u key signature w in
                      subst (IsSigned d c chain_id) (same u signature (ground (arith, x, y, z, w)))
                        (record {
                          key = key;
                          signature = signature;
                          valid = valid;
                          owner = owner;
                          signed =
                              ap (λ m. c.verify key m signature) (signed_payload u signature)
                              ∙ signed;
                          carried = refl;
                          chain = chain;
                          kind = kind;
                        })
                ]
          ]
        ]
      ]
    where
      same :
          (u : Transaction) (signature : List Byte)
          → ◌≡◌ {A = Result RpcError Transaction}
              (ok (record u { signature = from_ed25519 signature }))
              (ok tx)
          → record u { signature = from_ed25519 signature } ≡ tx
      same u signature e = cc e

module _ (f : FileFormat) (c : Crypto) (sys : WriteIo) (now : ℕ) (params : Request)
    (n : RpcState) where
  same_chain : SameChain n n
  same_chain = record {
    chain = refl;
    height = refl;
    blocks = refl;
    accounts = λ a. refl;
    receipts = λ h. refl;
  }

  send_refused :
      (e : RpcError)
      → (authenticate f.codec.digest c params n.chain_id tt).0 ≡ err e
      → send_transaction f c sys now params n ≡ (err e, n)
  unfolding send_transaction
  send_refused e x = ground (arith, x)

  send_admitted :
      (tx : Transaction)
      → (authenticate f.codec.digest c params n.chain_id tt).0 ≡ ok tx
      → send_transaction f c sys now params n ≡ submit_transaction f sys now tx n
  unfolding send_transaction
  send_admitted tx x = ground (arith, x)

  -- What a request to `eth_sendTransaction` does to the chain of a sound node: nothing, if it is answered
  -- by an error; otherwise it includes one transfer for this chain that is signed by a key whose
  -- address is its sender, and answers with the hash of that transfer, if no other pending transaction
  -- has that hash.
  pub send_transaction-IsSigned :
      IsSound f n
      → 0 < n.mempool.config.max_pending
      → ((tx u : Transaction)
          → (authenticate f.codec.digest c params n.chain_id tt).0 ≡ ok tx
          → get_tx (tx_hash f.codec.digest tx) (admit f.codec.digest tx n.mempool).1 ≡ some u
          → u ≡ tx)
      → let (r, n') = send_transaction f c sys now params n in
        (((e : RpcError) × (r ≡ err e)) × SameChain n' n)
        ⊎ ((tx : Transaction) × (r ≡ ok (tx_hash f.codec.digest tx))
            × IsSigned f.codec.digest c n.chain_id tx
            × ((k : Receipt) × IsIncluded f.codec.digest tx k n n'))
  send_transaction-IsSigned sound roomy alone =
      elim (Result-cases (authenticate f.codec.digest c params n.chain_id tt).0) [
        | inr (e, x) ↦ inl ((e, ap (λ q. q.0) (send_refused e x)), rw (send_refused e x) same_chain)
        | inl (tx, x) ↦
            rw (send_admitted tx x) (elim (Result-cases (submit_transaction f sys now tx n).0) [
              | inr (e, y) ↦
                  inl ((e, y), submit_transaction_failed f sys now tx n e sound.pool roomy y)
              | inl (h, y) ↦
                  let (same, included) =
                    submit_transaction_included f sys now tx n h sound roomy (λ u. alone tx u x)
                      y in
                  inr (
                    tx,
                    y ∙ ap ok same,
                    authenticate_lem f.codec.digest c params n.chain_id tx x,
                    included,
                  )
            ])
      ]
