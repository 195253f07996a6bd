-- ===== src/Faucet/Drip.antt =====
-- crates/subhost-faucet/src/lib.rs: how a request for funds ends.
use sub_host_demo.Base.{
  ℕ, ◌-◌, ◌/◌, ◌<◌, ◌≡◌, ◌≢◌, ◌∙◌, ap, inl, inr, refl, max, none, some, arith, ◌==◌, nat_eq,
  list_eq, Result, ok, err, Bool-cases, Result-cases,
}
use sub_host_demo.Core.{Address, Digest, Transaction}
use sub_host_demo.Rpc.Wire.{Text}
use sub_host_demo.Rpc.Server.{Crypto}
use sub_host_demo.Map
use sub_host_demo.Faucet.{
  invalid_chain_id, invalid_nonce, FaucetError, self_funding, cooling, CooldownLedger, with_entries,
  FaucetConfig, second, try_claim, release, to_ascii_lowercase,
}
use sub_host_demo.Faucet.Cooldown.{
  IsFree, claimed_at, taken, refused, claim_cases, claimed_at-release, same_key,
}
use sub_host_demo.Faucet.Request.{
  FaucetSigner, Upstream, Service, with_ledger, put_sent, elapse, query, ask, read_hash,
  parse_address, release_if_failed, unsigned_transfer, sign, hand_in, submit_transfer, claim_slot,
  transfer_or_release, drip,
}

module _ (d : Digest) (c : Crypto) (config : FaucetConfig) (signer : FaucetSigner)
    (node : Upstream) where
  -- The transfer of a request, by the numbers that the node gave for it.
  abbrev pub transfer_to : Address → ℕ → ℕ → Transaction
  transfer_to recipient chain_id nonce =
      sign d c config signer node
        (unsigned_transfer d c config signer node recipient nonce chain_id)

  -- How the work of a request ends, from the service at its start: without the chain, without a nonce,
  -- or with the node's word on one transfer.
  pub data Submitted (recipient : Address) (s : Service)
      : Result FaucetError Text → Service → Type 0 where
    no_chain :
        (e : FaucetError)
        → query invalid_chain_id node.chain_id.answer ≡ err e
        → Submitted recipient s (err e) (elapse node.chain_id.meanwhile (elapse node.before_lock s))
    no_nonce :
        (chain_id : ℕ) (e : FaucetError)
        → query invalid_chain_id node.chain_id.answer ≡ ok chain_id
        → query invalid_nonce node.nonce.answer ≡ err e
        → Submitted recipient s (err e) (
            elapse node.nonce.meanwhile
              (elapse node.chain_id.meanwhile (elapse node.before_lock s)))
    answered :
        (chain_id nonce : ℕ)
        → query invalid_chain_id node.chain_id.answer ≡ ok chain_id
        → query invalid_nonce node.nonce.answer ≡ ok nonce
        → Submitted recipient s
            (read_hash (node.send (transfer_to recipient chain_id nonce)).answer)
            (elapse (node.send (transfer_to recipient chain_id nonce)).meanwhile (
              put_sent (transfer_to recipient chain_id nonce) (
                elapse node.nonce.meanwhile
                  (elapse node.chain_id.meanwhile (elapse node.before_lock s)))))

  submit_transfer-Submitted :
      (recipient : Address) (s : Service)
      → Submitted recipient s
          (submit_transfer d c config signer node recipient s).0
          (submit_transfer d c config signer node recipient s).1
  unfolding submit_transfer ask hand_in
  submit_transfer-Submitted recipient s =
      elim (Result-cases (query invalid_chain_id node.chain_id.answer)) [
        | inr (e, x) ↦ rw x (no_chain e x)
        | inl (chain_id, x) ↦ rw x (elim (Result-cases (query invalid_nonce node.nonce.answer)) [
          | inr (e, y) ↦ rw y (no_nonce chain_id e x y)
          | inl (nonce, y) ↦ rw y (answered chain_id nonce x y)
        ])
      ]

  -- How a request ends. Only the last two hand anything to the node, and only after a claim.
  pub data Dripped (now later : ℕ) (address : Text) (s : Service)
      : Result FaucetError Text → Service → Type 0 where
    unreadable :
        (e : FaucetError) → parse_address c address ≡ err e → Dripped now later address s (err e) s
    own :
        parse_address c address ≡ ok signer.address
        → Dripped now later address s (err self_funding) s
    too_soon :
        (recipient : Address) (claimed : ℕ)
        → parse_address c address ≡ ok recipient
        → claimed_at address s.ledger ≡ some claimed
        → later - claimed < s.ledger.cooldown
        → Dripped now later address s
            (err (cooling (max ((s.ledger.cooldown - (later - claimed)) / second) 1)))
            s
    paid :
        (recipient : Address) (h : Text) (l : CooldownLedger) (s' : Service)
        → parse_address c address ≡ ok recipient
        → recipient ≢ signer.address
        → IsFree later s.ledger.cooldown (claimed_at address s.ledger)
        → l ≡ with_entries (Map.insert (to_ascii_lowercase address) now s.ledger.entries) s.ledger
        → Submitted recipient (with_ledger l s) (ok h) s'
        → Dripped now later address s (ok h) s'
    failed :
        (recipient : Address) (e : FaucetError) (l : CooldownLedger) (s' : Service)
        → parse_address c address ≡ ok recipient
        → recipient ≢ signer.address
        → IsFree later s.ledger.cooldown (claimed_at address s.ledger)
        → l ≡ with_entries (Map.insert (to_ascii_lowercase address) now s.ledger.entries) s.ledger
        → Submitted recipient (with_ledger l s) (err e) s'
        → claimed_at address (release address s'.ledger) ≡ none
        → Dripped now later address s (err e) (with_ledger (release address s'.ledger) s')

  module _ (now later : ℕ) (address : Text) (s : Service) where
    abbrev claimed : CooldownLedger
    claimed = with_entries (Map.insert (to_ascii_lowercase address) now s.ledger.entries) s.ledger

    released_lem : (l : CooldownLedger) → claimed_at address (release address l) ≡ none
    released_lem l =
        claimed_at-release address address l ∙ rw (same_key (to_ascii_lowercase address)) refl

    worked :
        (recipient : Address)
        → parse_address c address ≡ ok recipient
        → recipient ≢ signer.address
        → IsFree later s.ledger.cooldown (claimed_at address s.ledger)
        → let q =
            transfer_or_release d c config signer node recipient address (with_ledger claimed s) in
          Dripped now later address s q.0 q.1
    unfolding transfer_or_release
    worked recipient p foreign free =
        by_cases (submit_transfer d c config signer node recipient (with_ledger claimed s))
          (submit_transfer-Submitted recipient (with_ledger claimed s))
      where
        by_cases :
            (q : Result FaucetError Text × Service)
            → Submitted recipient (with_ledger claimed s) q.0 q.1
            → Dripped now later address s
                (release_if_failed address q).0
                (release_if_failed address q).1
        by_cases (ok h, s') k = paid recipient h claimed s' p foreign free refl k
        by_cases (err e, s') k =
            failed recipient e claimed s' p foreign free refl k (released_lem s'.ledger)

    passing :
        (recipient : Address)
        → parse_address c address ≡ ok recipient
        → recipient ≢ signer.address
        → try_claim now later address s.ledger ≡ (ok tt, claimed)
        → drip d c config signer node now later address s
          ≡ transfer_or_release d c config signer node recipient address (with_ledger claimed s)
    unfolding drip claim_slot
    passing recipient p foreign e = ground (arith, p, e)

    refusing :
        (recipient : Address) (left : ℕ)
        → parse_address c address ≡ ok recipient
        → recipient ≢ signer.address
        → try_claim now later address s.ledger ≡ (err left, s.ledger)
        → drip d c config signer node now later address s
          ≡ (err (cooling (max (left / second) 1)), s)
    unfolding drip claim_slot
    refusing recipient left p foreign e = ground (arith, p, e)

    refusing_own :
        parse_address c address ≡ ok signer.address
        → drip d c config signer node now later address s ≡ (err self_funding, s)
    unfolding drip
    refusing_own p = ground (arith, p)

    refusing_text :
        (e : FaucetError)
        → parse_address c address ≡ err e
        → drip d c config signer node now later address s ≡ (err e, s)
    unfolding drip
    refusing_text e p = ground (arith, p)

    -- Whatever other requests do to the ledger while this one waits for the lock and for the node: an
    -- address that is unreadable, the faucet's own or still cooling down is refused with nothing
    -- handed to the node and the ledger as it was. For any other address the slot is claimed, and
    -- then the node is asked for the chain and a nonce, and is handed at most one transfer, the
    -- signed one to that address. If the node answers it with a hash, the request returns that
    -- hash and leaves the claim; otherwise it returns the error and the address is free again.
    pub drip-Dripped :
        Dripped now later address s
          (drip d c config signer node now later address s).0
          (drip d c config signer node now later address s).1
    drip-Dripped = elim (Result-cases (parse_address c address)) [
      | inr (e, p) ↦ rw (refusing_text e p) (unreadable e p)
      | inl (recipient, p) ↦ elim (Bool-cases (recipient == signer.address)) [
        | inl same ↦
            let p' = p ∙ ap ok ((nat_eq.beq_iff recipient signer.address).0 same) in
            rw (refusing_own p') (own p')
        | inr distinct ↦
            let foreign : recipient ≢ signer.address = λ e. ground (arith, e) in
            elim (claim_cases now later address s.ledger) [
              | refused at x y e ↦
                  rw (refusing recipient (s.ledger.cooldown - (later - at)) p foreign e)
                    (too_soon recipient at p x y)
              | taken free e ↦ rw (passing recipient p foreign e) (worked recipient p foreign free)
            ]
      ]
    ]
