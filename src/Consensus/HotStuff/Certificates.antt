-- ===== src/Consensus/HotStuff/Certificates.antt =====
-- crates/subhost-consensus/src/lib.rs: which quorum certificates are valid.
use sub_host_demo.Base.{
  ◌+◌, ◌≤◌, ◌≡◌, ◌↔◌, ◌⊎◌, refl, true, false, some, List, [], ◌∷◌, arith, nat_eq, Result, ok, err,
  ⊤, length, is_empty, elem, Option-cases, Bool-cases, inl, inr,
}
use sub_host_demo.Core.{Address, Byte}
use sub_host_demo.Consensus.{ConsensusError, bls_signature_bytes}
use sub_host_demo.Consensus.Registry.{Bls, ValidatorRegistry, public_key}
use sub_host_demo.Consensus.HotStuff.{
  HotStuff, QuorumCertificate, signing_payload, check_signature, check_signers, validate_qc,
}

module _ (b : Bls) (r : ValidatorRegistry b) (payload : List Byte) where
  -- A signature by a registered validator over the payload.
  pub record IsSigned (a : Address) (bytes : List Byte) : Type 0 where
    pub key : b.PublicKey
    pub signature : b.Signature
    pub sized : length bytes ≡ bls_signature_bytes
    pub registered : public_key b a r ≡ some key
    pub decoded : b.deserialize bytes ≡ some signature
    pub verified : b.verify key payload signature ≡ true

  check_sound :
      (a : Address) (bytes : List Byte) {u : ⊤}
      → check_signature b r payload a bytes ≡ ok u
      → IsSigned a bytes
  unfolding check_signature
  check_sound a bytes h = elim (Option-cases (public_key b a r)) [
    | inl unknown ↦ absurd (ground arith)
    | inr (k, e) ↦ elim (Option-cases (b.deserialize bytes)) [
      | inl bad ↦ absurd (ground arith)
      | inr (s, e') ↦ record {
        key = k;
        signature = s;
        sized = ground arith;
        registered = e;
        decoded = e';
        verified = ground arith;
      }
    ]
  ]

  check_complete :
      (a : Address) (bytes : List Byte)
      → IsSigned a bytes
      → check_signature b r payload a bytes ≡ ok tt
  unfolding check_signature
  check_complete a bytes s = ground (arith, s.sized, s.registered, s.decoded, s.verified)

  -- Every entry is signed, and no signer stands among the earlier ones or twice.
  abbrev pub AreSigned : List Address → List (Address × List Byte) → Type 0
  AreSigned seen [] = ⊤
  AreSigned seen ((a, bytes) ∷ rest) =
      (elem a seen ≡ false) × IsSigned a bytes × AreSigned (a ∷ seen) rest

  check_cases :
      (a : Address) (bytes : List Byte)
      → (check_signature b r payload a bytes ≡ ok tt)
        ⊎ ((e : ConsensusError) × (check_signature b r payload a bytes ≡ err e))
  check_cases a bytes = by_result (check_signature b r payload a bytes)
    where
      by_result : (x : Result ConsensusError ⊤) → (x ≡ ok tt) ⊎ ((e : ConsensusError) × (x ≡ err e))
      by_result (ok u) = inl refl
      by_result (err e) = inr (e, refl)

  signers_sound :
      (seen : List Address) (sigs : List (Address × List Byte)) (all : List Address)
      → check_signers b r payload seen sigs ≡ ok all
      → AreSigned seen sigs × (length all ≡ length seen + length sigs)
  unfolding check_signers
  signers_sound seen [] all h = (tt, ground arith)
  signers_sound seen ((a, bytes) ∷ rest) all h = elim (check_cases a bytes) [
    | inr (e, bad) ↦ absurd (ground arith)
    | inl good ↦ elim (Bool-cases (elem a seen)) [
      | inl again ↦ absurd (ground arith)
      | inr fresh ↦
          let (later, count) = signers_sound (a ∷ seen) rest all (ground arith) in
          ((fresh, check_sound a bytes good, later), omega arith)
    ]
  ]

  signers_complete :
      (seen : List Address) (sigs : List (Address × List Byte))
      → AreSigned seen sigs
      → (all : List Address) × (check_signers b r payload seen sigs ≡ ok all)
        × (length all ≡ length seen + length sigs)
  unfolding check_signers
  signers_complete seen [] h = (seen, refl, omega arith)
  signers_complete seen ((a, bytes) ∷ rest) h =
      let (all, e, count) = signers_complete (a ∷ seen) rest h.2 in
      (all, ground (arith, check_complete a bytes h.1, h.0), omega arith)

module _ (b : Bls) (s : HotStuff b) (qc : QuorumCertificate) where
  -- A certificate is valid exactly when some validator is registered, each of its entries is a
  -- signature of the certificate's own payload by a registered validator, no validator signs
  -- twice, and the signers are a quorum.
  pub validate_qc_exact : (validate_qc b s qc ≡ ok tt) ↔ (
      (is_empty s.registry ≡ false)
      × AreSigned b s.registry (signing_payload qc) [] qc.signatures
      × (s.config.quorum_threshold ≤ length qc.signatures))
  validate_qc_exact = (forwards, backwards)
    where
      unpack :
          (x : Result ConsensusError (List Address))
          → check_signers b s.registry (signing_payload qc) [] qc.signatures ≡ x
          → validate_qc b s qc ≡ ok tt
          → (is_empty s.registry ≡ false)
            × AreSigned b s.registry (signing_payload qc) [] qc.signatures
            × (s.config.quorum_threshold ≤ length qc.signatures)
      unpack (err e) h v = absurd (unfold validate_qc in ground arith)
      unpack (ok all) h v =
          let (signed, count) =
            signers_sound b s.registry (signing_payload qc) [] qc.signatures all h in
          (unfold validate_qc in ground arith, signed, unfold validate_qc in ground arith)

      forwards :
          validate_qc b s qc ≡ ok tt
          → (is_empty s.registry ≡ false)
            × AreSigned b s.registry (signing_payload qc) [] qc.signatures
            × (s.config.quorum_threshold ≤ length qc.signatures)
      forwards v = unpack (check_signers b s.registry (signing_payload qc) [] qc.signatures) refl v

      backwards :
          (is_empty s.registry ≡ false)
            × AreSigned b s.registry (signing_payload qc) [] qc.signatures
            × (s.config.quorum_threshold ≤ length qc.signatures)
          → validate_qc b s qc ≡ ok tt
      backwards (some_key, signed, enough) =
          let (all, e, count) =
            signers_complete b s.registry (signing_payload qc) [] qc.signatures signed in
          unfold validate_qc in ground arith
