-- ===== src/Consensus/HotStuff.antt =====
-- crates/subhost-consensus/src/lib.rs: quorum certificates and the HotStuff view state.
pub mod Payload
pub mod Certificates
pub mod Views
use Prim.Native.String.{String}
use sub_host_demo.Base.{
  ℕ, zero, suc, ◌+◌, ◌/◌, ◌%◌, max, Bool, true, false, not, ◌||◌, ◌&&◌, Option, none, some, List,
  [], ◌∷◌, ◌++◌, ◌==◌, nat_eq, ltb, leb, if◌then◌else◌, Exec, Result, ok, err, fail_if, fail, ok_or,
  gets, modify, pure, ◌>>=◌, ◌>>◌, ⊤, length, is_empty, elem,
}
use sub_host_demo.Base.Words.{u64_max, checked_add}
use sub_host_demo.Core.{Address, Byte, Hash}
use sub_host_demo.Map.{is_some}
use sub_host_demo.Consensus.{
  ConsensusConfig, ConsensusError, bls_signature_bytes, empty_validator_registry,
  malformed_signature, unknown_validator, invalid_signature, duplicate_signer, insufficient_support,
  invalid_proposal,
}
use sub_host_demo.Consensus.Registry.{Bls, ValidatorRegistry, public_key}

pub record QuorumCertificate : Type 0 where
  pub view : ℕ
  pub block_hash : Hash
  pub signatures : List (Address × List Byte)

-- `to_be_bytes`, for a width in bytes.
unfoldable pub be_bytes : ℕ → ℕ → List Byte
be_bytes zero n = []
be_bytes (suc w) n = be_bytes w (n / 256) ++ (n % 256) ∷ []

-- b"subhost-qc-v1"
abbrev pub domain : List Byte
domain =
    b's' ∷ b'u' ∷ b'b' ∷ b'h' ∷ b'o' ∷ b's' ∷ b't' ∷ b'-' ∷ b'q' ∷ b'c' ∷ b'-' ∷ b'v' ∷ b'1' ∷ []

unfoldable pub payload_for : ℕ → Hash → List Byte
payload_for view block_hash = domain ++ (be_bytes 8 view ++ be_bytes 32 block_hash)

unfoldable pub signing_payload : QuorumCertificate → List Byte
signing_payload qc = payload_for qc.view qc.block_hash

abbrev pub view_of : Option QuorumCertificate → ℕ
view_of none = 0
view_of (some qc) = qc.view

module _ (b : Bls) where
  pub record HotStuff : Type 0 where
    pub view : ℕ
    pub high_qc : Option QuorumCertificate
    pub locked_view : ℕ
    pub config : ConsensusConfig
    pub registry : ValidatorRegistry b

  unfoldable pub new : ConsensusConfig → ValidatorRegistry b → HotStuff
  new config registry = record {
    view = 0;
    high_qc = none;
    locked_view = 0;
    config = config;
    registry = registry;
  }

  unfoldable pub enter_next_view : Exec HotStuff ConsensusError ℕ
  enter_next_view = do
    view ← gets (λ s. s.view)
    next ← ok_or (checked_add u64_max view 1) (invalid_proposal "view counter overflow")
    modify (λ s. record s { view = next })
    pure next

  -- The checks of one signature, before the test for a duplicate.
  unfoldable pub check_signature :
      ValidatorRegistry b → List Byte → Address → List Byte → Result ConsensusError ⊤
  check_signature registry payload a bytes =
      if not (length bytes == bls_signature_bytes)
      then err (malformed_signature a)
      else elim (public_key b a registry) [
        | none ↦ err (unknown_validator a)
        | some key ↦ elim (b.deserialize bytes) [
          | none ↦ err (malformed_signature a)
          | some signature ↦
              if b.verify key payload signature then ok tt else err (invalid_signature a)
        ]
      ]

  -- The loop of `validate_qc`; `verified` is the set of the signers so far.
  unfoldable pub check_signers :
      ValidatorRegistry b
      → List Byte
      → List Address
      → List (Address × List Byte)
      → Result ConsensusError (List Address)
  check_signers registry payload verified [] = ok verified
  check_signers registry payload verified ((a, bytes) ∷ rest) =
      let later = check_signers registry payload (a ∷ verified) rest in
      elim (check_signature registry payload a bytes) [
        | err e ↦ err e
        | ok _ ↦ if elem a verified then err (duplicate_signer a) else later
      ]

  unfoldable pub validate_qc : HotStuff → QuorumCertificate → Result ConsensusError ⊤
  validate_qc s qc =
      if is_empty s.registry
      then err empty_validator_registry
      else elim (check_signers s.registry (signing_payload qc) [] qc.signatures) [
        | err e ↦ err e
        | ok verified ↦
            if ltb (length verified) s.config.quorum_threshold
            then err (insufficient_support (length verified) s.config.quorum_threshold)
            else ok tt
      ]

  -- `validate_qc(..)?` inside a method.
  abbrev pub lift : {A : Type 0} → Result ConsensusError A → Exec HotStuff ConsensusError A
  lift r s = (r, s)

  unfoldable pub adopt : QuorumCertificate → HotStuff → HotStuff
  adopt qc s = record s { locked_view = qc.view; view = max s.view qc.view; high_qc = some qc }

  unfoldable pub update_high_qc : QuorumCertificate → Exec HotStuff ConsensusError Bool
  update_high_qc qc = do
    valid ← gets (λ s. validate_qc s qc)
    lift valid
    current ← gets (λ s. s.high_qc)
    if is_some current && leb qc.view (view_of current)
        then pure false
        else do modify (adopt qc); pure true

  unfoldable pub is_safe_proposal : HotStuff → ℕ → Bool
  is_safe_proposal s view = ltb s.locked_view view || not (is_some s.high_qc)
