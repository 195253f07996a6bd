-- ===== src/Tests/Quorums.antt =====
-- Quorums, certificates and views at concrete inputs: four validators whose keys are their addresses.
use sub_host_demo.Base.{
  ℕ, ◌+◌, ◌%◌, ◌≤◌, ◌≡◌, ◌↔◌, ◌⊎◌, refl, true, false, some, List, [], ◌∷◌, arith, ◌==◌, nat_eq,
  if◌then◌else◌, ok, err, is_empty,
}
use sub_host_demo.Core.{Address}
use sub_host_demo.Core.Signature.{replicate}
use sub_host_demo.Map
use sub_host_demo.Map.{contains, is_some}
use sub_host_demo.Consensus
use sub_host_demo.Consensus.{
  ConsensusConfig, ConsensusError, duplicate_validator, invalid_proof_of_possession,
}
use sub_host_demo.Consensus.Quorum.{Intersect, quorum_sizes}
use sub_host_demo.Consensus.Registry.{ValidatorRegistry, register, public_key, register_exact}
use sub_host_demo.Consensus.HotStuff.{
  QuorumCertificate, HotStuff, new, signing_payload, validate_qc, update_high_qc, is_safe_proposal,
  check_signers, check_signature,
}
use sub_host_demo.Consensus.HotStuff.Certificates.{AreSigned, validate_qc_exact}
use sub_host_demo.Consensus.HotStuff.Views.{next_view, run, new-IsLocked, no_regression}
use sub_host_demo.Consensus.Staking
use sub_host_demo.Tests.Fixtures.{scheme}

abbrev all : List ℕ
all = 1 ∷ 2 ∷ 3 ∷ 4 ∷ []

abbrev four : ConsensusConfig
four = record {
  validator_count = 4;
  quorum_threshold = 3;
  max_faulty = 1;
  block_time_ms = 1000;
  dag_round_timeout_ms = 500;
}

four-new : Consensus.new 4 ≡ ok four
unfolding Consensus.new
four-new = refl

quorum_sizes_example :
    (Intersect four 4 ↔ (4 % 3 ≡ 1)) × (3 + 1 ≤ 4) × (Staking.quorum_threshold 4 ≡ 3)
quorum_sizes_example = quorum_sizes 4 four four-new

abbrev registry : ValidatorRegistry scheme
registry = (1, 1) ∷ (2, 2) ∷ (3, 3) ∷ (4, 4) ∷ []

register_exact_example :
    ((false ≡ false)
      × (register scheme 2 9 8 registry ≡ (err (invalid_proof_of_possession 2), registry)))
    ⊎ ((false ≡ true)
        × ((register scheme 2 9 8 registry).0
            ≡ (if contains 2 registry then err (duplicate_validator 2) else ok tt))
        × ((c : Address)
            → public_key scheme c (register scheme 2 9 8 registry).1
              ≡ (if 2 == c then some 9 else public_key scheme c registry)))
register_exact_example = register_exact scheme 2 9 8 registry

-- A certificate of view 5 that 1, 2 and 3 have signed.
abbrev certificate : QuorumCertificate
certificate = record {
  view = 5;
  block_hash = 77;
  signatures = (1, 1 ∷ replicate 95 0) ∷ (2, 2 ∷ replicate 95 0) ∷ (3, 3 ∷ replicate 95 0) ∷ [];
}

abbrev replica : HotStuff scheme
replica = new scheme four registry

certificate-valid : validate_qc scheme replica certificate ≡ ok tt
unfolding validate_qc check_signers check_signature new public_key Map.get
certificate-valid = refl

validate_qc_exact_example : (validate_qc scheme replica certificate ≡ ok tt) ↔ (
    (is_empty replica.registry ≡ false)
    × AreSigned scheme replica.registry (signing_payload certificate) [] certificate.signatures
    × (replica.config.quorum_threshold ≤ 3))
validate_qc_exact_example = validate_qc_exact scheme replica certificate

adopted : (update_high_qc scheme certificate replica).0 ≡ ok true
unfolding update_high_qc validate_qc check_signers check_signature new public_key Map.get
adopted = refl

no_regression_example :
    is_safe_proposal scheme
      (run scheme (next_view ∷ []) (update_high_qc scheme certificate replica).1)
      4
    ≡ false
no_regression_example =
    no_regression scheme certificate replica true (next_view ∷ []) 4
      (new-IsLocked scheme four registry) adopted (omega arith)
