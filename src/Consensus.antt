-- ===== src/Consensus.antt =====
-- crates/subhost-consensus/src/lib.rs: quorum sizing and the error type. The registry of keys,
-- the quorum certificates, the DAG and staking are the modules below.
pub mod Quorum
pub mod Registry
pub mod HotStuff
pub mod Staking
pub mod Dag
use Prim.Native.String.{String}
use sub_host_demo.Base.{ℕ, ◌+◌, ◌-◌, ◌*◌, ◌/◌, ◌==◌, nat_eq, if◌then◌else◌, Result, ok, err}
use sub_host_demo.Core.{Address, Hash, default_block_time_ms}

abbrev pub bls_signature_bytes : ℕ
bls_signature_bytes = 96

pub data ConsensusError : Type 0 where
  invalid_config : String → ConsensusError
  missing_parent : Hash → ConsensusError
  unknown_vertex : Hash → ConsensusError
  invalid_vertex : String → ConsensusError
  insufficient_support : ℕ → ℕ → ConsensusError
  unknown_validator : Address → ConsensusError
  duplicate_signer : Address → ConsensusError
  duplicate_validator : Address → ConsensusError
  malformed_signature : Address → ConsensusError
  invalid_signature : Address → ConsensusError
  invalid_proof_of_possession : Address → ConsensusError
  empty_validator_registry : ConsensusError
  invalid_proposal : String → ConsensusError

pub record ConsensusConfig : Type 0 where
  pub validator_count : ℕ
  pub quorum_threshold : ℕ
  pub max_faulty : ℕ
  pub block_time_ms : ℕ
  pub dag_round_timeout_ms : ℕ

-- `ConsensusConfig::new`
unfoldable pub new : ℕ → Result ConsensusError ConsensusConfig
new n =
    if n == 0
    then err (invalid_config "validator_count must be > 0")
    else ok (record {
      validator_count = n;
      quorum_threshold = 2 * ((n - 1) / 3) + 1;
      max_faulty = (n - 1) / 3;
      block_time_ms = default_block_time_ms;
      dag_round_timeout_ms = 500;
    })
