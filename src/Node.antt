-- ===== src/Node.antt =====
-- crates/subhost-node/src/lib.rs: how a node is put together. Reading the genesis file and the answers of the
-- operating system are parameters.
pub mod Boot
pub mod Fresh
use sub_host_demo.Base.{
  ℕ, Bool, true, false, not, Option, none, some, List, [], ◌∷◌, ◌==◌, nat_eq, is_empty,
  if◌then◌else◌, Exec, Result, ok, err, fail_if, gets, pure, lift, ◌>>=◌, ◌>>◌, ⊤,
}
use sub_host_demo.Core.{Byte}
use sub_host_demo.Core.Genesis.{GenesisConfig, GenesisError, validate, requires_validators}
use sub_host_demo.Storage.{LedgerStore, FileFormat, WriteIo, ReadIo, Disk, open_store, exists}
use sub_host_demo.Storage.Chain.{StorageError}
use sub_host_demo.Rpc
use sub_host_demo.Rpc.{RpcState, RpcError, with_store, seed_accounts, block_count, pending_count}

-- The addresses and paths of the configuration decide nothing here.
pub record NodeConfig : Type 0 where
  pub validator : Bool
  pub fallback_chain_id : ℕ

-- `NodeConfig::new`
abbrev pub default_config : NodeConfig
default_config = record { validator = false; fallback_chain_id = 1 }

pub data NodeError : Type 0 where
  data_dir missing_genesis invalid_chain_id genesis_unreadable genesis_malformed metrics : NodeError
  genesis : GenesisError → NodeError
  storage : StorageError → NodeError
  rpc : RpcError → NodeError

-- What the operating system answers while a node starts, and `serde_json` on the genesis file.
pub record BootIo : Type 0 where
  pub create_dir_all : Bool
  pub genesis_is_file : Bool
  pub read_genesis : Option (List Byte)
  pub parse_genesis : List Byte → Option GenesisConfig
  pub open_dir : Bool
  pub new_metrics : Bool
  pub reads : ReadIo
  pub writes : WriteIo

-- The gauges of the metrics beside the node's state.
pub record Node : Type 0 where
  pub state : RpcState
  pub block_height_gauge : ℕ
  pub pending_gauge : ℕ
  pub config : NodeConfig
  pub genesis : Option GenesisConfig

-- `GenesisConfig::load`
unfoldable pub load_config : BootIo → Result NodeError GenesisConfig
load_config io = elim io.read_genesis [
  | none ↦ err genesis_unreadable
  | some content ↦ elim (io.parse_genesis content) [
    | none ↦ err genesis_malformed
    | some g ↦ elim (validate g) [ err e ↦ err (genesis e) | ok _ ↦ ok g ]
  ]
]

unfoldable pub load_genesis : BootIo → Result NodeError (Option GenesisConfig)
load_genesis io =
    if not io.genesis_is_file
    then ok none
    else elim (load_config io) [ err e ↦ err e | ok g ↦ ok (some g) ]

-- The check of a validator's genesis.
unfoldable pub check_role : NodeConfig → Option GenesisConfig → Result NodeError ⊤
check_role c none = if c.validator then err missing_genesis else ok tt
check_role c (some g) =
    if c.validator
    then elim (requires_validators g) [ err e ↦ err (genesis e) | ok _ ↦ ok tt ]
    else ok tt

abbrev pub chain_id_of : NodeConfig → Option GenesisConfig → ℕ
chain_id_of c none = c.fallback_chain_id
chain_id_of c (some g) = g.chain_id

abbrev pub of_storage : {A : Type 0} → Result StorageError A → Result NodeError A
of_storage (ok a) = ok a
of_storage (err e) = err (storage e)

module _ (f : FileFormat) (io : BootIo) (config : NodeConfig) where
  unfoldable pub seed : GenesisConfig → RpcState → Exec Disk NodeError RpcState
  seed g n disk =
      let (r, n') = seed_accounts f io.writes g.allocations n in
      elim r [ ok _ ↦ (ok n', n'.disk) | err e ↦ (err (rpc e), n'.disk) ]

  -- The allocations are applied when there is no ledger yet.
  unfoldable pub seed_if_fresh :
      Bool → Option GenesisConfig → RpcState → Exec Disk NodeError RpcState
  seed_if_fresh fresh none n = pure n
  seed_if_fresh fresh (some g) n =
      if not fresh then pure n else if is_empty g.allocations then pure n else seed g n

  abbrev pub node_of : RpcState → Option GenesisConfig → Node
  node_of n g = record {
    state = n;
    block_height_gauge = n.block_height;
    pending_gauge = pending_count n;
    config = config;
    genesis = g;
  }

  -- What follows once the store is open.
  unfoldable pub start : Option GenesisConfig → LedgerStore → Exec Disk NodeError Node
  start g store = do
    file ← gets (λ disk. disk)
    state ← lift (of_storage (with_store f io.reads store file))
    state' ← seed_if_fresh (not (exists store file)) g state
    fail_if (not io.new_metrics) metrics
    pure (node_of state' g)

  -- `Node::bootstrap`
  unfoldable pub bootstrap : Exec Disk NodeError Node
  bootstrap = do
    fail_if (not io.create_dir_all) data_dir
    g ← lift (load_genesis io)
    lift (check_role config g)
    fail_if (chain_id_of config g == 0) invalid_chain_id
    store ← lift (of_storage (open_store io.open_dir (chain_id_of config g)))
    start g store
