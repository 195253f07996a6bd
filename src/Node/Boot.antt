-- ===== src/Node/Boot.antt =====
-- crates/subhost-node/src/lib.rs: what a node holds once it has started.
use mathlib.Core.Path.{subst}
use sub_host_demo.Base.{ℕ, ◌≡◌, ◌≢◌, ◌∙◌, true, Option, none, some, arith, nat_eq, ok}
use sub_host_demo.Core.Genesis.{GenesisConfig}
use sub_host_demo.Storage.{LedgerStore, FileFormat, Disk, open_store, exists, restore, load}
use sub_host_demo.Rpc.{RpcState, with_store}
use sub_host_demo.Rpc.Ledger.{IsSound}
use sub_host_demo.Rpc.Restart.{SameChain, own_snapshot, restarts}
use sub_host_demo.Node.{
  NodeConfig, BootIo, load_genesis, check_role, chain_id_of, seed_if_fresh, node_of, start,
  bootstrap,
}

-- The store that a node opens for a chain.
abbrev pub durable : ℕ → LedgerStore
durable chain_id = record { has_path = true; chain_id = chain_id }

-- Nothing that the operating system does stops a node of this configuration from opening its store.
pub record Opens (io : BootIo) (config : NodeConfig) (g : Option GenesisConfig) : Type 0 where
  pub create : io.create_dir_all ≡ true
  pub genesis : load_genesis io ≡ ok g
  pub role : check_role config g ≡ ok tt
  pub chain : chain_id_of config g ≢ 0
  pub opened : io.open_dir ≡ true
  pub metrics : io.new_metrics ≡ true

pub bootstrap-start :
    (f : FileFormat) (io : BootIo) (config : NodeConfig) (g : Option GenesisConfig) (disk : Disk)
    → Opens io config g
    → bootstrap f io config disk ≡ start f io config g (durable (chain_id_of config g)) disk
unfolding bootstrap open_store
bootstrap-start f io config g disk o =
    ground (arith, o.create, o.genesis, o.role, o.chain, o.opened)

start_resumes :
    (f : FileFormat) (io : BootIo) (config : NodeConfig) (g : Option GenesisConfig)
    (store : LedgerStore) (disk : Disk) (m : RpcState)
    → io.new_metrics ≡ true
    → exists store disk ≡ true
    → with_store f io.reads store disk ≡ ok m
    → start f io config g store disk ≡ (ok (node_of f io config m g), disk)
unfolding start seed_if_fresh
start_resumes f io config none store disk m a b c = ground (arith, a, b, c)
start_resumes f io config (some g) store disk m a b c = ground (arith, a, b, c)

-- A node that starts where a sound node of its chain has left a ledger file takes up that chain: its
-- height, blocks, accounts and receipts are the old node's, whatever the genesis file allots, and
-- the file is left as it is.
pub bootstrap_resumes :
    (f : FileFormat) (io : BootIo) (config : NodeConfig) (g : Option GenesisConfig) (n : RpcState)
    → Opens io config g
    → IsSound f n
    → n.store ≡ durable (chain_id_of config g)
    → exists n.store n.disk ≡ true
    → load f n.store io.reads n.disk ≡ restore f n.store (own_snapshot n)
    → (m : RpcState) × (bootstrap f io config n.disk ≡ (ok (node_of f io config m g), n.disk))
      × SameChain m n
bootstrap_resumes f io config g n o sound same there reads =
    let (m, x, k) = restarts f io.reads n sound reads in
    (
      m,
      bootstrap-start f io config g n.disk o
          ∙ start_resumes f io config g (durable (chain_id_of config g)) n.disk m o.metrics
              (subst (λ s. exists s n.disk ≡ true) same there)
              (subst (λ s. with_store f io.reads s n.disk ≡ ok m) same x),
      k,
    )
