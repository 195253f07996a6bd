-- ===== src/Tests/Vertices.antt =====
-- The DAG at concrete inputs: a vertex of round 1, and two of round 2 that name it.
use sub_host_demo.Base.{ℕ, ◌≡◌, inl, inr, refl, List, [], ◌∷◌, nat_eq}
use sub_host_demo.Base.Sort.{sort_by}
use sub_host_demo.Core.{Address, Byte, Hash, Block, block_hash}
use sub_host_demo.Map
use sub_host_demo.Map.{contains}
use sub_host_demo.Consensus.Dag.{Dag, DagVertex, hash, is_committed, gc}
use sub_host_demo.Consensus.Dag.Collection.{Placed, gc_spares}
use sub_host_demo.Tests.Fixtures.{digest}

abbrev encode : Address → ℕ → Hash → List Hash → List Byte
encode author round block parents = author ∷ round ∷ block ∷ parents

abbrev block : Block
block = record {
  header = record {
    version = 1;
    chain_id = 7;
    height = 1;
    timestamp = 0;
    parent_hash = 0;
    state_root = 0;
    tx_root = 0;
    receipt_root = 0;
    validator = 1;
    gas_used = 0;
    gas_limit = 0;
    extra_data = [];
  };
  transactions = [];
  signatures = [];
}

abbrev vertex : Address → ℕ → List Hash → DagVertex
vertex author round parents = record {
  author = author;
  round = round;
  block = block;
  parents = parents;
  signature = [];
}

-- The vertex 41 has two supporters; the vertex of round 1 is not committed.
abbrev dag : Dag
dag = record {
  vertices = (1, vertex 1 1 [] ∷ []) ∷ (2, vertex 1 2 (41 ∷ []) ∷ vertex 2 2 (41 ∷ []) ∷ []) ∷ [];
  index = (41, 1) ∷ [];
  edges = [];
  committed = 40 ∷ [];
  config = record {
    validator_count = 4;
    quorum_threshold = 2;
    max_faulty = 1;
    block_time_ms = 1000;
    dag_round_timeout_ms = 500;
  };
}

gc_spares_example :
    let v = vertex 1 1 [] in
    let g' = (gc digest encode 0 dag).1 in
    Placed 1 v g'.vertices
    × (Map.get (hash digest encode v) g'.index ≡ Map.get (hash digest encode v) dag.index)
    × (Map.get (hash digest encode v) g'.edges ≡ Map.get (hash digest encode v) dag.edges)
    × (is_committed (hash digest encode v) g' ≡ is_committed (hash digest encode v) dag)
unfolding is_committed hash block_hash sort_by
gc_spares_example =
    gc_spares digest encode 0 1 (vertex 1 1 []) dag (inl (refl, inl refl)) (inr refl)
