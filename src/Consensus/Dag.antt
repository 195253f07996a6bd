-- ===== src/Consensus/Dag.antt =====
-- crates/subhost-consensus/src/lib.rs: the dissemination DAG, indexed by round.
pub mod Admission
pub mod Collection
use Prim.Native.String.{String}
use sub_host_demo.Base.{
  ℕ, ◌+◌, ◌-◌, max, Bool, true, false, not, ◌||◌, ◌&&◌, Option, none, some, List, [], ◌∷◌, ◌++◌,
  map, ◌==◌, nat_eq, ltb, leb, if◌then◌else◌, Exec, Result, ok, err, fail_if, fail, ok_or, gets,
  modify, pure, ◌>>=◌, ◌>>◌, ⊤, length, is_empty, elem, filter,
}
use sub_host_demo.Base.Words.{u64_max, checked_add, saturating_sub}
use sub_host_demo.Base.Sort.{sort_by}
use sub_host_demo.Core.{Address, Byte, Hash, Block, Digest, block_hash}
use sub_host_demo.Map
use sub_host_demo.Map.{Map, contains}
use sub_host_demo.Consensus.{
  ConsensusConfig, ConsensusError, missing_parent, unknown_vertex, invalid_vertex,
  insufficient_support,
}

pub record DagVertex : Type 0 where
  pub author : Address
  pub round : ℕ
  pub block : Block
  pub parents : List Hash
  pub signature : List Byte

pub record Dag : Type 0 where
  pub vertices : Map ℕ (List DagVertex)
  pub index : Map Hash ℕ
  pub edges : Map Hash (List Hash)
  pub committed : List Hash
  pub config : ConsensusConfig

abbrev pub Action : Type 0 → Type 0
Action A = Exec Dag ConsensusError A

unfoldable pub new : ConsensusConfig → Dag
new config = record { vertices = []; index = []; edges = []; committed = []; config = config }

abbrev pub or_nothing : Option (List DagVertex) → List DagVertex
or_nothing none = []
or_nothing (some vs) = vs

unfoldable pub get_round : ℕ → Dag → List DagVertex
get_round r g = or_nothing (Map.get r g.vertices)

-- The loop over the parents of a vertex.
unfoldable pub check_parents : List Hash → Map Hash ℕ → Result ConsensusError ⊤
check_parents [] index = ok tt
check_parents (h ∷ hs) index =
    let rest = check_parents hs index in if contains h index then rest else err (missing_parent h)

-- The insertions of `add_vertex`.
unfoldable pub put_vertex : Hash → DagVertex → Dag → Dag
put_vertex h v g = record g {
  vertices = Map.insert v.round (or_nothing (Map.get v.round g.vertices) ++ v ∷ []) g.vertices;
  index = Map.insert h v.round g.index;
  edges = Map.insert h v.parents g.edges;
}

-- Past the genesis round a vertex has parents, and all of them are known.
unfoldable pub check_lineage : DagVertex → Map Hash ℕ → Result ConsensusError ⊤
check_lineage v index =
    if leb v.round 1
    then ok tt
    else if is_empty v.parents
    then err (invalid_vertex "a non-genesis vertex must reference parents")
    else check_parents v.parents index

abbrev pub lift : {A : Type 0} → Result ConsensusError A → Action A
lift r g = (r, g)

-- `keys().next_back()`, or 0.
unfoldable pub greatest : Map ℕ (List DagVertex) → ℕ
greatest [] = 0
greatest ((r, vs) ∷ m) = max r (greatest m)

unfoldable pub latest_round : Dag → ℕ
latest_round g = greatest g.vertices

unfoldable pub vertex_count : Dag → ℕ
vertex_count g = length g.index

-- The distinct authors of the vertices that name `h` as a parent: the hash set.
unfoldable pub supporters : Hash → List DagVertex → List Address
supporters h [] = []
supporters h (v ∷ vs) =
    let later = supporters h vs in
    if elem h v.parents && not (elem v.author later) then v.author ∷ later else later

unfoldable pub support_for : Hash → Dag → ℕ
support_for h g = elim (Map.get h g.index) [
  | none ↦ 0
  | some round ↦ elim (checked_add u64_max round 1) [
    | none ↦ 0
    | some next ↦ length (supporters h (get_round next g))
  ]
]

unfoldable pub has_quorum_support : Hash → Dag → Bool
has_quorum_support h g = leb g.config.quorum_threshold (support_for h g)

abbrev pub commit_insert : Hash → List Hash → List Hash
commit_insert h hs = if elem h hs then hs else h ∷ hs

unfoldable pub put_committed : Hash → Dag → Dag
put_committed h g = record g { committed = commit_insert h g.committed }

unfoldable pub mark_committed : Hash → Action ⊤
mark_committed h = do
  known ← gets (λ g. contains h g.index)
  fail_if (not known) (unknown_vertex h)
  supported ← gets (has_quorum_support h)
  have ← gets (support_for h)
  need ← gets (λ g. g.config.quorum_threshold)
  fail_if (not supported) (insufficient_support have need)
  modify (put_committed h)

unfoldable pub is_committed : Hash → Dag → Bool
is_committed h g = elem h g.committed

unfoldable pub committed_count : Dag → ℕ
committed_count g = length g.committed

-- `bincode` on the author, the round, the block's hash and the sorted parents.
module _ (d : Digest) (encode : Address → ℕ → Hash → List Hash → List Byte) where
  -- `DAGVertex::hash`
  unfoldable pub hash : DagVertex → Hash
  hash v = d.blake3 (encode v.author v.round (block_hash d v.block) (sort_by leb v.parents))

  unfoldable pub add_vertex : DagVertex → Action Hash
  add_vertex v = do
    fail_if (v.round == 0) (invalid_vertex "round must be >= 1")
    known ← gets (λ g. contains (hash v) g.index)
    if known then pure (hash v) else do
      lineage ← gets (λ g. check_lineage v g.index)
      lift lineage
      modify (put_vertex (hash v) v)
      pure (hash v)

  -- What `gc` keeps of the rounds: a round before the cutoff loses its committed vertices, and goes
  -- once it is empty.
  unfoldable pub prune_rounds : ℕ → List Hash → Map ℕ (List DagVertex) → Map ℕ (List DagVertex)
  prune_rounds cutoff committed [] = []
  prune_rounds cutoff committed ((r, vs) ∷ m) =
      let later = prune_rounds cutoff committed m in
      let kept = filter (λ v. not (elem (hash v) committed)) vs in
      if leb cutoff r then (r, vs) ∷ later else if is_empty kept then later else (r, kept) ∷ later

  unfoldable pub live_hashes : Map ℕ (List DagVertex) → List Hash
  live_hashes [] = []
  live_hashes ((r, vs) ∷ m) = map hash vs ++ live_hashes m

  -- `gc` once the cutoff is known: the rounds, and then the indexes by what survived.
  unfoldable pub collect : ℕ → Dag → Dag
  collect cutoff g =
      let vertices = prune_rounds cutoff g.committed g.vertices in
      let live = live_hashes vertices in
      record g {
        vertices = vertices;
        index = Map.retain (λ h. elem h live) g.index;
        edges = Map.retain (λ h. elem h live) g.edges;
        committed = filter (λ h. elem h live) g.committed;
      }

  -- The number is that of the index entries dropped.
  unfoldable pub gc : ℕ → Dag → ℕ × Dag
  gc keep_rounds g =
      let g' = collect (saturating_sub (latest_round g) keep_rounds) g in
      (length g.index - length g'.index, g')
