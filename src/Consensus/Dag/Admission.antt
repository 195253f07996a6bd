-- ===== src/Consensus/Dag/Admission.antt =====
-- crates/subhost-consensus/src/lib.rs: which vertices enter the DAG, and which are committed.
use sub_host_demo.Base.{
  ℕ, ◌≤◌, ◌<◌, ◌≡◌, ◌≢◌, ◌⊎◌, ◌↔◌, inl, inr, true, false, List, [], ◌∷◌, arith, ◌==◌, nat_eq, ok,
  err, ⊤, is_empty, All, Bool-cases, Result-cases,
}
use sub_host_demo.Core.{Address, Byte, Hash, Digest}
use sub_host_demo.Map.{Map, contains}
use sub_host_demo.Consensus.{ConsensusError, invalid_vertex}
use sub_host_demo.Consensus.Dag.{
  Dag, DagVertex, hash, add_vertex, put_vertex, check_lineage, check_parents, mark_committed,
  put_committed, support_for, has_quorum_support, is_committed,
}

-- Every parent is known.
abbrev pub AreKnown : Map Hash ℕ → List Hash → Type 0
AreKnown index = All (λ h. contains h index ≡ true)

parents_known :
    (hs : List Hash) (index : Map Hash ℕ) {u : ⊤}
    → check_parents hs index ≡ ok u
    → AreKnown index hs
unfolding check_parents
parents_known [] index h = tt
parents_known (k ∷ hs) index h = ground (arith, parents_known hs index)

lineage_known :
    (v : DagVertex) (index : Map Hash ℕ) {u : ⊤}
    → check_lineage v index ≡ ok u
    → 1 < v.round
    → (is_empty v.parents ≡ false) × AreKnown index v.parents
unfolding check_lineage
lineage_known v index h late = ground (arith, parents_known v.parents index)

module _ (d : Digest) (encode : Address → ℕ → Hash → List Hash → List Byte) where
  -- A vertex is refused and the DAG stays as it was; or its hash is known, and the DAG stays as it
  -- was; or it is new, its round is not 0, past round 1 it has parents and all of them are
  -- known, and it is put in its round.
  pub add_vertex_cases :
      (v : DagVertex) (g : Dag)
      → ((e : ConsensusError) × (add_vertex d encode v g ≡ (err e, g)))
        ⊎ ((contains (hash d encode v) g.index ≡ true)
            × (add_vertex d encode v g ≡ (ok (hash d encode v), g)))
        ⊎ ((contains (hash d encode v) g.index ≡ false)
            × (0 < v.round)
            × ((1 < v.round) → (is_empty v.parents ≡ false) × AreKnown g.index v.parents)
            × (add_vertex d encode v g ≡ (ok (hash d encode v), put_vertex (hash d encode v) v g)))
  unfolding add_vertex
  add_vertex_cases v g = elim (Bool-cases (v.round == 0)) [
    | inl zeroth ↦ inl (invalid_vertex "round must be >= 1", rw zeroth)
    | inr later ↦ elim (Bool-cases (contains (hash d encode v) g.index)) [
      | inl there ↦ inr (inl (there, rw later (rw there)))
      | inr fresh ↦ elim (Result-cases (check_lineage v g.index)) [
        | inr (e, x) ↦ inl (e, rw later (rw fresh (rw x)))
        | inl (u, x) ↦ inr (
            inr
              (fresh, ground arith, (λ h. lineage_known v g.index x h), rw later (rw fresh (rw x))))
      ]
    ]
  ]

-- A vertex is marked committed exactly when it is known and a quorum supports it. It is then
-- committed, no other vertex becomes or ceases to be committed, and where the call fails the DAG stays
-- as it was.
pub mark_committed_exact :
    (h : Hash) (g : Dag)
    → ((mark_committed h g).0 ≡ ok tt
        ↔ (contains h g.index ≡ true) × (g.config.quorum_threshold ≤ support_for h g))
      × ((mark_committed h g ≡ (ok tt, put_committed h g)) ⊎ ((mark_committed h g).1 ≡ g))
      × (is_committed h (put_committed h g) ≡ true)
      × ((k : Hash) → k ≢ h → is_committed k (put_committed h g) ≡ is_committed k g)
unfolding mark_committed has_quorum_support put_committed is_committed
mark_committed_exact h g =
    (((λ e. ground arith), (λ e. ground arith)), ground arith, ground arith, (λ k n. ground arith))
