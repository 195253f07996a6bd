-- ===== src/Consensus/Dag/Collection.antt =====
-- crates/subhost-consensus/src/lib.rs: what `gc` leaves of the DAG.
use sub_host_demo.Base.{
  ℕ, ◌≤◌, ◌≡◌, ◌⊎◌, ◌∙◌, inl, inr, refl, ap, Bool, true, false, not, List, [], ◌∷◌, ◌++◌, map,
  arith, nat_eq, leb, elem, is_empty, filter, Bool-cases,
}
use sub_host_demo.Base.Words.{saturating_sub}
use sub_host_demo.Core.{Address, Byte, Hash, Digest}
use sub_host_demo.Map
use sub_host_demo.Map.{Map, contains, get-retain}
use sub_host_demo.Consensus.Dag.{
  Dag, DagVertex, hash, prune_rounds, live_hashes, collect, gc, latest_round, is_committed,
}

-- A vertex among those of a round, and of a table of rounds.
abbrev pub Among : DagVertex → List DagVertex → Type 0
Among v [] = ⊥
Among v (w ∷ ws) = (w ≡ v) ⊎ Among v ws

abbrev pub Placed : ℕ → DagVertex → Map ℕ (List DagVertex) → Type 0
Placed r v [] = ⊥
Placed r v ((q, ws) ∷ m) = ((q ≡ r) × Among v ws) ⊎ Placed r v m

module _ (d : Digest) (encode : Address → ℕ → Hash → List Hash → List Byte) (cutoff : ℕ)
    (committed : List Hash) where
  -- What stays: a vertex of a recent round, or one that is not committed.
  abbrev pub Stays : ℕ → DagVertex → Type 0
  Stays r v = (cutoff ≤ r) ⊎ (elem (hash d encode v) committed ≡ false)

  Among-filter :
      (v : DagVertex) (ws : List DagVertex)
      → Among v ws
      → elem (hash d encode v) committed ≡ false
      → Among v (filter (λ w. not (elem (hash d encode w) committed)) ws)
  Among-filter v [] h k = h
  Among-filter v (w ∷ ws) (inl e) k =
      let same = ap (λ x. elem (hash d encode x) committed) e ∙ k in rw same (inl e)
  Among-filter v (w ∷ ws) (inr h) k = elim (Bool-cases (elem (hash d encode w) committed)) [
    | inl gone ↦ rw gone (Among-filter v ws h k)
    | inr here ↦ rw here (inr (Among-filter v ws h k))
  ]

  Among-empty : (v : DagVertex) (ws : List DagVertex) → is_empty ws ≡ true → Among v ws → ⊥
  Among-empty v [] e h = h
  Among-empty v (w ∷ ws) e h = cc e

  Placed-prune_rounds :
      (r : ℕ) (v : DagVertex) (m : Map ℕ (List DagVertex))
      → Placed r v m
      → Stays r v
      → Placed r v (prune_rounds d encode cutoff committed m)
  unfolding prune_rounds
  Placed-prune_rounds r v [] h s = h
  Placed-prune_rounds r v ((q, ws) ∷ m) h s = elim (Bool-cases (leb cutoff q)) [
    | inl recent ↦ rw recent (at_recent (λ x. Placed-prune_rounds r v m x s) h)
    | inr old ↦
        elim (Bool-cases (is_empty (filter (λ w. not (elem (hash d encode w) committed)) ws))) [
          | inl none_left ↦
              rw (old, none_left) (at_emptied (λ x. Placed-prune_rounds r v m x s) old none_left h)
          | inr some_left ↦
              rw (old, some_left) (at_thinned (λ x. Placed-prune_rounds r v m x s) old h)
        ]
  ]
    where
      survivor : leb cutoff q ≡ false → q ≡ r → elem (hash d encode v) committed ≡ false
      survivor old e = elim s [ inl late ↦ absurd (ground arith) | inr k ↦ k ]

      at_recent :
          (Placed r v m → Placed r v (prune_rounds d encode cutoff committed m))
          → ((q ≡ r) × Among v ws) ⊎ Placed r v m
          → ((q ≡ r) × Among v ws) ⊎ Placed r v (prune_rounds d encode cutoff committed m)
      at_recent later (inl x) = inl x
      at_recent later (inr x) = inr (later x)

      at_emptied :
          (Placed r v m → Placed r v (prune_rounds d encode cutoff committed m))
          → leb cutoff q ≡ false
          → is_empty (filter (λ w. not (elem (hash d encode w) committed)) ws) ≡ true
          → ((q ≡ r) × Among v ws) ⊎ Placed r v m
          → Placed r v (prune_rounds d encode cutoff committed m)
      at_emptied later old e (inl (same, x)) =
          absurd (Among-empty v _ e (Among-filter v ws x (survivor old same)))
      at_emptied later old e (inr x) = later x

      at_thinned :
          (Placed r v m → Placed r v (prune_rounds d encode cutoff committed m))
          → leb cutoff q ≡ false
          → ((q ≡ r) × Among v ws) ⊎ Placed r v m
          → ((q ≡ r) × Among v (filter (λ w. not (elem (hash d encode w) committed)) ws))
            ⊎ Placed r v (prune_rounds d encode cutoff committed m)
      at_thinned later old (inl (same, x)) = inl (same, Among-filter v ws x (survivor old same))
      at_thinned later old (inr x) = inr (later x)

elem-append_left : (h : Hash) (xs ys : List Hash) → elem h xs ≡ true → elem h (xs ++ ys) ≡ true
elem-append_left h [] ys e = cc e
elem-append_left h (x ∷ xs) ys e = ground (arith, elem-append_left h xs ys)

elem-append_right : (h : Hash) (xs ys : List Hash) → elem h ys ≡ true → elem h (xs ++ ys) ≡ true
elem-append_right h [] ys e = e
elem-append_right h (x ∷ xs) ys e = ground (arith, elem-append_right h xs ys e)

elem-filter :
    (h : Hash) (p : Hash → Bool) (xs : List Hash) → p h ≡ true → elem h (filter p xs) ≡ elem h xs
elem-filter h p [] e = refl
elem-filter h p (x ∷ xs) e = elim (Bool-cases (p x)) [
  | inl yes_x ↦ rw yes_x (ground (arith, elem-filter h p xs e))
  | inr no_x ↦ rw no_x (ground (arith, elem-filter h p xs e))
]

module _ (d : Digest) (encode : Address → ℕ → Hash → List Hash → List Byte) where
  elem-map_hash :
      (v : DagVertex) (ws : List DagVertex)
      → Among v ws
      → elem (hash d encode v) (map (hash d encode) ws) ≡ true
  elem-map_hash v [] h = absurd h
  elem-map_hash v (w ∷ ws) (inl e) = ground (arith, ap (hash d encode) e)
  elem-map_hash v (w ∷ ws) (inr h) = ground (arith, elem-map_hash v ws h)

  elem-live_hashes :
      (r : ℕ) (v : DagVertex) (m : Map ℕ (List DagVertex))
      → Placed r v m
      → elem (hash d encode v) (live_hashes d encode m) ≡ true
  unfolding live_hashes
  elem-live_hashes r v [] h = absurd h
  elem-live_hashes r v ((q, ws) ∷ m) (inl x) =
      elem-append_left (hash d encode v) (map (hash d encode) ws) (live_hashes d encode m)
        (elem-map_hash v ws x.1)
  elem-live_hashes r v ((q, ws) ∷ m) (inr x) =
      elem-append_right (hash d encode v) (map (hash d encode) ws) (live_hashes d encode m)
        (elem-live_hashes r v m x)

  -- Garbage collection spares every vertex that is not committed, and every vertex of a round
  -- no older than `keep_rounds` before the newest: it stays in its round, its hash is known with the
  -- same round and the same parents, and it is committed if it was.
  pub gc_spares :
      (keep_rounds r : ℕ) (v : DagVertex) (g : Dag)
      → Placed r v g.vertices
      → (saturating_sub (latest_round g) keep_rounds ≤ r)
        ⊎ (is_committed (hash d encode v) g ≡ false)
      → let g' = (gc d encode keep_rounds g).1 in
        Placed r v g'.vertices
        × (Map.get (hash d encode v) g'.index ≡ Map.get (hash d encode v) g.index)
        × (Map.get (hash d encode v) g'.edges ≡ Map.get (hash d encode v) g.edges)
        × (is_committed (hash d encode v) g' ≡ is_committed (hash d encode v) g)
  unfolding gc collect is_committed
  gc_spares keep_rounds r v g h s =
      let cutoff = saturating_sub (latest_round g) keep_rounds in
      let there = Placed-prune_rounds d encode cutoff g.committed r v g.vertices h s in
      let live = live_hashes d encode (prune_rounds d encode cutoff g.committed g.vertices) in
      let alive =
        elem-live_hashes r v (prune_rounds d encode cutoff g.committed g.vertices) there in
      (
        there,
        rw (get-retain (λ x. elem x live) (hash d encode v) g.index) (rw alive),
        rw (get-retain (λ x. elem x live) (hash d encode v) g.edges) (rw alive),
        elem-filter (hash d encode v) (λ x. elem x live) g.committed alive,
      )
