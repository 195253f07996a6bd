-- ===== src/Map/Sorted.antt =====
-- The entries of a map in the order of their keys, which depends only on what the map holds.
use sub_host_demo.Base.{
  ℕ, ◌<◌, ◌≤◌, ◌≡◌, refl, none, some, [], ◌∷◌, arith, ltb, if◌then◌else◌, ◌==◌, nat_eq, ◌∙◌,
}
use sub_host_demo.Map.{Map, get}
use sub_host_demo.Map.Keys.{IsMap}

module _ {V : Type 0} where
  -- `sort_by` with the comparison of the keys; the sort is stable, and keys do not repeat.
  unfoldable pub place : ℕ → V → Map ℕ V → Map ℕ V
  place k v [] = (k, v) ∷ []
  place k v ((j, w) ∷ m) = if ltb j k then (j, w) ∷ place k v m else (k, v) ∷ (j, w) ∷ m

  unfoldable pub sort : Map ℕ V → Map ℕ V
  sort [] = []
  sort ((k, v) ∷ m) = place k v (sort m)

  abbrev pub Above : ℕ → Map ℕ V → Type 0
  Above k [] = Unit
  Above k ((j, v) ∷ m) = (k < j) × Above k m

  abbrev pub IsSorted : Map ℕ V → Type 0
  IsSorted [] = Unit
  IsSorted ((k, v) ∷ m) = Above k m × IsSorted m

  get-place :
      (k j : ℕ) (v : V) (m : Map ℕ V)
      → get k m ≡ none
      → get j (place k v m) ≡ (if k == j then some v else get j m)
  unfolding get place
  get-place k j v [] h = refl
  get-place k j v ((i, w) ∷ m) h = ground (arith, get-place k j v m)

  Above-place : (i k : ℕ) (v : V) (m : Map ℕ V) → i < k → Above i m → Above i (place k v m)
  unfolding place
  Above-place i k v [] h a = (h, tt)
  Above-place i k v ((j, w) ∷ m) h a = ground (arith, Above-place i k v m h a.1)

  Above-trans : (i k : ℕ) (m : Map ℕ V) → i < k → Above k m → Above i m
  Above-trans i k [] h a = tt
  Above-trans i k ((j, w) ∷ m) h a = (omega arith, Above-trans i k m h a.1)

  place-IsSorted :
      (k : ℕ) (v : V) (m : Map ℕ V) → get k m ≡ none → IsSorted m → IsSorted (place k v m)
  unfolding place get
  place-IsSorted k v [] n h = (tt, tt)
  place-IsSorted k v ((j, w) ∷ m) n h =
      ground (arith, place-IsSorted k v m, Above-place j k v m, Above-trans k j m)

  -- Sorting keeps every lookup.
  pub get-sort : (j : ℕ) (m : Map ℕ V) → IsMap m → get j (sort m) ≡ get j m
  unfolding sort get
  get-sort j [] h = refl
  get-sort j ((k, v) ∷ m) h =
      ground (arith, get-place k j v (sort m), get-sort j m h.1, get-sort k m h.1)

  pub sort-IsSorted : (m : Map ℕ V) → IsMap m → IsSorted (sort m)
  unfolding sort
  sort-IsSorted [] h = tt
  sort-IsSorted ((k, v) ∷ m) h =
      place-IsSorted k v (sort m) (get-sort k m h.1 ∙ h.0) (sort-IsSorted m h.1)

  pub get-Above : (j k : ℕ) (m : Map ℕ V) → Above k m → j ≤ k → get j m ≡ none
  unfolding get
  get-Above j k [] a h = refl
  get-Above j k ((i, w) ∷ m) a h = ground (arith, get-Above j k m a.1 h)

  pub IsSorted-IsMap : (m : Map ℕ V) → IsSorted m → IsMap m
  IsSorted-IsMap [] h = tt
  IsSorted-IsMap ((k, v) ∷ m) h = (get-Above k k m h.0 (omega arith), IsSorted-IsMap m h.1)
