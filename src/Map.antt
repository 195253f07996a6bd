-- ===== src/Map.antt =====
-- `HashMap` and `BTreeMap` as association lists. Where the program walks a hash map, the order
-- of the walk is that of the list; a walk over a B-tree map is over `sort`, by ascending key.
pub mod Keys
pub mod Sums
pub mod Sorted
pub mod Canonical
pub mod Updates
use sub_host_demo.Base.{
  ℕ, ◌≡◌, refl, Bool, true, false, Option, none, some, List, [], ◌∷◌, arith, Eq, ◌==◌, Bool-cases,
  inl, inr, if◌then◌else◌, not,
}

abbrev pub Map : Type 0 → Type 0 → Type 0
Map K V = List (K × V)

abbrev pub is_some : {V : Type 0} → Option V → Bool
is_some none = false
is_some (some v) = true

module _ {K V : Type 0} ⦃e : Eq K⦄ where
  unfoldable pub get : K → Map K V → Option V
  get k [] = none
  get k ((j, v) ∷ m) = if j == k then some v else get k m

  -- `insert` keeps the place of a key that is there.
  unfoldable pub insert : K → V → Map K V → Map K V
  insert k v [] = (k, v) ∷ []
  insert k v ((j, w) ∷ m) = if j == k then (j, v) ∷ m else (j, w) ∷ insert k v m

  -- `retain`, by a test of the key.
  unfoldable pub retain : (K → Bool) → Map K V → Map K V
  retain p [] = []
  retain p ((j, w) ∷ m) = let rest = retain p m in if p j then (j, w) ∷ rest else rest

  unfoldable pub remove : K → Map K V → Map K V
  remove k [] = []
  remove k ((j, w) ∷ m) = let rest = remove k m in if j == k then rest else (j, w) ∷ rest

  abbrev pub contains : K → Map K V → Bool
  contains k m = is_some (get k m)

  pub get-insert :
      (k j : K) (v : V) (m : Map K V) → get j (insert k v m) ≡ (if k == j then some v else get j m)
  unfolding get insert
  get-insert k j v [] = refl
  get-insert k j v ((i, w) ∷ m) =
      ground (arith, e.beq_iff k j, e.beq_iff i k, e.beq_iff i j, get-insert k j v m)

  pub get-remove : (k j : K) (m : Map K V) → get j (remove k m) ≡ (if k == j then none else get j m)
  unfolding get remove
  get-remove k j [] = ground arith
  get-remove k j ((i, w) ∷ m) =
      ground (arith, e.beq_iff k j, e.beq_iff i k, e.beq_iff i j, get-remove k j m)

  pub get-retain :
      (p : K → Bool) (j : K) (m : Map K V) → get j (retain p m) ≡ (if p j then get j m else none)
  unfolding get retain
  get-retain p j [] = ground arith
  get-retain p j ((i, w) ∷ m) = elim (Bool-cases (i == j)) [
    | inl same ↦ rw ((e.beq_iff i j).0 same) (ground (arith, get-retain p j m, e.beq_iff j j))
    | inr other ↦ ground (arith, get-retain p j m)
  ]

pub get-empty : {K V : Type 0} ⦃e : Eq K⦄ (k : K) → get {V = V} k [] ≡ none
unfolding get
get-empty k = refl

pub ruleset map_laws = (get-empty, get-insert, get-remove, get-retain)
