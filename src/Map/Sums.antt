-- ===== src/Map/Sums.antt =====
-- The sum of a measure over the values of a map, under each update.
use sub_host_demo.Base.{ℕ, ◌+◌, ◌≤◌, ◌≡◌, Option, none, some, [], ◌∷◌, arith, Eq, refl}
use sub_host_demo.Map.{Map, get, insert, remove}
use sub_host_demo.Map.Keys.{IsMap, remove_absent}

module _ {V : Type 0} (f : V → ℕ) where
  abbrev pub measure : Option V → ℕ
  measure none = 0
  measure (some v) = f v

module _ {K V : Type 0} ⦃e : Eq K⦄ (f : V → ℕ) where
  unfoldable pub sum : Map K V → ℕ
  sum [] = 0
  sum ((k, v) ∷ m) = f v + sum m

  pub sum-insert :
      (k : K) (v : V) (m : Map K V) → sum (insert k v m) + measure f (get k m) ≡ sum m + f v
  unfolding sum insert get
  sum-insert k v [] = omega arith
  sum-insert k v ((j, w) ∷ m) = ground (arith, sum-insert k v m)

  pub sum-remove : (k : K) (m : Map K V) → IsMap m → sum (remove k m) + measure f (get k m) ≡ sum m
  unfolding sum remove get
  sum-remove k [] h = omega arith
  sum-remove k ((j, w) ∷ m) h = ground (arith, sum-remove k m h.1, remove_absent k m, e.beq_iff j k)

  pub measure-le-sum : (k : K) (m : Map K V) → measure f (get k m) ≤ sum m
  unfolding sum get
  measure-le-sum k [] = omega arith
  measure-le-sum k ((j, w) ∷ m) = ground (arith, measure-le-sum k m)

  -- Where every value measures nothing, so does the map.
  pub sum-eq-zero :
      (m : Map K V) → IsMap m → ((k : K) (v : V) → get k m ≡ some v → f v ≡ 0) → sum m ≡ 0
  unfolding sum get
  sum-eq-zero [] h z = refl
  sum-eq-zero ((j, w) ∷ m) h z =
      let rest = sum-eq-zero m h.1 (λ k v e'. z k v (ground (arith, e.beq_iff j k))) in
      ground (arith, z j w, e.beq_iff j j, rest)
