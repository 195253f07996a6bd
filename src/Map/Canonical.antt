-- ===== src/Map/Canonical.antt =====
-- Two maps that answer every lookup alike have the same sorted entries.
use sub_host_demo.Base.{ℕ, ◌≡◌, refl, [], ◌∷◌, arith, nat_eq, ◌∙◌, sym}
use sub_host_demo.Map.{Map, get}
use sub_host_demo.Map.Keys.{IsMap}
use sub_host_demo.Map.Sorted.{IsSorted, Above, get-Above, sort, get-sort, sort-IsSorted}

module _ {V : Type 0} where
  abbrev Agree : Map ℕ V → Map ℕ V → Type 0
  Agree m n = (k : ℕ) → get k m ≡ get k n

  Agree-tail :
      (k : ℕ) (v w : V) (m n : Map ℕ V)
      → Above k m
      → Above k n
      → Agree ((k, v) ∷ m) ((k, w) ∷ n)
      → Agree m n
  unfolding get
  Agree-tail k v w m n a b h j = ground (arith, h j, get-Above j k m a, get-Above j k n b)

  sorted_ext : (m n : Map ℕ V) → IsSorted m → IsSorted n → Agree m n → m ≡ n
  unfolding get
  sorted_ext [] [] a b h = refl
  sorted_ext [] ((k, v) ∷ n) a b h = ground (arith, h k)
  sorted_ext ((k, v) ∷ m) [] a b h = ground (arith, h k)
  sorted_ext ((k, v) ∷ m) ((j, w) ∷ n) a b h = ground (
    arith,
    h k,
    h j,
    get-Above k j n b.0,
    get-Above j k m a.0,
    λ (x : Agree m n). sorted_ext m n a.1 b.1 x,
    λ (x : Above k n). Agree-tail k v w m n a.0 x,
  )

  pub sort_ext : (m n : Map ℕ V) → IsMap m → IsMap n → Agree m n → sort m ≡ sort n
  sort_ext m n p q h =
      sorted_ext (sort m) (sort n) (sort-IsSorted m p) (sort-IsSorted n q)
        (λ k. get-sort k m p ∙ h k ∙ sym (get-sort k n q))
