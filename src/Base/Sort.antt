-- ===== src/Base/Sort.antt =====
-- `sort_by` with a comparison: an insertion sort, since any stable sort gives the same list.
use mathlib.Core.List.{Perm}
use mathlib.Core.List.Perm
use sub_host_demo.Base.Tests.{if◌then◌else◌, Bool-cases}
use mathlib.Core.Bool.{Bool, true}
use mathlib.Core.Logic.{◌⊎◌, inl, inr}
use mathlib.Core.Path.{◌≡◌}
use mathlib.Core.List.{List, [], ◌∷◌}
use native.Mathlib.Omega.{arith}

module _ {A : Type 0} (le : A → A → Bool) where
  unfoldable pub place : A → List A → List A
  place a [] = a ∷ []
  place a (b ∷ xs) = if le a b then a ∷ b ∷ xs else b ∷ place a xs

  unfoldable pub sort_by : List A → List A
  sort_by [] = []
  sort_by (a ∷ xs) = place a (sort_by xs)

  -- Each element is in order with every later one.
  abbrev pub Leads : A → List A → Type 0
  Leads a [] = Unit
  Leads a (b ∷ xs) = (le a b ≡ true) × Leads a xs

  abbrev pub IsOrdered : List A → Type 0
  IsOrdered [] = Unit
  IsOrdered (a ∷ xs) = Leads a xs × IsOrdered xs

  place-perm : (a : A) (xs : List A) → Perm (place a xs) (a ∷ xs)
  unfolding place
  place-perm a [] = Perm.refl (a ∷ [])
  place-perm a (b ∷ xs) = elim (Bool-cases (le a b)) [
    | inl e ↦ rw e (Perm.refl (a ∷ b ∷ xs))
    | inr e ↦ rw e (Perm.trans (Perm.cons b (place-perm a xs)) (Perm.swap a b xs))
  ]

  pub sort_by-perm : (xs : List A) → Perm (sort_by xs) xs
  unfolding sort_by
  sort_by-perm [] = Perm.refl []
  sort_by-perm (a ∷ xs) = Perm.trans (place-perm a (sort_by xs)) (Perm.cons a (sort_by-perm xs))

  module _ (total : (a b : A) → (le a b ≡ true) ⊎ (le b a ≡ true))
      (trans : (a b c : A) → le a b ≡ true → le b c ≡ true → le a c ≡ true) where
    Leads-place : (a b : A) (xs : List A) → le a b ≡ true → Leads a xs → Leads a (place b xs)
    unfolding place
    Leads-place a b [] h l = (h, tt)
    Leads-place a b (c ∷ xs) h l = ground (arith, Leads-place a b xs h l.1)

    Leads-trans : (a b : A) (xs : List A) → le a b ≡ true → Leads b xs → Leads a xs
    Leads-trans a b [] h l = tt
    Leads-trans a b (c ∷ xs) h l = (trans a b c h l.0, Leads-trans a b xs h l.1)

    place-IsOrdered : (a : A) (xs : List A) → IsOrdered xs → IsOrdered (place a xs)
    unfolding place
    place-IsOrdered a [] h = (tt, tt)
    place-IsOrdered a (b ∷ xs) h =
        ground (arith, total a b, place-IsOrdered a xs h.1, Leads-place b a xs, Leads-trans a b xs)

    pub sort_by-IsOrdered : (xs : List A) → IsOrdered (sort_by xs)
    unfolding sort_by
    sort_by-IsOrdered [] = tt
    sort_by-IsOrdered (a ∷ xs) = place-IsOrdered a (sort_by xs) (sort_by-IsOrdered xs)
