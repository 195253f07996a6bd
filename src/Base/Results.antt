-- ===== src/Base/Results.antt =====
-- Rust's `Result`, and methods that take `&mut self` and may fail: what was written before an
-- early return stays written, so the state comes back beside the error too.
use mathlib.Core.Bool.{Bool, true, false}
use mathlib.Core.Option.{Option, none, some}
use mathlib.Core.Logic.{◌⊎◌, inl, inr}
use mathlib.Core.Path.{◌≡◌, refl}

pub data Result (E A : Type 0) : Type 0 where
  ok : A → Result E A
  err : E → Result E A

abbrev pub Exec : Type 0 → Type 0 → Type 0 → Type 0
Exec S E A = S → Result E A × S

abbrev pub ⊤ : Type 0
⊤ = Unit

abbrev pub IsOk : {E A : Type 0} → Result E A → Type 0
IsOk (ok _) = ⊤
IsOk (err _) = ⊥

module _ {S E A : Type 0} where
  abbrev pub pure : A → Exec S E A
  pure a s = (ok a, s)

  abbrev pub fail : E → Exec S E A
  fail e s = (err e, s)

  -- `o.ok_or(e)?`
  abbrev pub ok_or : Option A → E → Exec S E A
  ok_or none e s = (err e, s)
  ok_or (some a) e s = (ok a, s)

  abbrev pub gets : (S → A) → Exec S E A
  gets f s = (ok (f s), s)

module _ {S E : Type 0} where
  -- `if c { return Err(e); }`
  abbrev pub fail_if : Bool → E → Exec S E ⊤
  fail_if true e s = (err e, s)
  fail_if false e s = (ok tt, s)

  abbrev pub modify : (S → S) → Exec S E ⊤
  modify f s = (ok tt, f s)

infixl 5 ◌>>=◌ ◌>>◌
abbrev pub ◌>>=◌ : {S E A B : Type 0} → Exec S E A → (A → Exec S E B) → Exec S E B
◌>>=◌ m f s = let (r, s') = m s in elim r [ ok a ↦ f a s' | err e ↦ (err e, s') ]

abbrev pub ◌>>◌ : {S E B : Type 0} → Exec S E ⊤ → Exec S E B → Exec S E B
m >> k = m >>= λ _. k

-- A `Result` of pure code, behind `?` in a method.
abbrev pub lift : {S E A : Type 0} → Result E A → Exec S E A
lift r s = (r, s)

-- To split on a computed result and keep the equation.
pub Result-cases :
    {E A : Type 0} (r : Result E A) → ((a : A) × (r ≡ ok a)) ⊎ ((e : E) × (r ≡ err e))
Result-cases (ok a) = inl (a, refl)
Result-cases (err e) = inr (e, refl)
