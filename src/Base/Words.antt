-- ===== src/Base/Words.antt =====
-- Machine words: the checked and saturating operations of u64 and u128. A word is a native
-- number; its range is stated where it matters.
use Prim.Native.Nat.{ℕ, ◌+◌, ◌-◌, ◌*◌, ◌^◌, min}
use mathlib.Core.Option.{Option, none, some}
use sub_host_demo.Base.Tests.{leb, if◌then◌else◌}

abbrev pub u64_max : ℕ
u64_max = 2 ^ 64 - 1

abbrev pub u128_max : ℕ
u128_max = 2 ^ 128 - 1

-- `u64::checked_add` and `u128::checked_add`, by the largest value of the type.
abbrev pub checked_add : ℕ → ℕ → ℕ → Option ℕ
checked_add max_value a b = if leb (a + b) max_value then some (a + b) else none

abbrev pub checked_mul : ℕ → ℕ → ℕ → Option ℕ
checked_mul max_value a b = if leb (a * b) max_value then some (a * b) else none

abbrev pub saturating_add : ℕ → ℕ → ℕ → ℕ
saturating_add max_value a b = min max_value (a + b)

-- `saturating_sub` of an unsigned word is the truncated subtraction.
abbrev pub saturating_sub : ℕ → ℕ → ℕ
saturating_sub a b = a - b
