-- ===== src/Ibc/Names.antt =====
-- crates/subhost-ibc/src/lib.rs: identifiers as code points: blank ones, and the names that
-- `format!("channel-{}", n)` makes.
use sub_host_demo.Base.{
  ℕ, zero, suc, ◌+◌, ◌-◌, ◌*◌, ◌/◌, ◌%◌, ◌<◌, ◌≡◌, ◌∙◌, sym, ap, refl, Bool, true, ◌||◌, ◌&&◌, List,
  [], ◌∷◌, ◌++◌, arith, ◌==◌, nat_eq, leb, ltb, if◌then◌else◌,
}

abbrev pub Text : Type 0
Text = List ℕ

-- `char::is_whitespace`: the code points with the property White_Space.
unfoldable pub is_whitespace : ℕ → Bool
is_whitespace c =
    (leb 0x9 c && leb c 0xd)
    || (c == 0x20)
    || (c == 0x85)
    || (c == 0xa0)
    || (c == 0x1680)
    || (leb 0x2000 c && leb c 0x200a)
    || (c == 0x2028)
    || (c == 0x2029)
    || (c == 0x202f)
    || (c == 0x205f)
    || (c == 0x3000)

-- `trim().is_empty()`
unfoldable pub is_blank : Text → Bool
unfolding is_whitespace
is_blank [] = true
is_blank (c ∷ cs) = is_whitespace c && is_blank cs

-- Decimal digits. The fuel is one more than the number, and `read-digits` shows that it is enough.
unfoldable pub digits : ℕ → ℕ → Text
digits zero n = []
digits (suc f) n =
    let front = digits f (n / 10) in
    if ltb n 10 then (n + b'0') ∷ [] else front ++ (n % 10 + b'0') ∷ []

unfoldable pub decimal : ℕ → Text
unfolding digits
decimal n = digits (suc n) n

-- "channel-"
abbrev prefix : Text
prefix = b'c' ∷ b'h' ∷ b'a' ∷ b'n' ∷ b'n' ∷ b'e' ∷ b'l' ∷ b'-' ∷ []

unfoldable pub channel_name : ℕ → Text
unfolding decimal
channel_name n = prefix ++ decimal n

read_from : ℕ → Text → ℕ
read_from acc [] = acc
read_from acc (c ∷ cs) = read_from (acc * 10 + (c - b'0')) cs

read_from-append :
    (acc : ℕ) (xs : Text) (c : ℕ)
    → read_from acc (xs ++ c ∷ []) ≡ read_from acc xs * 10 + (c - b'0')
unfolding read_from
read_from-append acc [] c = refl
read_from-append acc (x ∷ xs) c = read_from-append (acc * 10 + (x - b'0')) xs c

read-digits : (f n : ℕ) → n < f → read_from 0 (digits f n) ≡ n
unfolding digits
read-digits zero n h = absurd (omega arith)
read-digits (suc f) n h = ground (
  arith,
  read_small n,
  read_from-append 0 (digits f (n / 10)) (n % 10 + b'0'),
  read-digits f (n / 10),
)
  where
    read_small : (n : ℕ) → read_from 0 ((n + b'0') ∷ []) ≡ n
    read_small n = unfold read_from in omega arith

-- Two channels of different numbers have different names.
pub channel_name-injective : (n m : ℕ) → channel_name n ≡ channel_name m → n ≡ m
unfolding channel_name digits
channel_name-injective n m e =
    sym (read-digits (suc n) n (omega arith))
    ∙ ap (read_from 0) (tail e)
    ∙ read-digits (suc m) m (omega arith)
  where
    tail :
        prefix ++ digits (suc n) n ≡ prefix ++ digits (suc m) m
        → digits (suc n) n ≡ digits (suc m) m
    tail h = cc
