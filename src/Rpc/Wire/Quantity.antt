-- ===== src/Rpc/Wire/Quantity.antt =====
-- crates/subhost-rpc/src/lib.rs: quantities as the answers write them and the requests read them.
use sub_host_demo.Base.{
  ℕ, zero, suc, ◌+◌, ◌*◌, ◌/◌, ◌%◌, ◌≤◌, ◌<◌, ◌≡◌, ◌∙◌, ap, inl, inr, refl, true, false, some, [],
  ◌∷◌, ◌++◌, arith, nat_eq, ltb, length, ok, Bool-cases,
}
use sub_host_demo.Base.Words.{u64_max, u128_max}
use sub_host_demo.Rpc.Wire.{
  Text, string, strip_prefix, hex_prefix, digit_value, is_ascii_hexdigit, all_hexdigits,
  starts_with_zero, read_digits, from_str_radix, hex_digits, hex_word, hex_quantity, hex_amount,
  hex_digit, write_digits, format_quantity,
}

digit_value-hex_digit : (d : ℕ) → d < 16 → digit_value (hex_digit d) ≡ some d
unfolding digit_value
digit_value-hex_digit d h = ground arith

is_ascii_hexdigit-hex_digit : (d : ℕ) → d < 16 → is_ascii_hexdigit (hex_digit d) ≡ true
unfolding is_ascii_hexdigit
is_ascii_hexdigit-hex_digit d h = ground arith

read_digit :
    (max_value n d : ℕ) (tail : Text)
    → d < 16
    → n * 16 + d ≤ max_value
    → read_digits max_value n (hex_digit d ∷ tail) ≡ read_digits max_value (n * 16 + d) tail
unfolding read_digits
read_digit max_value n d tail h k = ground (arith, digit_value-hex_digit d h)

-- The numbers that so many digits can spell are below this.
abbrev limit : ℕ → ℕ
limit zero = 1
limit (suc k) = 16 * limit k

divided : (n : ℕ) → n / 16 * 16 + n % 16 ≡ n
divided n = omega arith

plain : (n : ℕ) → 0 * 16 + n ≡ n
plain n = omega arith

read-write_digits :
    (fuel max_value n : ℕ) (tail : Text)
    → n ≤ max_value
    → n < limit fuel
    → read_digits max_value 0 (write_digits fuel n tail) ≡ read_digits max_value n tail
unfolding write_digits
read-write_digits zero max_value n tail h k = ap (λ x. read_digits max_value x tail) (omega arith)
read-write_digits (suc fuel) max_value n tail h k = elim (Bool-cases (ltb n 16)) [
  | inl small ↦ rw small (
      read_digit max_value 0 n tail (ground arith) (omega arith)
      ∙ ap (λ x. read_digits max_value x tail) (plain n))
  | inr big ↦ rw big (
      read-write_digits fuel max_value (n / 16) (hex_digit (n % 16) ∷ tail) (omega arith)
        (omega arith)
      ∙ (read_digit max_value (n / 16) (n % 16) tail (omega arith) (omega arith)
          ∙ ap (λ x. read_digits max_value x tail) (divided n)))
]

write_digits-all :
    (fuel n : ℕ) (tail : Text)
    → all_hexdigits tail ≡ true
    → all_hexdigits (write_digits fuel n tail) ≡ true
unfolding write_digits
write_digits-all zero n tail h = h
write_digits-all (suc fuel) n tail h = elim (Bool-cases (ltb n 16)) [
  | inl small ↦ rw small (rw (is_ascii_hexdigit-hex_digit n (ground arith)) h)
  | inr big ↦ rw big (
      write_digits-all fuel (n / 16) (hex_digit (n % 16) ∷ tail)
        (rw (is_ascii_hexdigit-hex_digit (n % 16) (omega arith)) h))
]

digit_nonzero : (d : ℕ) (tail : Text) → 0 < d → starts_with_zero (hex_digit d ∷ tail) ≡ false
digit_nonzero d tail h = ground arith

write_digits-head :
    (fuel n : ℕ) (tail : Text)
    → 0 < n
    → n < limit fuel
    → starts_with_zero (write_digits fuel n tail) ≡ false
unfolding write_digits
write_digits-head zero n tail h k = absurd (omega arith)
write_digits-head (suc fuel) n tail h k = elim (Bool-cases (ltb n 16)) [
  | inl small ↦ rw small (digit_nonzero n tail h)
  | inr big ↦
      let more : 16 ≤ n = ground arith in
      rw big
        (write_digits-head fuel (n / 16) (hex_digit (n % 16) ∷ tail) (omega arith) (omega arith))
]

write_digits-length :
    (fuel n : ℕ) (tail : Text) → 0 < fuel + length tail → 0 < length (write_digits fuel n tail)
unfolding write_digits
write_digits-length zero n tail h = omega arith
write_digits-length (suc fuel) n tail h = elim (Bool-cases (ltb n 16)) [
  | inl small ↦ rw small (omega arith)
  | inr big ↦ rw big (write_digits-length fuel (n / 16) (hex_digit (n % 16) ∷ tail) (omega arith))
]

-- Text of hexadecimal digits has no sign.
from_str_radix-unsigned :
    (max_value : ℕ) (text : Text)
    → 0 < length text
    → all_hexdigits text ≡ true
    → from_str_radix max_value text ≡ read_digits max_value 0 text
unfolding from_str_radix is_ascii_hexdigit
from_str_radix-unsigned max_value [] h a = absurd (omega arith)
from_str_radix-unsigned max_value (c ∷ []) h a = ground arith
from_str_radix-unsigned max_value (c ∷ d ∷ cs) h a = ground arith

strip_hex_prefix : (text : Text) → strip_prefix hex_prefix (hex_prefix ++ text) ≡ some text
unfolding strip_prefix
strip_hex_prefix text = ground arith

limit_u128 : u128_max < limit 32
limit_u128 = omega arith

write_zero : write_digits 32 0 [] ≡ b'0' ∷ []
unfolding write_digits
write_zero = refl

-- A written number is read as a strict quantity.
hex_digits-format_quantity :
    (n : ℕ) → n ≤ u128_max → hex_digits (string (format_quantity n)) ≡ ok (write_digits 32 n [])
unfolding hex_digits format_quantity
hex_digits-format_quantity n h =
    let there = write_digits-length 32 n [] (omega arith) in
    let all = write_digits-all 32 n [] refl in
    let prefix = strip_hex_prefix (write_digits 32 n []) in
    elim (Bool-cases (ltb 0 n)) [
      | inl positive ↦
          let head = write_digits-head 32 n [] (ground arith) (omega (arith, limit_u128)) in
          strict (write_digits 32 n []) prefix there all head
      | inr zero_ ↦ let e : n ≡ 0 = ground arith in ground (arith, e, write_zero, prefix)
    ]
  where
    strict :
        (text : Text)
        → strip_prefix hex_prefix (hex_prefix ++ text) ≡ some text
        → 0 < length text
        → all_hexdigits text ≡ true
        → starts_with_zero text ≡ false
        → hex_digits (string (hex_prefix ++ text)) ≡ ok text
    strict [] a b c d = absurd (omega arith)
    strict (x ∷ xs) a b c d = unfold hex_digits in ground (arith, a, c, d)

-- A number of 64 bits and a number of 128 bits, written as the answers of the server write them, are
-- read back by the strict parser of quantities and of amounts as the same numbers.
pub hex_word-format_quantity :
    (n m default : ℕ)
    → n ≤ u64_max
    → m ≤ u128_max
    → (hex_quantity (some (string (format_quantity n))) default ≡ ok n)
      × (hex_amount (some (string (format_quantity m))) default ≡ ok m)
unfolding hex_quantity hex_amount
hex_word-format_quantity n m default h k = (word n u64_max h (omega arith), word m u128_max k k)
  where
    ended : (max_value n : ℕ) → read_digits max_value n [] ≡ some n
    ended max_value n = unfold read_digits in refl

    word :
        (n max_value : ℕ)
        → n ≤ max_value
        → n ≤ u128_max
        → hex_word max_value (some (string (format_quantity n))) default ≡ ok n
    word n max_value h k =
        let digits = write_digits 32 n [] in
        let there = write_digits-length 32 n [] (omega arith) in
        let all = write_digits-all 32 n [] refl in
        let number =
          from_str_radix-unsigned max_value digits there all
          ∙ read-write_digits 32 max_value n [] h (omega (arith, limit_u128)) in
        unfold hex_word in ground (arith, hex_digits-format_quantity n k, number, ended max_value n)
