-- ===== src/Consensus/HotStuff/Payload.antt =====
-- crates/subhost-consensus/src/lib.rs: the signed payload binds the view and the block.
use native.Mathlib.Nat.{pow-suc}
use sub_host_demo.Base.{
  ℕ, zero, suc, ◌+◌, ◌*◌, ◌/◌, ◌%◌, ◌^◌, ◌<◌, ◌≡◌, ◌∙◌, sym, ap, refl, List, [], ◌∷◌, ◌++◌, arith,
  length, length-append,
}
use sub_host_demo.Core.{Byte, Hash}
use sub_host_demo.Consensus.HotStuff.{be_bytes, payload_for, domain}

read_from : ℕ → List Byte → ℕ
read_from acc [] = acc
read_from acc (x ∷ xs) = read_from (acc * 256 + x) xs

read_from-append :
    (acc : ℕ) (xs : List Byte) (x : Byte)
    → read_from acc (xs ++ x ∷ []) ≡ read_from acc xs * 256 + x
unfolding read_from
read_from-append acc [] x = refl
read_from-append acc (y ∷ xs) x = read_from-append (acc * 256 + y) xs x

-- Reading the bytes of a number that fits gives the number back.
be_bytes-roundtrip : (w n : ℕ) → n < 256 ^ w → read_from 0 (be_bytes w n) ≡ n
unfolding be_bytes
be_bytes-roundtrip zero n h = unfold read_from in omega arith
be_bytes-roundtrip (suc w) n h =
    rw read_from-append
      (omega (arith, be_bytes-roundtrip w (n / 256) (omega (arith, pow-suc 256 w)), pow-suc 256 w))

length-be_bytes : (w n : ℕ) → length (be_bytes w n) ≡ w
unfolding be_bytes
length-be_bytes zero n = refl
length-be_bytes (suc w) n =
    omega
      (arith, length-append (be_bytes w (n / 256)) ((n % 256) ∷ []), length-be_bytes w (n / 256))

append-injective :
    (xs ys us vs : List Byte) → length xs ≡ length ys → xs ++ us ≡ ys ++ vs → (xs ≡ ys) × (us ≡ vs)
append-injective [] [] us vs h e = (refl, e)
append-injective [] (y ∷ ys) us vs h e = absurd (omega arith)
append-injective (x ∷ xs) [] us vs h e = absurd (omega arith)
append-injective (x ∷ xs) (y ∷ ys) us vs h e =
    let (p, q) = append-injective xs ys us vs (omega arith) (cc) in (cc, q)

-- Two certificates with one payload have one view and one block: a signature for one view or block
-- is none for another. Views are u64 and hashes 32 bytes.
pub payload_for-injective :
    (v w : ℕ) (h k : Hash)
    → v < 2 ^ 64
    → w < 2 ^ 64
    → h < 2 ^ 256
    → k < 2 ^ 256
    → payload_for v h ≡ payload_for w k
    → (v ≡ w) × (h ≡ k)
unfolding payload_for
payload_for-injective v w h k bv bw bh bk e =
    let (_, rest) =
      append-injective domain domain (be_bytes 8 v ++ be_bytes 32 h) (be_bytes 8 w ++ be_bytes 32 k)
        refl e in
    let (p, q) =
      append-injective (be_bytes 8 v) (be_bytes 8 w) (be_bytes 32 h) (be_bytes 32 k)
        (length-be_bytes 8 v ∙ sym (length-be_bytes 8 w)) rest in
    (
      sym (be_bytes-roundtrip 8 v (omega arith))
          ∙ ap (read_from 0) p
          ∙ be_bytes-roundtrip 8 w (omega arith),
      sym (be_bytes-roundtrip 32 h (omega arith))
          ∙ ap (read_from 0) q
          ∙ be_bytes-roundtrip 32 k (omega arith),
    )
