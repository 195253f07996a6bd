-- ===== src/Core/Signature.antt =====
-- `TransactionSignature`: the split of an ed25519 signature into `r` and `s`, and the payload
-- that is signed.
use sub_host_demo.Base.{ℕ, zero, suc, ◌≡◌, refl, List, [], ◌∷◌, ◌++◌, arith, length, ap}
use sub_host_demo.Core.{Byte, Transaction, TransactionSignature, Digest}

abbrev pub take : ℕ → List Byte → List Byte
take zero xs = []
take (suc n) [] = []
take (suc n) (x ∷ xs) = x ∷ take n xs

abbrev pub drop : ℕ → List Byte → List Byte
drop zero xs = xs
drop (suc n) [] = []
drop (suc n) (x ∷ xs) = drop n xs

abbrev pub replicate : ℕ → Byte → List Byte
replicate zero b = []
replicate (suc n) b = b ∷ replicate n b

unfoldable pub empty_signature : TransactionSignature
empty_signature = record { r = replicate 32 0; s = replicate 32 0; v = 0 }

unfoldable pub from_ed25519 : List Byte → TransactionSignature
from_ed25519 signature = record { r = take 32 signature; s = drop 32 signature; v = 0 }

unfoldable pub to_ed25519 : TransactionSignature → List Byte
to_ed25519 sig = sig.r ++ sig.s

module _ (d : Digest) where
  unfoldable pub signing_payload : Transaction → List Byte
  signing_payload tx = d.encode_transaction (record tx { signature = empty_signature })

take-append-drop : (n : ℕ) (xs : List Byte) → take n xs ++ drop n xs ≡ xs
take-append-drop zero xs = refl
take-append-drop (suc n) [] = refl
take-append-drop (suc n) (x ∷ xs) = ap (◌∷◌ x) (take-append-drop n xs)

take-append : (n : ℕ) (xs ys : List Byte) → length xs ≡ n → take n (xs ++ ys) ≡ xs
take-append zero [] ys h = refl
take-append (suc n) (x ∷ xs) ys h = ap (◌∷◌ x) (take-append n xs ys (omega arith))
take-append zero (x ∷ xs) ys h = absurd (omega arith)
take-append (suc n) [] ys h = absurd (omega arith)

drop-append : (n : ℕ) (xs ys : List Byte) → length xs ≡ n → drop n (xs ++ ys) ≡ ys
drop-append zero [] ys h = refl
drop-append (suc n) (x ∷ xs) ys h = drop-append n xs ys (omega arith)
drop-append zero (x ∷ xs) ys h = absurd (omega arith)
drop-append (suc n) [] ys h = absurd (omega arith)

-- An ed25519 signature survives the split and the join; a split signature whose `r` has 32 bytes
-- and whose `v` is 0 survives the join and the split; and two transactions that differ only in
-- their signatures have one signing payload.
pub signature_roundtrip :
    (d : Digest) (bytes : List Byte) (sig : TransactionSignature) (tx : Transaction)
    → length sig.r ≡ 32
    → sig.v ≡ 0
    → (to_ed25519 (from_ed25519 bytes) ≡ bytes)
      × (from_ed25519 (to_ed25519 sig) ≡ sig)
      × (signing_payload d (record tx { signature = sig }) ≡ signing_payload d tx)
unfolding from_ed25519 to_ed25519 signing_payload
signature_roundtrip d bytes sig tx n v0 = (
  take-append-drop 32 bytes,
  cc (take-append 32 sig.r sig.s n, drop-append 32 sig.r sig.s n),
  refl,
)
