-- ===== src/Storage/Reorder.antt =====
-- crates/subhost-storage/src/lib.rs: the order of the receipts of a ledger does not matter.
use sub_host_demo.Base.{
  ℕ, suc, ◌≡◌, ◌∙◌, sym, inl, inr, refl, Bool, false, List, [], ◌∷◌, arith, nat_eq, length, elem,
  All, Bool-cases,
}
use sub_host_demo.Base.Sort.{place, sort_by}
use sub_host_demo.Core.{Hash, Block, Receipt}
use sub_host_demo.State.{State}
use sub_host_demo.Storage.Chain.{Codec}
use sub_host_demo.Storage.Spec.{IsReceipt, AreApart, IsLedger}

module _ {A : Type 0} (le : A → A → Bool) where
  length-place : (a : A) (xs : List A) → length (place le a xs) ≡ suc (length xs)
  unfolding place
  length-place a [] = refl
  length-place a (b ∷ xs) = ground (arith, length-place a xs)

  length-sort_by : (xs : List A) → length (sort_by le xs) ≡ length xs
  unfolding sort_by
  length-sort_by [] = refl
  length-sort_by (a ∷ xs) = omega (arith, length-place a (sort_by le xs), length-sort_by xs)

  All-place : (P : A → Type 0) (a : A) (xs : List A) → P a → All P xs → All P (place le a xs)
  unfolding place
  All-place P a [] h k = (h, tt)
  All-place P a (b ∷ xs) h k = elim (Bool-cases (le a b)) [
    | inl e ↦ rw e (h, k)
    | inr e ↦ rw e (k.0, All-place P a xs h k.1)
  ]

  All-sort_by : (P : A → Type 0) (xs : List A) → All P xs → All P (sort_by le xs)
  unfolding sort_by
  All-sort_by P [] h = tt
  All-sort_by P (a ∷ xs) h = All-place P a (sort_by le xs) h.0 (All-sort_by P xs h.1)

AreApart-ext :
    (seen seen' : List Hash) (rs : List Receipt)
    → ((h : Hash) → elem h seen ≡ elem h seen')
    → AreApart seen rs
    → AreApart seen' rs
AreApart-ext seen seen' [] e a = tt
AreApart-ext seen seen' (r ∷ rs) e a = (
  sym (e r.block_hash) ∙ a.0,
  AreApart-ext (r.block_hash ∷ seen) (r.block_hash ∷ seen') rs (λ h. rw (e h) refl) a.1,
)

module _ (le : Receipt → Receipt → Bool) where
  AreApart-place :
      (seen : List Hash) (r : Receipt) (rs : List Receipt)
      → elem r.block_hash seen ≡ false
      → AreApart (r.block_hash ∷ seen) rs
      → AreApart seen (place le r rs)
  unfolding place
  AreApart-place seen r [] e a = (e, tt)
  AreApart-place seen r (x ∷ rs) e a = elim (Bool-cases (le r x)) [
    | inl first ↦ rw first (e, a)
    | inr later ↦
        let apart : elem r.block_hash (x.block_hash ∷ seen) ≡ false = ground (arith, a.0, e) in
        let swapped =
          AreApart-ext (x.block_hash ∷ r.block_hash ∷ seen) (r.block_hash ∷ x.block_hash ∷ seen) rs
            (λ h. ground arith) a.1 in
        rw later (ground (arith, a.0), AreApart-place (x.block_hash ∷ seen) r rs apart swapped)
  ]

  AreApart-sort_by :
      (seen : List Hash) (rs : List Receipt) → AreApart seen rs → AreApart seen (sort_by le rs)
  unfolding sort_by
  AreApart-sort_by seen [] a = tt
  AreApart-sort_by seen (r ∷ rs) a =
      AreApart-place seen r (sort_by le rs) a.0 (AreApart-sort_by (r.block_hash ∷ seen) rs a.1)

  -- A valid ledger with its receipts in another order is valid.
  pub sort_by-IsLedger :
      (c : Codec) (chain_id : ℕ) (s : State) (blocks : List Block) (receipts : List Receipt)
      → IsLedger c chain_id s blocks receipts
      → IsLedger c chain_id s blocks (sort_by le receipts)
  sort_by-IsLedger c chain_id s blocks receipts h = record {
    linked = h.linked;
    counted = h.counted ∙ sym (length-sort_by le receipts);
    apart = AreApart-sort_by [] receipts h.apart;
    described = All-sort_by le (IsReceipt c blocks) receipts h.described;
    rooted = h.rooted;
  }
