-- ===== src/Consensus/Quorum.antt =====
-- crates/subhost-consensus/src/lib.rs: what the quorum sizes guarantee.
use mathlib.Core.Path.{subst}
use sub_host_demo.Base.{
  zero, suc, max, ◌-◌, sym, ℕ, ◌+◌, ◌*◌, ◌%◌, ◌≤◌, ◌<◌, ◌≡◌, ◌↔◌, refl, arith, ok, List, [], ◌∷◌,
  true, false, ◌==◌, nat_eq, elem, length, filter, ◌&&◌, ⊤, if◌then◌else◌,
}
use sub_host_demo.Consensus.{ConsensusConfig, new}
use sub_host_demo.Consensus.Staking

-- No address twice.
abbrev pub IsDistinct : List ℕ → Type 0
IsDistinct [] = ⊤
IsDistinct (a ∷ xs) = (elem a xs ≡ false) × IsDistinct xs

-- The signers of both lists.
unfoldable pub common : List ℕ → List ℕ → List ℕ
common xs ys = filter (λ a. elem a ys) xs

without : ℕ → List ℕ → List ℕ
without a [] = []
without a (y ∷ ys) = let rest = without a ys in if y == a then rest else y ∷ rest

elem-without :
    (a b : ℕ) (ys : List ℕ) → elem b (without a ys) ≡ (if b == a then false else elem b ys)
unfolding without
elem-without a b [] = ground arith
elem-without a b (y ∷ ys) = ground (arith, elem-without a b ys)

without_absent : (a : ℕ) (ys : List ℕ) → elem a ys ≡ false → without a ys ≡ ys
unfolding without
without_absent a [] h = refl
without_absent a (y ∷ ys) h = ground (arith, without_absent a ys)

IsDistinct-without : (a : ℕ) (ys : List ℕ) → IsDistinct ys → IsDistinct (without a ys)
unfolding without
IsDistinct-without a [] h = tt
IsDistinct-without a (y ∷ ys) h = ground (arith, IsDistinct-without a ys h.1, elem-without a y ys)

length-without :
    (a : ℕ) (ys : List ℕ)
    → IsDistinct ys
    → length (without a ys) + (if elem a ys then 1 else 0) ≡ length ys
unfolding without
length-without a [] h = omega arith
length-without a (y ∷ ys) h = ground (arith, length-without a ys h.1, without_absent a ys)

-- Every member is among the validators.
abbrev pub Within : List ℕ → List ℕ → Type 0
Within xs all = (a : ℕ) → elem a xs ≡ true → elem a all ≡ true

common-without :
    (a : ℕ) (xs ys : List ℕ) → elem a xs ≡ false → common xs (without a ys) ≡ common xs ys
unfolding common
common-without a [] ys h = refl
common-without a (x ∷ xs) ys h = ground (arith, common-without a xs ys, elem-without a x ys)

length-common :
    (a : ℕ) (xs ys : List ℕ)
    → IsDistinct xs
    → length (common (without a xs) (without a ys)) + (if elem a xs && elem a ys then 1 else 0)
      ≡ length (common xs ys)
unfolding common without
length-common a [] ys h = omega arith
length-common a (x ∷ xs) ys h = ground (
  arith,
  length-common a xs ys h.1,
  elem-without a x ys,
  without_absent a xs,
  common-without a xs ys,
)

Within-without : (a : ℕ) (xs all : List ℕ) → Within xs (a ∷ all) → Within (without a xs) all
Within-without a xs all w b e = ground (arith, w b, elem-without a b xs)

Within-nil : (xs : List ℕ) → Within xs [] → length xs ≡ 0
Within-nil [] w = refl
Within-nil (x ∷ xs) w = ground (arith, w x)

-- Two sets of signers among `all` share at least what their sizes force.
pub overlap :
    (all xs ys : List ℕ)
    → IsDistinct xs
    → IsDistinct ys
    → Within xs all
    → Within ys all
    → length xs + length ys ≤ length all + length (common xs ys)
overlap [] xs ys dx dy wx wy = omega (arith, Within-nil xs wx, Within-nil ys wy)
overlap (a ∷ all) xs ys dx dy wx wy = ground (
  arith,
  overlap all (without a xs) (without a ys) (IsDistinct-without a xs dx)
      (IsDistinct-without a ys dy) (Within-without a xs all wx) (Within-without a ys all wy),
  length-without a xs dx,
  length-without a ys dy,
  length-common a xs ys dx,
)

-- Any two sets of distinct signers of the quorum size, among `3f + 1` validators, have at least
-- `f + 1` signers in common, so that `f` faulty validators cannot sign for both sides alone.
pub quorum_intersection :
    (c : ConsensusConfig) (all xs ys : List ℕ)
    → new (length all) ≡ ok c
    → length all % 3 ≡ 1
    → IsDistinct xs
    → IsDistinct ys
    → Within xs all
    → Within ys all
    → c.quorum_threshold ≤ length xs
    → c.quorum_threshold ≤ length ys
    → c.max_faulty + 1 ≤ length (common xs ys)
unfolding new
quorum_intersection c all xs ys e third dx dy wx wy qx qy =
    ground (arith, overlap all xs ys dx dy wx wy)

-- The validators `start`, `start + 1` and so on, `count` of them.
interval : ℕ → ℕ → List ℕ
interval start zero = []
interval start (suc count) = start ∷ interval (start + 1) count

length-interval : (start count : ℕ) → length (interval start count) ≡ count
unfolding interval
length-interval start zero = refl
length-interval start (suc count) = omega (arith, length-interval (start + 1) count)

elem-interval :
    (a start count : ℕ)
    → ((elem a (interval start count) ≡ true) → (start ≤ a) × (a < start + count))
      × ((start ≤ a) → (a < start + count) → elem a (interval start count) ≡ true)
unfolding interval
elem-interval a start zero = (λ h. absurd (ground arith), λ h k. absurd (omega arith))
elem-interval a start (suc count) =
    let rest = elem-interval a (start + 1) count in (λ h. ground arith, λ h k. ground arith)

interval-IsDistinct : (start count : ℕ) → IsDistinct (interval start count)
unfolding interval
interval-IsDistinct start zero = tt
interval-IsDistinct start (suc count) = (
  ground (arith, (elem-interval start (start + 1) count).0),
  interval-IsDistinct (start + 1) count,
)

interval-Within :
    (start count n : ℕ) → start + count ≤ n → Within (interval start count) (interval 0 n)
interval-Within start count n h a e =
    let (low, high) = (elem-interval a start count).0 e in
    (elem-interval a 0 n).1 (omega arith) (omega arith)

-- Two intervals share no more than the end of the one from the start of the other.
common-interval :
    (a b start count : ℕ)
    → length (common (interval a b) (interval start count)) ≤ a + b - max a start
unfolding common interval
common-interval a zero start count = omega arith
common-interval a (suc b) start count =
    ground (arith, common-interval (a + 1) b start count, (elem-interval a start count).0)

-- Any two sets of signers of the quorum size among some validators share more than `max_faulty`.
abbrev pub Intersect : ConsensusConfig → ℕ → Type 0
Intersect c n =
    (all xs ys : List ℕ)
    → length all ≡ n
    → IsDistinct xs
    → IsDistinct ys
    → Within xs all
    → Within ys all
    → c.quorum_threshold ≤ length xs
    → c.quorum_threshold ≤ length ys
    → c.max_faulty + 1 ≤ length (common xs ys)

-- The first and the last quorum.
overlapping_sizes :
    (n q : ℕ) (c : ConsensusConfig)
    → c.quorum_threshold ≡ q
    → q ≤ n
    → Intersect c n
    → n + c.max_faulty < 2 * q
overlapping_sizes n q c e small h =
    let shared =
      h (interval 0 n) (interval 0 q) (interval (n - q) q) (length-interval 0 n)
        (interval-IsDistinct 0 q) (interval-IsDistinct (n - q) q)
        (interval-Within 0 q n (omega arith)) (interval-Within (n - q) q n (omega arith))
        (omega (arith, e, length-interval 0 q)) (omega (arith, e, length-interval (n - q) q)) in
    omega (arith, shared, common-interval 0 q (n - q) q)

third_of :
    (n : ℕ) (c : ConsensusConfig)
    → new n ≡ ok c
    → n + c.max_faulty < 2 * c.quorum_threshold
    → n % 3 ≡ 1
unfolding new
third_of n c e h = ground arith

sizes_of :
    (n : ℕ) (c : ConsensusConfig)
    → new n ≡ ok c
    → (c.quorum_threshold + c.max_faulty ≤ n) × (Staking.quorum_threshold n ≡ c.quorum_threshold)
unfolding new Staking.quorum_threshold
sizes_of n c e = (ground arith, ground arith)

-- Any two sets of distinct signers of the quorum size have more than `max_faulty` members in common
-- exactly when the number of validators is one more than a multiple of three; the honest
-- validators alone always reach the quorum, and staking counts the same quorum.
pub quorum_sizes :
    (n : ℕ) (c : ConsensusConfig)
    → new n ≡ ok c
    → (Intersect c n ↔ (n % 3 ≡ 1))
      × (c.quorum_threshold + c.max_faulty ≤ n)
      × (Staking.quorum_threshold n ≡ c.quorum_threshold)
quorum_sizes n c e =
    let (reach, same) = sizes_of n c e in
    (
      (
        (λ h. third_of n c e (overlapping_sizes n c.quorum_threshold c refl (omega arith) h)),
        (λ third all xs ys l dx dy wx wy qx qy.
            quorum_intersection c all xs ys (subst (λ k. new k ≡ ok c) (sym l) e)
              (subst (λ k. k % 3 ≡ 1) (sym l) third) dx dy wx wy qx qy),
      ),
      reach,
      same,
    )
