-- ===== src/Mempool/Queue.antt =====
-- crates/subhost-mempool/src/lib.rs: the executable prefix of a sender's queue, and the order
-- of proposal.
use mathlib.Core.List.{Perm}
use sub_host_demo.Base.{
  ℕ, ◌+◌, ◌≡◌, ◌⊎◌, ◌∙◌, sym, true, Bool, some, List, [], ◌∷◌, arith, nat_eq, Option-cases, inl,
  inr, filter, leb, All, map, ⊤,
}
use sub_host_demo.Base.Sort.{sort_by-perm, sort_by-IsOrdered, IsOrdered}
use sub_host_demo.Core.{Address, Hash, Transaction, Digest}
use sub_host_demo.Map
use sub_host_demo.Map.{Map}
use sub_host_demo.Map.Keys.{IsMap}
use sub_host_demo.Map.Sorted.{sort, get-sort, sort-IsSorted, IsSorted-IsMap}
use sub_host_demo.Mempool.{Mempool, slot, ready_from, ready_for, proposes, pending}
use sub_host_demo.Mempool.Consistent.{IsConsistent, IsOwner}

-- Transactions of one sender, of the nonces from `n` on with no gap.
abbrev pub IsRun : Address → ℕ → List Transaction → Type 0
IsRun s n [] = ⊤
IsRun s n (tx ∷ txs) = (tx.from ≡ s) × (tx.nonce ≡ n) × IsRun s (n + 1) txs

-- Every entry of a queue leads to a transaction of its sender and nonce.
abbrev Owned : Mempool → Address → Map ℕ Hash → Type 0
Owned p s = All (λ (e : ℕ × Hash). IsOwner s e.0 (Map.get e.1 p.txs))

ready_from-IsRun :
    (p : Mempool) (s : Address) (n : ℕ) (q : Map ℕ Hash)
    → Owned p s q
    → IsRun s n (ready_from p.txs n q)
unfolding ready_from
ready_from-IsRun p s n [] h = tt
ready_from-IsRun p s n ((m, k) ∷ q) h = ground (arith, ready_from-IsRun p s (n + 1) q h.1)

Owned-filter :
    (p : Mempool) (s : Address) (t : ℕ × Hash → Bool) (q : Map ℕ Hash)
    → Owned p s q
    → Owned p s (filter t q)
Owned-filter p s t [] h = tt
Owned-filter p s t (e ∷ q) h = ground (arith, Owned-filter p s t q h.1)

Owned-of_get :
    (p : Mempool) (s : Address) (q : Map ℕ Hash)
    → IsMap q
    → ((n : ℕ) (h : Hash) → Map.get n q ≡ some h → IsOwner s n (Map.get h p.txs))
    → Owned p s q
unfolding Map.get
Owned-of_get p s [] m f = tt
Owned-of_get p s ((n, h) ∷ q) m f =
    (f n h (ground arith), Owned-of_get p s q m.1 (λ j k e. f j k (ground (arith, m.0))))

slot_of_queue :
    (p : Mempool) (s : Address) (q : Map ℕ Hash) (n : ℕ)
    → Map.get s p.by_sender ≡ some q
    → slot s n p ≡ Map.get n q
unfolding slot
slot_of_queue p s q n e = ground arith

-- In a consistent pool, what is ready for a sender is a run of its transactions, of consecutive
-- nonces from the given one on.
pub ready_for-IsRun :
    (d : Digest) (s : Address) (next : ℕ) (p : Mempool)
    → IsConsistent d p
    → IsRun s next (ready_for s next p)
unfolding ready_for
ready_for-IsRun d s next p c = elim (Option-cases (Map.get s p.by_sender)) [
  | inl missing ↦ rw (missing, ready_for) tt
  | inr (q, e) ↦
      let m = c.nonce_keys s q e in
      rw (e, ready_for)
        (ready_from-IsRun p s next (filter (λ (x : ℕ × Hash). leb next x.0) (sort q)) (
          Owned-filter p s (λ (x : ℕ × Hash). leb next x.0) (sort q)
            (Owned-of_get p s (sort q) (IsSorted-IsMap (sort q) (sort-IsSorted q m))
              (λ n h e'. c.owned s n h (slot_of_queue p s q n e ∙ sym (get-sort n q m) ∙ e')))))
]

proposes-total : (a b : Transaction) → (proposes a b ≡ true) ⊎ (proposes b a ≡ true)
unfolding proposes
proposes-total a b = ground arith

proposes_trans :
    (a b c : Transaction) → proposes a b ≡ true → proposes b c ≡ true → proposes a c ≡ true
unfolding proposes
proposes_trans a b c h k = ground arith

-- The proposal holds every pending transaction once, dearer ones first, and among equals the lower
-- sender and then the lower nonce first.
pub pending-IsOrdered :
    (p : Mempool)
    → IsOrdered proposes (pending p)
      × Perm (pending p) (map (λ (e : Hash × Transaction). e.1) p.txs)
unfolding pending
pending-IsOrdered p =
    let txs = map (λ (e : Hash × Transaction). e.1) p.txs in
    (sort_by-IsOrdered proposes proposes-total proposes_trans txs, sort_by-perm proposes txs)
