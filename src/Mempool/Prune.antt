-- ===== src/Mempool/Prune.antt =====
-- crates/subhost-mempool/src/lib.rs: what `prune_below_nonce` drops and what it keeps.
use sub_host_demo.Base.{
  ℕ, ◌<◌, ◌≡◌, ◌∙◌, sym, refl, true, false, Bool, Option, none, some, List, [], ◌∷◌, arith, ◌==◌,
  nat_eq, if◌then◌else◌, Option-cases, Bool-cases, inl, inr, filter, ltb, leb, elem, ◌&&◌,
}
use sub_host_demo.Core.{Address, Hash, Transaction, Digest}
use sub_host_demo.Map
use sub_host_demo.Map.{Map, get-remove, get-retain}
use sub_host_demo.Map.Keys.{IsMap}
use sub_host_demo.Map.Sorted.{sort, get-sort, sort-IsSorted, IsSorted-IsMap}
use sub_host_demo.Mempool.{Mempool, slot, get_tx, drop_all, store_queue, prune_below_nonce}
use sub_host_demo.Mempool.Slots.{slot-store_queue}
use sub_host_demo.Mempool.Consistent.{IsConsistent, IsOwner}

-- A transaction of the sender below the nonce.
abbrev pub is_stale : Address → ℕ → Option Transaction → Bool
is_stale s next none = false
is_stale s next (some tx) = (tx.from == s) && ltb tx.nonce next

hashes : List (ℕ × Hash) → List Hash
hashes [] = []
hashes ((n, h) ∷ q) = h ∷ hashes q

get-drop_all :
    (j : Hash) (q : List (ℕ × Hash)) (txs : Map Hash Transaction)
    → Map.get j (drop_all q txs) ≡ (if elem j (hashes q) then none else Map.get j txs)
unfolding drop_all hashes
get-drop_all j [] txs = refl
get-drop_all j ((n, h) ∷ q) txs =
    ground (arith, get-drop_all j q (Map.remove h txs), get-remove h j txs)

module _ (next : ℕ) (j : Hash) where
  listed :
      (q : Map ℕ Hash) (n : ℕ)
      → Map.get n q ≡ some j
      → n < next
      → elem j (hashes (filter (λ (e : ℕ × Hash). ltb e.0 next) q)) ≡ true
  unfolding Map.get hashes
  listed [] n h l = cc
  listed ((m, k) ∷ q) n h l = ground (arith, listed q n)

  unlisted :
      (q : Map ℕ Hash)
      → IsMap q
      → elem j (hashes (filter (λ (e : ℕ × Hash). ltb e.0 next) q)) ≡ true
      → (n : ℕ) × (n < next) × (Map.get n q ≡ some j)
  unfolding Map.get hashes
  unlisted [] u h = cc
  unlisted ((m, k) ∷ q) u h = elim (Bool-cases (ltb m next && (j == k))) [
    | inl here ↦ (m, ground arith, ground arith)
    | inr elsewhere ↦
        let (n, low, e) = unlisted q u.1 (ground arith) in (n, low, ground (arith, u.0))
  ]

txs-store_queue : (s : Address) (q : Map ℕ Hash) (p : Mempool) → (store_queue s q p).txs ≡ p.txs
unfolding store_queue
txs-store_queue s q p = refl

slot_of :
    (s : Address) (n : ℕ) (nonces : Map ℕ Hash) (p : Mempool)
    → Map.get s p.by_sender ≡ some nonces
    → slot s n p ≡ Map.get n nonces
unfolding slot
slot_of s n nonces p e = ground arith

module _ (d : Digest) (s : Address) (next : ℕ) (p : Mempool) (c : IsConsistent d p) where
  module _ (nonces : Map ℕ Hash) (e : Map.get s p.by_sender ≡ some nonces) (j : Hash) where
    stale_listed :
        (u : Transaction)
        → Map.get j p.txs ≡ some u
        → is_stale s next (some u) ≡ true
        → elem j (hashes (filter (λ (e : ℕ × Hash). ltb e.0 next) (sort nonces))) ≡ true
    stale_listed u there stale =
        listed next j (sort nonces) u.nonce
          (ground (
            arith,
            c.indexed j u there,
            slot_of s u.nonce nonces p e,
            get-sort u.nonce nonces (c.nonce_keys s nonces e),
          ))
          (ground arith)

    listed_stale :
        elem j (hashes (filter (λ (e : ℕ × Hash). ltb e.0 next) (sort nonces))) ≡ true
        → is_stale s next (Map.get j p.txs) ≡ true
    listed_stale h =
        let q = sort nonces in
        let keys = c.nonce_keys s nonces e in
        let (n, low, found) = unlisted next j q (IsSorted-IsMap q (sort-IsSorted nonces keys)) h in
        owner_stale n low
          (c.owned s n j (slot_of s n nonces p e ∙ (sym (get-sort n nonces keys) ∙ found)))
      where
        owner_stale :
            (n : ℕ)
            → n < next
            → IsOwner s n (Map.get j p.txs)
            → is_stale s next (Map.get j p.txs) ≡ true
        owner_stale n low o = ground arith

    txs_after :
        Map.get j (drop_all (filter (λ (e : ℕ × Hash). ltb e.0 next) (sort nonces)) p.txs)
        ≡ (if is_stale s next (Map.get j p.txs) then none else Map.get j p.txs)
    txs_after =
        let stale = filter (λ (e : ℕ × Hash). ltb e.0 next) (sort nonces) in
        elim (Option-cases (Map.get j p.txs)) [
          | inl missing ↦ ground (arith, get-drop_all j stale p.txs)
          | inr (u, there) ↦
              ground (arith, get-drop_all j stale p.txs, stale_listed u there, listed_stale)
        ]

  no_queue : Map.get s p.by_sender ≡ none → (j : Hash) → is_stale s next (Map.get j p.txs) ≡ false
  no_queue e j = elim (Option-cases (Map.get j p.txs)) [
    | inl missing ↦ rw missing
    | inr (u, there) ↦ ground (arith, c.indexed j u there, slotless u.nonce)
  ]
    where
      slotless : (n : ℕ) → slot s n p ≡ none
      slotless n = unfold slot in ground arith

  pruned : Map ℕ Hash → Mempool
  pruned nonces = record p {
    txs = drop_all (filter (λ (e : ℕ × Hash). ltb e.0 next) (sort nonces)) p.txs;
  }

  prune_missing : Map.get s p.by_sender ≡ none → (prune_below_nonce s next p).1 ≡ p
  unfolding prune_below_nonce
  prune_missing e = ground arith

  prune_found :
      (nonces : Map ℕ Hash)
      → Map.get s p.by_sender ≡ some nonces
      → (prune_below_nonce s next p).1
        ≡ store_queue s (Map.retain (λ n. leb next n) nonces) (pruned nonces)
  unfolding prune_below_nonce pruned
  prune_found nonces e = ground arith

  txs_pruned :
      (nonces : Map ℕ Hash) (j : Hash)
      → Map.get s p.by_sender ≡ some nonces
      → get_tx j (store_queue s (Map.retain (λ n. leb next n) nonces) (pruned nonces))
        ≡ (if is_stale s next (get_tx j p) then none else get_tx j p)
  unfolding get_tx store_queue pruned
  txs_pruned nonces j e = txs_after nonces e j

  slot-pruned : (a : Address) (n : ℕ) (nonces : Map ℕ Hash) → slot a n (pruned nonces) ≡ slot a n p
  unfolding slot pruned
  slot-pruned a n nonces = refl

  stale_get_tx : Map.get s p.by_sender ≡ none → (j : Hash) → is_stale s next (get_tx j p) ≡ false
  unfolding get_tx
  stale_get_tx e j = no_queue e j

  slotless : Map.get s p.by_sender ≡ none → (n : ℕ) → slot s n p ≡ none
  unfolding slot
  slotless e n = ground arith

  -- From a consistent pool, pruning a sender below a nonce drops the pending transactions of this
  -- sender with a lower nonce, and their slots, and keeps every other transaction and every other
  -- slot.
  pub prune_below_nonce_exact :
      ((j : Hash)
        → get_tx j (prune_below_nonce s next p).1
          ≡ (if is_stale s next (get_tx j p) then none else get_tx j p))
      × ((a : Address) (n : ℕ)
          → slot a n (prune_below_nonce s next p).1
            ≡ (if (s == a) && ltb n next then none else slot a n p))
  prune_below_nonce_exact = elim (Option-cases (Map.get s p.by_sender)) [
    | inl missing ↦ (
      (λ j. rw (prune_missing missing) (rw (stale_get_tx missing j))),
      (λ a n. rw (prune_missing missing) (ground (arith, slotless missing n))),
    )
    | inr (nonces, e) ↦ (
      (λ j. rw (prune_found nonces e) (txs_pruned nonces j e)),
      (λ a n. rw (prune_found nonces e) (
          ground (
            arith,
            slot-store_queue s a n (Map.retain (λ n. leb next n) nonces) (pruned nonces),
            get-retain (λ n. leb next n) n nonces,
            slot_of s n nonces p e,
            slot-pruned a n nonces,
          ))),
    )
  ]
