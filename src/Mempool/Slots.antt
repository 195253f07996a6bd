-- ===== src/Mempool/Slots.antt =====
-- crates/subhost-mempool/src/lib.rs: the slots and the queues after each update of the index.
use sub_host_demo.Base.{
  ℕ, ◌≡◌, true, none, some, [], ◌∷◌, arith, ◌==◌, nat_eq, if◌then◌else◌, ◌&&◌, Option-cases, inl,
  inr, is_empty,
}
use sub_host_demo.Core.{Address, Hash, Transaction}
use sub_host_demo.Map
use sub_host_demo.Map.{Map, get-insert, get-remove, get-retain, get-empty}
use sub_host_demo.Mempool.{Mempool, slot, or_empty, occupy, unslot, store_queue, release}

pub slot-occupy :
    (s : Address) (n : ℕ) (h : Hash) (tx : Transaction) (p : Mempool)
    → slot s n (occupy h tx p) ≡ (if (tx.from == s) && (tx.nonce == n) then some h else slot s n p)
unfolding slot occupy
slot-occupy s n h tx p =
    let nonces = or_empty (Map.get tx.from p.by_sender) in
    ground (
      arith,
      get-insert tx.from s (Map.insert tx.nonce h nonces) p.by_sender,
      get-insert tx.nonce n h nonces,
      get-empty {V = Hash} n,
    )

pub slot-unslot :
    (s s' : Address) (n n' : ℕ) (p : Mempool)
    → slot s' n' (unslot s n p) ≡ (if (s == s') && (n == n') then none else slot s' n' p)
unfolding slot unslot
slot-unslot s s' n n' p = elim (Option-cases (Map.get s p.by_sender)) [
  | inl missing ↦ ground arith
  | inr (nonces, e) ↦
      ground (arith, get-insert s s' (Map.remove n nonces) p.by_sender, get-remove n n' nonces)
]

empty-get : (n : ℕ) (nonces : Map ℕ Hash) → is_empty nonces ≡ true → Map.get n nonces ≡ none
empty-get n [] h = get-empty n
empty-get n (e ∷ m) h = cc

pub slot-store_queue :
    (s s' : Address) (n' : ℕ) (nonces : Map ℕ Hash) (p : Mempool)
    → slot s' n' (store_queue s nonces p) ≡ (if s == s' then Map.get n' nonces else slot s' n' p)
unfolding slot store_queue
slot-store_queue s s' n' nonces p =
    ground
      (arith, get-insert s s' nonces p.by_sender, get-remove s s' p.by_sender, empty-get n' nonces)

pub slot-release :
    (s s' : Address) (n n' : ℕ) (p : Mempool)
    → slot s' n' (release s n p) ≡ (if (s == s') && (n == n') then none else slot s' n' p)
unfolding release
slot-release s s' n n' p = elim (Option-cases (Map.get s p.by_sender)) [
  | inl missing ↦ unfold slot in ground arith
  | inr (nonces, e) ↦ ground (
    arith,
    slot-store_queue s s' n' (Map.remove n nonces) p,
    get-remove n n' nonces,
    there nonces e,
  )
]
  where
    there :
        (nonces : Map ℕ Hash)
        → Map.get s p.by_sender ≡ some nonces
        → slot s n' p ≡ Map.get n' nonces
    there nonces e = unfold slot in ground arith
