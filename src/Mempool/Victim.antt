-- ===== src/Mempool/Victim.antt =====
-- crates/subhost-mempool/src/lib.rs: which transaction is evicted.
use sub_host_demo.Base.{◌≡◌, ◌⊎◌, refl, true, some, [], ◌∷◌, arith, nat_eq, Bool-cases, inl, inr}
use sub_host_demo.Core.{Hash, Transaction}
use sub_host_demo.Map
use sub_host_demo.Map.{Map}
use sub_host_demo.Map.Keys.{IsMap}
use sub_host_demo.Mempool.{cheaper, lowest_from, lowest}

abbrev Entry : Type 0
Entry = Hash × Transaction

cheaper-total : (a b : Entry) → (cheaper a b ≡ true) ⊎ (cheaper b a ≡ true)
unfolding cheaper
cheaper-total a b = ground arith

cheaper_trans : (a b c : Entry) → cheaper a b ≡ true → cheaper b c ≡ true → cheaper a c ≡ true
unfolding cheaper
cheaper_trans a b c h k = ground arith

-- The best so far, or an entry of the map.
lowest_from-there :
    (best : Entry) (m : Map Hash Transaction)
    → IsMap m
    → (lowest_from best m ≡ best) ⊎ (Map.get (lowest_from best m).0 m ≡ some (lowest_from best m).1)
unfolding lowest_from Map.get
lowest_from-there best [] h = inl refl
lowest_from-there best (e ∷ m) h = elim (Bool-cases (cheaper best e)) [
  | inl keep ↦ rw keep (ground (arith, lowest_from-there best m h.1))
  | inr change ↦ rw change (ground (arith, lowest_from-there e m h.1))
]

lowest_from-least :
    (best : Entry) (m : Map Hash Transaction)
    → (cheaper (lowest_from best m) best ≡ true)
      × ((j : Hash) (u : Transaction)
          → Map.get j m ≡ some u
          → cheaper (lowest_from best m) (j, u) ≡ true)
unfolding lowest_from Map.get
lowest_from-least best [] = (ground (arith, cheaper-total best best), λ j u e. cc)
lowest_from-least best (e ∷ m) = elim (Bool-cases (cheaper best e)) [
  | inl keep ↦ rw keep (
      let (b, l) = lowest_from-least best m in
      (b, λ j u x. ground (arith, l j u, cheaper_trans (lowest_from best m) best e b keep)))
  | inr change ↦ rw change (
      let (b, l) = lowest_from-least e m in
      (
        ground (arith, cheaper_trans (lowest_from e m) e best b, cheaper-total e best),
        λ j u x. ground (arith, l j u, b),
      ))
]

-- In a pool without a hash twice the victim is a pending transaction, and none is before it in
-- the order of eviction: in particular none pays less.
pub lowest_lem :
    (m : Map Hash Transaction) (v : Hash × Transaction)
    → IsMap m
    → lowest m ≡ some v
    → (Map.get v.0 m ≡ some v.1)
      × ((j : Hash) (u : Transaction) → Map.get j m ≡ some u → cheaper v (j, u) ≡ true)
unfolding lowest Map.get
lowest_lem [] v h e = cc
lowest_lem (x ∷ m) v h e =
    let (b, l) = lowest_from-least x m in
    (ground (arith, lowest_from-there x m h.1), λ j u there. ground (arith, l j u, b))
