-- ===== src/Map/Updates.antt =====
-- Updates of a map that cancel or repeat one another.
use sub_host_demo.Base.{◌≡◌, ◌≢◌, ◌⊎◌, inl, inr, Bool-cases, some, [], ◌∷◌, arith, Eq, ◌==◌}
use sub_host_demo.Map.{Map, get, insert, get-insert}

module _ {K V : Type 0} ⦃e : Eq K⦄ where
  -- To write the value that is there changes nothing.
  pub insert_same : (k : K) (v : V) (m : Map K V) → get k m ≡ some v → insert k v m ≡ m
  unfolding get insert
  insert_same k v [] h = cc
  insert_same k v ((j, w) ∷ m) h = ground (arith, insert_same k v m)

  pub insert-insert : (k : K) (v w : V) (m : Map K V) → insert k w (insert k v m) ≡ insert k w m
  unfolding insert
  insert-insert k v w [] = ground (arith, e.beq_iff k k)
  insert-insert k v w ((j, u) ∷ m) = ground (arith, e.beq_iff j k, insert-insert k v w m)

  -- What a key reads after a write.
  pub get-insert_cases :
      (k j : K) (v : V) (m : Map K V)
      → ((k ≡ j) × (get j (insert k v m) ≡ some v)) ⊎ ((k ≢ j) × (get j (insert k v m) ≡ get j m))
  get-insert_cases k j v m = elim (Bool-cases (k == j)) [
    | inl same ↦ inl ((e.beq_iff k j).0 same, rw get-insert (rw same))
    | inr other ↦ inr (λ h. ground (arith, e.beq_iff k j), rw get-insert (rw other))
  ]
