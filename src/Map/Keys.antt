-- ===== src/Map/Keys.antt =====
-- No key twice, and the number of entries.
use sub_host_demo.Base.{◌+◌, ◌≡◌, refl, Bool, none, [], ◌∷◌, arith, Eq, length, if◌then◌else◌}
use sub_host_demo.Map.{
  Map, get, insert, remove, retain, contains, get-insert, get-remove, get-retain,
}
use sub_host_demo.Base.{◌≤◌}

module _ {K V : Type 0} ⦃e : Eq K⦄ where
  -- Every map of the program is built by the operations above from the empty one.
  abbrev pub IsMap : Map K V → Type 0
  IsMap [] = Unit
  IsMap ((k, v) ∷ m) = (get k m ≡ none) × IsMap m

  pub insert-IsMap : (k : K) (v : V) (m : Map K V) → IsMap m → IsMap (insert k v m)
  unfolding insert get
  insert-IsMap k v [] h = (refl, tt)
  insert-IsMap k v ((j, w) ∷ m) h =
      ground (arith, insert-IsMap k v m h.1, get-insert k j v m, e.beq_iff k j, e.beq_iff j k)

  pub remove-IsMap : (k : K) (m : Map K V) → IsMap m → IsMap (remove k m)
  unfolding remove
  remove-IsMap k [] h = tt
  remove-IsMap k ((j, w) ∷ m) h = ground (arith, remove-IsMap k m h.1, get-remove k j m)

  pub retain-IsMap : (p : K → Bool) (m : Map K V) → IsMap m → IsMap (retain p m)
  unfolding retain
  retain-IsMap p [] h = tt
  retain-IsMap p ((j, w) ∷ m) h = ground (arith, retain-IsMap p m h.1, get-retain p j m)

  pub length-insert :
      (k : K) (v : V) (m : Map K V)
      → length (insert k v m) ≡ (if contains k m then length m else length m + 1)
  unfolding insert get
  length-insert k v [] = omega arith
  length-insert k v ((j, w) ∷ m) = ground (arith, length-insert k v m)

  pub remove_absent : (k : K) (m : Map K V) → get k m ≡ none → remove k m ≡ m
  unfolding remove get
  remove_absent k [] h = refl
  remove_absent k ((j, w) ∷ m) h = ground (arith, remove_absent k m)

  pub length-remove :
      (k : K) (m : Map K V)
      → IsMap m
      → length (remove k m) + (if contains k m then 1 else 0) ≡ length m
  unfolding remove get
  length-remove k [] h = omega arith
  length-remove k ((j, w) ∷ m) h =
      ground (arith, length-remove k m h.1, remove_absent k m, e.beq_iff j k)

  pub length-retain-le : (p : K → Bool) (m : Map K V) → length (retain p m) ≤ length m
  unfolding retain
  length-retain-le p [] = omega arith
  length-retain-le p ((j, w) ∷ m) = ground (arith, length-retain-le p m)
