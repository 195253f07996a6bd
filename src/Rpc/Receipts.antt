-- ===== src/Rpc/Receipts.antt =====
-- crates/subhost-rpc/src/lib.rs: the receipts that `with_store` collects from a restored ledger are those that
-- `persist` sorted.
use sub_host_demo.Base.{
  ◌≡◌, ◌∙◌, ap, refl, Bool, Option, none, some, List, [], ◌∷◌, arith, ◌==◌, nat_eq, All,
  if◌then◌else◌, ⊤,
}
use sub_host_demo.Base.Sort.{place, sort_by}
use sub_host_demo.Core.{Hash, Receipt}
use sub_host_demo.Map
use sub_host_demo.Map.{Map, get-insert, get-empty}
use sub_host_demo.Map.Keys.{IsMap}
use sub_host_demo.Rpc.{values, collect_receipts}

abbrev or_else : Option Receipt → Option Receipt → Option Receipt
or_else (some x) _ = some x
or_else none o = o

-- The last receipt of a transaction.
abbrev latest : Hash → List Receipt → Option Receipt
latest h [] = none
latest h (r ∷ rs) = or_else (latest h rs) (if r.tx_hash == h then some r else none)

-- No transaction with two receipts.
abbrev AreOnce : List Receipt → Type 0
AreOnce [] = ⊤
AreOnce (r ∷ rs) = (latest r.tx_hash rs ≡ none) × AreOnce rs

get-collect :
    (h : Hash) (rs : List Receipt) (m : Map Hash Receipt)
    → Map.get h (collect_receipts rs m) ≡ or_else (latest h rs) (Map.get h m)
unfolding collect_receipts
get-collect h [] m = refl
get-collect h (r ∷ rs) m =
    ground (arith, get-collect h rs (Map.insert r.tx_hash r m), get-insert r.tx_hash h r m)

module _ (le : Receipt → Receipt → Bool) where
  latest-place :
      (h : Hash) (r : Receipt) (rs : List Receipt)
      → latest r.tx_hash rs ≡ none
      → latest h (place le r rs) ≡ latest h (r ∷ rs)
  unfolding place
  latest-place h r [] e = refl
  latest-place h r (x ∷ rs) e = ground (arith, latest-place h r rs)

  latest-sort_by :
      (h : Hash) (rs : List Receipt) → AreOnce rs → latest h (sort_by le rs) ≡ latest h rs
  unfolding sort_by
  latest-sort_by h [] a = refl
  latest-sort_by h (r ∷ rs) a = ground (
    arith,
    latest-place h r (sort_by le rs) (latest-sort_by r.tx_hash rs a.1 ∙ a.0),
    latest-sort_by h rs a.1,
  )

latest-values :
    (h : Hash) (m : Map Hash Receipt)
    → IsMap m
    → All (λ e. e.1.tx_hash ≡ e.0) m
    → latest h (values m) ≡ Map.get h m
unfolding Map.get
latest-values h [] k e = refl
latest-values h ((j, r) ∷ m) k e = ground (arith, latest-values h m k.1 e.1, k.0, e.0)

values-AreOnce :
    (m : Map Hash Receipt) → IsMap m → All (λ e. e.1.tx_hash ≡ e.0) m → AreOnce (values m)
values-AreOnce [] k e = tt
values-AreOnce ((j, r) ∷ m) k e = (
  ap (λ x. latest x (values m)) e.0 ∙ (latest-values j m k.1 e.1 ∙ k.0),
  values-AreOnce m k.1 e.1,
)

-- In whatever order the receipts of a map are listed, a map collected from them has the same
-- receipt for every transaction.
pub get-collect_values :
    (le : Receipt → Receipt → Bool) (h : Hash) (m : Map Hash Receipt)
    → IsMap m
    → All (λ e. e.1.tx_hash ≡ e.0) m
    → Map.get h (collect_receipts (sort_by le (values m)) []) ≡ Map.get h m
get-collect_values le h m k e =
    get-collect h (sort_by le (values m)) []
    ∙ (ap (λ o. or_else o (Map.get h []))
          (latest-sort_by le h (values m) (values-AreOnce m k e) ∙ latest-values h m k e)
        ∙ or_none (Map.get h m))
  where
    or_none : (o : Option Receipt) → or_else o (Map.get h []) ≡ o
    or_none (some x) = refl
    or_none none = get-empty h
