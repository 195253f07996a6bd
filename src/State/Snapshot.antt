-- ===== src/State/Snapshot.antt =====
-- crates/subhost-state/src/lib.rs: snapshots and the state root.
use sub_host_demo.Base.{
  ◌≡◌, ◌≢◌, ◌∙◌, refl, ap, none, some, Option, List, [], ◌∷◌, arith, ◌==◌, nat_eq, ok, err, Result,
  ◌⊎◌, ◌↔◌, inl, inr, Bool-cases,
}
use sub_host_demo.Core.{Address, Hash, Byte}
use sub_host_demo.Map
use sub_host_demo.Map.{Map, get-insert, get-empty}
use sub_host_demo.Map.Keys.{IsMap, insert-IsMap}
use sub_host_demo.Map.Sorted.{sort, get-sort, sort-IsSorted, IsSorted-IsMap}
use sub_host_demo.Map.Canonical.{sort_ext}
use sub_host_demo.State.{
  Account, State, StateSnapshot, StateError, account, snapshot, insert_accounts, from_snapshot,
  root,
}

-- No address has two entries, which every operation keeps.
abbrev pub IsState : State → Type 0
IsState s = IsMap s.accounts

-- Two states of one chain with the same accounts, neither with an address twice, have the same
-- root, in whatever order their hash maps hold them.
pub root_deterministic :
    (encode : StateSnapshot → List Byte) (blake3 : List Byte → Hash) (s t : State)
    → IsState s
    → IsState t
    → s.chain_id ≡ t.chain_id
    → ((a : Address) → account a s ≡ account a t)
    → root encode blake3 s ≡ root encode blake3 t
unfolding root snapshot account
root_deterministic encode blake3 s t hs ht c h = rw (c, sort_ext s.accounts t.accounts hs ht h)

abbrev or_else : Option Account → Option Account → Option Account
or_else (some x) _ = some x
or_else none o = o

or_else-empty : (a : Address) (o : Option Account) → or_else o (Map.get a []) ≡ o
or_else-empty a (some x) = refl
or_else-empty a none = get-empty a

abbrev Apart : Map Address Account → Map Address Account → Type 0
Apart m l = (a : Address) → (Map.get a m ≡ none) ⊎ (Map.get a l ≡ none)

-- Inserting fresh accounts one by one: the lookups are those of the list before those of the map.
insert_accounts_lem :
    (m l : Map Address Account)
    → IsMap l
    → Apart m l
    → IsMap m
    → (r : Map Address Account) × (insert_accounts m l ≡ ok r)
      × IsMap r
      × ((a : Address) → Map.get a r ≡ or_else (Map.get a l) (Map.get a m))
unfolding insert_accounts Map.get
insert_accounts_lem m [] hl d hm = (m, refl, hm, λ a. refl)
insert_accounts_lem m ((k, v) ∷ l) hl d hm =
    let (r, e, hr, at) =
      insert_accounts_lem (Map.insert k v m) l hl.1 apart (insert-IsMap k v m hm) in
    (r, ground (arith, d k), hr, λ a. ground (arith, at a, get-insert k a v m, hl.0))
  where
    apart : Apart (Map.insert k v m) l
    apart a = elim (Bool-cases (k == a)) [
      | inl same ↦ inr (ground (arith, hl.0))
      | inr other ↦ elim (d a) [
        | inl free ↦ inl (ground (arith, get-insert k a v m))
        | inr out ↦ inr (ground arith)
      ]
    ]

-- A snapshot of a state on a chain other than 0 and without an address twice is accepted, and
-- gives back a state with the same chain, the same account at every address and the same
-- snapshot.
pub snapshot_roundtrip :
    (s : State)
    → IsState s
    → s.chain_id ≢ 0
    → (t : State) × (from_snapshot (snapshot s) ≡ ok t)
      × (t.chain_id ≡ s.chain_id)
      × ((a : Address) → account a t ≡ account a s)
      × (snapshot t ≡ snapshot s)
unfolding from_snapshot snapshot account
snapshot_roundtrip s hs c =
    let sorted = sort s.accounts in
    let (r, e, hr, at) =
      insert_accounts_lem [] sorted (IsSorted-IsMap sorted (sort-IsSorted s.accounts hs))
        (λ a. inl (get-empty a)) tt in
    let same : (a : Address) → Map.get a r ≡ Map.get a s.accounts = λ a.
      at a
      ∙ ap (λ o. or_else o (Map.get a [])) (get-sort a s.accounts hs)
      ∙ or_else-empty a (Map.get a s.accounts) in
    (
      record { accounts = r; chain_id = s.chain_id },
      ground arith,
      refl,
      same,
      rw (sort_ext r s.accounts hr hs same) refl,
    )

insert_accounts_refuses :
    (m l : Map Address Account) {r : Map Address Account}
    → insert_accounts m l ≡ ok r
    → Apart m l × IsMap l
unfolding insert_accounts Map.get
insert_accounts_refuses m [] h = ((λ a. inr refl), tt)
insert_accounts_refuses m ((k, v) ∷ l) {r} h =
    let (d, hl) = insert_accounts_refuses (Map.insert k v m) l {r = r} (ground arith) in
    (λ a. ground (arith, d a, get-insert k a v m), ground (arith, d k, get-insert k k v m))

from_snapshot_refuses :
    (sn : StateSnapshot) (x : Result StateError (Map Address Account)) {t : State}
    → insert_accounts [] sn.accounts ≡ x
    → from_snapshot sn ≡ ok t
    → (sn.chain_id ≢ 0) × IsMap sn.accounts
unfolding from_snapshot
from_snapshot_refuses sn (ok m) e h = (ground arith, (insert_accounts_refuses [] sn.accounts e).1)
from_snapshot_refuses sn (err x) e h = ground arith

-- A snapshot is accepted exactly when its chain ID is not 0 and no address is listed twice.
pub from_snapshot_exact :
    (sn : StateSnapshot)
    → ((t : State) × (from_snapshot sn ≡ ok t)) ↔ ((sn.chain_id ≢ 0) × IsMap sn.accounts)
unfolding from_snapshot
from_snapshot_exact sn = (
  (λ h. from_snapshot_refuses sn (insert_accounts [] sn.accounts) refl h.1),
  (λ h.
      let (r, e, _, _) = insert_accounts_lem [] sn.accounts h.1 (λ a. inl (get-empty a)) tt in
      (record { accounts = r; chain_id = sn.chain_id }, ground arith)),
)
