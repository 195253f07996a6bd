-- ===== src/Consensus/Staking/Backing.antt =====
-- crates/subhost-consensus/src/staking.rs: delegation and withdrawal against the stake.
use sub_host_demo.Base.{
  ℕ, ◌+◌, ◌-◌, ◌≤◌, ◌≡◌, inl, inr, refl, none, some, List, [], ◌∷◌, arith, ◌==◌, nat_eq, pair_eq,
  if◌then◌else◌, Bool-cases, Option-cases, ◌&&◌, ⊤,
}
use sub_host_demo.Core.{Address}
use sub_host_demo.Map
use sub_host_demo.Map.{Map, get-insert, get-remove, get-retain, get-empty}
use sub_host_demo.Map.Sums.{sum, sum-insert, sum-remove, measure, measure-le-sum, sum-eq-zero}
use sub_host_demo.Consensus.Staking.{
  Validator, Delegation, StakingModule, put_validator, put_delegation, add_validator, delegate,
  undelegate, reduce_stake, reduce_delegation,
}
use sub_host_demo.Consensus.Staking.Effects.{
  delegate_cases, undelegate_cases, add_validator_cases, held,
}
use sub_host_demo.Consensus.Staking.Invariant.{
  IsSound, held-IsBacking, Call, add, lend, withdraw, punish, perform, serve, perform-IsSound,
}

abbrev pub share : Address → Delegation → ℕ
share v x = if x.validator == v then x.amount else 0

-- What is delegated to a validator, without the saturation.
unfoldable pub backed : Address → StakingModule → ℕ
backed v m = sum (share v) m.delegations

-- Each validator's stake covers what is delegated to it.
abbrev pub IsCovered : StakingModule → Type 0
IsCovered m = (a : Address) (v : Validator) → Map.get a m.validators ≡ some v → backed a m ≤ v.stake

backed-put :
    (a d v : Address) (x : Delegation) (m : StakingModule)
    → backed a (put_delegation d v x m) + measure (share a) (Map.get (d, v) m.delegations)
      ≡ backed a m + share a x
unfolding backed put_delegation
backed-put a d v x m = sum-insert (share a) (d, v) x m.delegations

backed-reduce :
    (a d v : Address) (x : Delegation) (n : ℕ) (m : StakingModule)
    → IsSound m
    → Map.get (d, v) m.delegations ≡ some x
    → backed a (reduce_delegation d v x n m) + share a x
      ≡ backed a m + share a (record x { amount = n })
unfolding reduce_delegation
backed-reduce a d v x n m h e = elim (Bool-cases ((n == 0) && (x.rewards == 0))) [
  | inl gone ↦
      rw gone (
        unfold backed in
        ground (arith, sum-remove (share a) (d, v) m.delegations h.delegation_keys))
  | inr stays ↦ rw stays (ground (arith, backed-put a d v (record x { amount = n }) m))
]

backed-reduce_stake :
    (a v : Address) (amount : ℕ) (m : StakingModule)
    → backed a (reduce_stake v amount m) ≡ backed a m
unfolding backed reduce_stake put_validator
backed-reduce_stake a v amount m = ground arith

backed-unregistered :
    (a : Address) (m : StakingModule) → IsSound m → Map.get a m.validators ≡ none → backed a m ≡ 0
unfolding backed
backed-unregistered a m h free =
    sum-eq-zero (share a) m.delegations h.delegation_keys
      (λ k x e. ground (arith, h.backing k.0 k.1 x e))

share-le-backed :
    (a d v : Address) (m : StakingModule)
    → measure (share a) (Map.get (d, v) m.delegations) ≤ backed a m
unfolding backed
share-le-backed a d v m = measure-le-sum (share a) (d, v) m.delegations

pub reduce_stake-validators :
    (a v : Address) (amount : ℕ) (m : StakingModule)
    → Map.get a (reduce_stake v amount m).validators ≡ (
        if v == a
        then elim (Map.get v m.validators) [
          | none ↦ none
          | some w ↦ some (record w { stake = w.stake - amount })
        ]
        else Map.get a m.validators)
unfolding reduce_stake put_validator
reduce_stake-validators a v amount m = elim (Option-cases (Map.get v m.validators)) [
  | inl missing ↦ ground arith
  | inr (w, e) ↦ ground (arith, get-insert v a (record w { stake = w.stake - amount }) m.validators)
]

pub reduce_delegation-validators :
    (d v : Address) (x : Delegation) (n : ℕ) (m : StakingModule)
    → (reduce_delegation d v x n m).validators ≡ m.validators
unfolding reduce_delegation put_delegation
reduce_delegation-validators d v x n m = ground arith

pub get-put_validator :
    (b a : Address) (v : Validator) (m : StakingModule)
    → Map.get a (put_validator b v m).validators
      ≡ (if b == a then some v else Map.get a m.validators)
unfolding put_validator
get-put_validator b a v m = get-insert b a v m.validators

backed-put_validator :
    (a b : Address) (v : Validator) (m : StakingModule)
    → backed a (put_validator b v m) ≡ backed a m
unfolding put_validator backed
backed-put_validator a b v m = refl

pub put_delegation-validators :
    (d v : Address) (x : Delegation) (m : StakingModule)
    → (put_delegation d v x m).validators ≡ m.validators
unfolding put_delegation
put_delegation-validators d v x m = refl

add_validator-IsCovered :
    (v : Validator) (m : StakingModule)
    → IsSound m
    → IsCovered m
    → Map.get v.address m.validators ≡ none
    → IsCovered (put_validator v.address v m)
add_validator-IsCovered v m h c fresh a w e = ground (
  arith,
  get-put_validator v.address a v m,
  backed-put_validator a v.address v m,
  c a w,
  backed-unregistered a m h,
)

delegate-IsCovered :
    (d v : Address) (n : ℕ) (m : StakingModule) (target : Validator)
    → IsSound m
    → IsCovered m
    → Map.get v m.validators ≡ some target
    → IsCovered (
        put_validator v
          (record target { stake = target.stake + n })
          (put_delegation d v (record (held d v m) { amount = (held d v m).amount + n }) m))
delegate-IsCovered d v n m target h c found a w e =
    let x = record (held d v m) { amount = (held d v m).amount + n } in
    let t = record target { stake = target.stake + n } in
    let m' = put_delegation d v x m in
    ground (
      arith,
      get-put_validator v a t m',
      put_delegation-validators d v x m,
      backed-put_validator a v t m',
      backed-put a d v x m,
      c a w,
      c v target found,
      held-IsBacking d v m h,
    )

undelegate-IsCovered :
    (d v : Address) (n : ℕ) (x : Delegation) (m : StakingModule)
    → IsSound m
    → IsCovered m
    → Map.get (d, v) m.delegations ≡ some x
    → n ≤ x.amount
    → IsCovered (reduce_stake v n (reduce_delegation d v x (x.amount - n) m))
undelegate-IsCovered d v n x m h c found le a w e = elim (Option-cases (Map.get v m.validators)) [
  | inl missing ↦ ground (arith, at_validator, unchanged, c a w, staked, reduced, owner)
  | inr (u, e') ↦ ground (arith, at_validator, unchanged, c a w, c v u e', staked, reduced, owner)
]
  where
    m' : StakingModule
    m' = reduce_delegation d v x (x.amount - n) m

    at_validator : Map.get a (reduce_stake v n m').validators ≡ (
        if v == a
        then elim (Map.get v m'.validators) [
          | none ↦ none
          | some w ↦ some (record w { stake = w.stake - n })
        ]
        else Map.get a m'.validators)
    at_validator = reduce_stake-validators a v n m'

    unchanged : m'.validators ≡ m.validators
    unchanged = reduce_delegation-validators d v x (x.amount - n) m

    staked : backed a (reduce_stake v n m') ≡ backed a m'
    staked = backed-reduce_stake a v n m'

    reduced : backed a m' + share a x ≡ backed a m + share a (record x { amount = x.amount - n })
    reduced = backed-reduce a d v x (x.amount - n) m h found

    owner : x.validator ≡ v
    owner = (h.backing d v x found).1

-- The calls have no slashing among them.
abbrev pub IsPeaceful : List Call → Type 0
IsPeaceful [] = ⊤
IsPeaceful (punish e ∷ cs) = ⊥
IsPeaceful (c ∷ cs) = IsPeaceful cs

add-IsCovered :
    (v : Validator) (m : StakingModule) → IsSound m → IsCovered m → IsCovered (add_validator v m).1
add-IsCovered v m h c = elim (add_validator_cases v m) [
  | inl (_, e) ↦ rw e c
  | inr (_, fresh, e) ↦ rw e (add_validator-IsCovered v m h c fresh)
]

lend-IsCovered :
    (d v : Address) (n : ℕ) (m : StakingModule)
    → IsSound m
    → IsCovered m
    → IsCovered (delegate d v n m).1
lend-IsCovered d v n m h c = elim (delegate_cases d v n m) [
  | inl (_, e) ↦ rw e c
  | inr (w, found, _, _, _, e) ↦ rw e (delegate-IsCovered d v n m w h c found)
]

withdraw-IsCovered :
    (d v : Address) (n : ℕ) (m : StakingModule)
    → IsSound m
    → IsCovered m
    → IsCovered (undelegate d v n m).1
withdraw-IsCovered d v n m h c = elim (undelegate_cases d v n m) [
  | inl (_, e) ↦ rw e c
  | inr (x, found, _, le, e) ↦ rw e (undelegate-IsCovered d v n x m h c found le)
]

-- From a sound registry in which every validator's stake covers what is delegated to it, calls
-- without slashing, failing or not, keep every stake at or above what is delegated.
pub serve-IsCovered :
    (cs : List Call) (m : StakingModule)
    → IsSound m
    → IsCovered m
    → IsPeaceful cs
    → IsCovered (serve cs m)
unfolding serve
serve-IsCovered [] m h c p = c
serve-IsCovered (add v fits ∷ cs) m h c p =
    serve-IsCovered cs (perform (add v fits) m) (perform-IsSound (add v fits) m h)
      (unfold perform in add-IsCovered v m h c) p
serve-IsCovered (lend d v n ∷ cs) m h c p =
    serve-IsCovered cs (perform (lend d v n) m) (perform-IsSound (lend d v n) m h)
      (unfold perform in lend-IsCovered d v n m h c) p
serve-IsCovered (withdraw d v n ∷ cs) m h c p =
    serve-IsCovered cs (perform (withdraw d v n) m) (perform-IsSound (withdraw d v n) m h)
      (unfold perform in withdraw-IsCovered d v n m h c) p
serve-IsCovered (punish e ∷ cs) m h c p = absurd p
