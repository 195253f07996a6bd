-- ===== src/Consensus/Staking/Roundtrip.antt =====
-- crates/subhost-consensus/src/staking.rs: a delegation that is withdrawn again.
use sub_host_demo.Base.{
  ℕ, ◌+◌, ◌-◌, ◌<◌, ◌≤◌, ◌≡◌, ◌≢◌, ◌⊎◌, inl, inr, refl, none, some, arith, ◌==◌, nat_eq, pair_eq,
  if◌then◌else◌, ok, ◌&&◌,
}
use sub_host_demo.Core.{Address}
use sub_host_demo.Map
use sub_host_demo.Map.{Map, get-insert, get-remove}
use sub_host_demo.Consensus.Staking.{
  Validator, Delegation, StakingModule, put_validator, put_delegation, delegate, undelegate,
  reduce_stake, reduce_delegation,
}
use sub_host_demo.Consensus.Staking.Effects.{delegate_cases, held}
use sub_host_demo.Consensus.Staking.Backing.{
  get-put_validator, reduce_stake-validators, reduce_delegation-validators,
  put_delegation-validators,
}

undelegate_lem :
    (d v : Address) (n : ℕ) (x : Delegation) (m : StakingModule)
    → Map.get (d, v) m.delegations ≡ some x
    → 0 < n
    → n ≤ x.amount
    → undelegate d v n m
      ≡ (ok (x.amount - n), reduce_stake v n (reduce_delegation d v x (x.amount - n) m))
unfolding undelegate
undelegate_lem d v n x m found pos le = ground arith

get-put_delegation :
    (d v c a : Address) (x : Delegation) (m : StakingModule)
    → Map.get (c, a) (put_delegation d v x m).delegations
      ≡ (if (d == c) && (v == a) then some x else Map.get (c, a) m.delegations)
unfolding put_delegation
get-put_delegation d v c a x m = get-insert (d, v) (c, a) x m.delegations

get-reduce_delegation :
    (d v c a : Address) (x : Delegation) (n : ℕ) (m : StakingModule)
    → Map.get (c, a) (reduce_delegation d v x n m).delegations ≡ (
        if (d == c) && (v == a)
        then if (n == 0) && (x.rewards == 0) then none else some (record x { amount = n })
        else Map.get (c, a) m.delegations)
unfolding reduce_delegation put_delegation
get-reduce_delegation d v c a x n m = ground (
  arith,
  get-remove (d, v) (c, a) m.delegations,
  get-insert (d, v) (c, a) (record x { amount = n }) m.delegations,
)

reduce_stake-delegations :
    (v : Address) (n : ℕ) (m : StakingModule) → (reduce_stake v n m).delegations ≡ m.delegations
unfolding reduce_stake put_validator
reduce_stake-delegations v n m = ground arith

put_validator-delegations :
    (v : Address) (w : Validator) (m : StakingModule)
    → (put_validator v w m).delegations ≡ m.delegations
unfolding put_validator
put_validator-delegations v w m = refl

-- A record that a withdrawal does not drop, or no record at all.
abbrev pub IsPlain : Address → Address → StakingModule → Type 0
IsPlain d v m =
    ((held d v m).amount ≢ 0) ⊎ ((held d v m).rewards ≢ 0) ⊎ (Map.get (d, v) m.delegations ≡ none)

-- The two registries answer every lookup alike.
pub record IsAlike (m m' : StakingModule) : Type 0 where
  pub validators : (a : Address) → Map.get a m'.validators ≡ Map.get a m.validators
  pub delegations : (c a : Address) → Map.get (c, a) m'.delegations ≡ Map.get (c, a) m.delegations

module _ (d v : Address) (n : ℕ) (m : StakingModule) (t : Validator)
    (found : Map.get v m.validators ≡ some t) (pos : 0 < n) (plain : IsPlain d v m) where
  more : Delegation
  more = record (held d v m) { amount = (held d v m).amount + n }

  lent : StakingModule
  lent = put_delegation d v more m

  staked : StakingModule
  staked = put_validator v (record t { stake = t.stake + n }) lent

  paid_back : StakingModule
  paid_back = reduce_stake v n (reduce_delegation d v more (more.amount - n) staked)

  more_there : Map.get (d, v) staked.delegations ≡ some more
  unfolding staked lent
  more_there = ground (
    arith,
    put_validator-delegations v (record t { stake = t.stake + n }) (put_delegation d v more m),
    get-put_delegation d v d v more m,
  )

  withdrawn : undelegate d v n staked ≡ (ok (held d v m).amount, paid_back)
  unfolding paid_back more
  withdrawn = ground (arith, undelegate_lem d v n more staked more_there pos)

  paid_back-IsAlike : IsAlike m paid_back
  unfolding paid_back staked lent more
  paid_back-IsAlike = record {
    validators = λ a. ground (
      arith,
      reduce_stake-validators a v n (reduce_delegation d v more (more.amount - n) staked),
      reduce_delegation-validators d v more (more.amount - n) staked,
      get-put_validator v a (record t { stake = t.stake + n }) lent,
      get-put_validator v v (record t { stake = t.stake + n }) lent,
      put_delegation-validators d v more m,
      found,
    );
    delegations = λ c a. ground (
      arith,
      reduce_stake-delegations v n (reduce_delegation d v more (more.amount - n) staked),
      get-reduce_delegation d v c a more (more.amount - n) staked,
      put_validator-delegations v (record t { stake = t.stake + n }) lent,
      get-put_delegation d v c a more m,
      plain,
    );
  }

-- A delegation that succeeds can be withdrawn: the call succeeds, reports what was delegated
-- before, and leaves every validator and every delegation as they were. The pair's record was not
-- an empty one without rewards, which a withdrawal drops.
pub undelegate-delegate :
    (d v : Address) (n : ℕ) (m : StakingModule) (total : ℕ)
    → IsPlain d v m
    → (delegate d v n m).0 ≡ ok total
    → ((undelegate d v n (delegate d v n m).1).0 ≡ ok (held d v m).amount)
      × IsAlike m (undelegate d v n (delegate d v n m).1).1
unfolding staked lent more
undelegate-delegate d v n m total plain h = elim (delegate_cases d v n m) [
  | inl (_, e) ↦ ground arith
  | inr (t, found, pos, _, _, e) ↦
      rw e (
        rw (withdrawn d v n m t found pos plain)
          (refl, paid_back-IsAlike d v n m t found pos plain))
]
