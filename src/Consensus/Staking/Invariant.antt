-- ===== src/Consensus/Staking/Invariant.antt =====
-- crates/subhost-consensus/src/staking.rs: what every reachable registry satisfies.
use sub_host_demo.Base.{
  ℕ, ◌+◌, ◌-◌, ◌≤◌, ◌≡◌, inl, inr, refl, some, List, [], ◌∷◌, arith, ◌==◌, nat_eq, pair_eq, leb, ok,
  Bool-cases, Option-cases, is_empty, true, false, not, ◌&&◌,
}
use sub_host_demo.Base.Words.{u128_max}
use sub_host_demo.Core.{Address}
use sub_host_demo.Map
use sub_host_demo.Map.{Map, get-insert, get-remove, get-retain, get-empty, contains, map_laws}
use sub_host_demo.Map.Keys.{IsMap, insert-IsMap, remove-IsMap, retain-IsMap}
use sub_host_demo.Consensus.Staking.{
  Validator, Delegation, SlashingEvidence, StakingModule, validate, penalty, put_validator,
  put_delegation, add_validator, delegate, reduce_delegation, reduce_stake, max_commission_bps,
  undelegate, deduct, eject, record_evidence, slash, new,
}
use sub_host_demo.Consensus.Staking.Effects.{
  delegate_cases, undelegate_cases, add_validator_cases, slash_cases, held,
}

-- A validator stands under its own address, within its bounds.
abbrev pub IsListed : Address → Validator → Type 0
IsListed a v =
    (v.address ≡ a)
    × (is_empty v.public_key ≡ false)
    × (v.commission_bps ≤ max_commission_bps)
    × (v.stake ≤ u128_max)

-- A delegation stands under its own pair, within u128, to a validator that is registered.
abbrev pub IsBacking : StakingModule → Address → Address → Delegation → Type 0
IsBacking m d v x =
    (x.delegator ≡ d) × (x.validator ≡ v) × (x.amount ≤ u128_max) × (contains v m.validators ≡ true)

pub record IsSound (m : StakingModule) : Type 0 where
  pub validator_keys : IsMap m.validators
  pub delegation_keys : IsMap m.delegations
  pub listed : (a : Address) (v : Validator) → Map.get a m.validators ≡ some v → IsListed a v
  pub backing :
      (d v : Address) (x : Delegation) → Map.get (d, v) m.delegations ≡ some x → IsBacking m d v x

pub new-IsSound : IsSound new
new-IsSound = record {
  validator_keys = tt;
  delegation_keys = tt;
  listed = λ a v h. cc (get-empty {V = Validator} a);
  backing = λ d v x h. cc (get-empty {K = Address × Address} {V = Delegation} (d, v));
}

put_validator-IsSound :
    (a : Address) (v : Validator) (m : StakingModule)
    → IsListed a v
    → IsSound m
    → IsSound (put_validator a v m)
unfolding put_validator
put_validator-IsSound a v m l h = record {
  validator_keys = insert-IsMap a v m.validators h.validator_keys;
  delegation_keys = h.delegation_keys;
  listed = λ b w e. ground (arith, get-insert a b v m.validators, h.listed b w);
  backing = λ d b x e. ground (arith, get-insert a b v m.validators, h.backing d b x e);
}

put_delegation-IsSound :
    (d v : Address) (x : Delegation) (m : StakingModule)
    → IsBacking m d v x
    → IsSound m
    → IsSound (put_delegation d v x m)
unfolding put_delegation
put_delegation-IsSound d v x m b h = record {
  validator_keys = h.validator_keys;
  delegation_keys = insert-IsMap (d, v) x m.delegations h.delegation_keys;
  listed = h.listed;
  backing = λ c w y e. ground (arith, get-insert (d, v) (c, w) x m.delegations, h.backing c w y);
}

pub held-IsBacking :
    (d v : Address) (m : StakingModule)
    → IsSound m
    → contains v m.validators ≡ true
    → IsBacking m d v (held d v m)
held-IsBacking d v m h there = elim (Option-cases (Map.get (d, v) m.delegations)) [
  | inl fresh ↦ rw fresh (refl, refl, omega arith, there)
  | inr (x, e) ↦ rw e (h.backing d v x e)
]

reduce_delegation-IsSound :
    (d v : Address) (x : Delegation) (n : ℕ) (m : StakingModule)
    → Map.get (d, v) m.delegations ≡ some x
    → n ≤ x.amount
    → IsSound m
    → IsSound (reduce_delegation d v x n m)
unfolding reduce_delegation
reduce_delegation-IsSound d v x n m e le h = elim (Bool-cases ((n == 0) && (x.rewards == 0))) [
  | inl gone ↦ rw gone (record {
    validator_keys = h.validator_keys;
    delegation_keys = remove-IsMap (d, v) m.delegations h.delegation_keys;
    listed = h.listed;
    backing = λ c w y e'. ground (arith, get-remove (d, v) (c, w) m.delegations, h.backing c w y);
  })
  | inr stays ↦
      rw stays (
        put_delegation-IsSound d v (record x { amount = n }) m (ground (arith, h.backing d v x e))
          h)
]

reduce_stake-IsSound :
    (v : Address) (amount : ℕ) (m : StakingModule) → IsSound m → IsSound (reduce_stake v amount m)
unfolding reduce_stake
reduce_stake-IsSound v amount m h = elim (Option-cases (Map.get v m.validators)) [
  | inl missing ↦ rw (missing, reduce_stake) h
  | inr (w, e) ↦
      rw (e, reduce_stake)
        (put_validator-IsSound v (record w { stake = w.stake - amount }) m
          (ground (arith, h.listed v w e)) h)
]

eject-IsSound : (a : Address) (m : StakingModule) → IsSound m → IsSound (eject a m)
unfolding eject
eject-IsSound a m h = record {
  validator_keys = remove-IsMap a m.validators h.validator_keys;
  delegation_keys = retain-IsMap (λ k. not (k.1 == a)) m.delegations h.delegation_keys;
  listed = λ b w e. ground (arith, get-remove a b m.validators, h.listed b w);
  backing = λ d b x e. ground (
    arith,
    get-retain (λ (k : Address × Address). not (k.1 == a)) (d, b) m.delegations,
    get-remove a b m.validators,
    h.backing d b x,
  );
}

deduct-IsSound : (a : Address) (cut : ℕ) (m : StakingModule) → IsSound m → IsSound (deduct a cut m)
unfolding deduct
deduct-IsSound a cut m h = elim (Option-cases (Map.get a m.validators)) [
  | inl missing ↦ rw (missing, deduct) h
  | inr (v, e) ↦ elim (Bool-cases (leb v.stake cut)) [
    | inl out ↦ rw (e, deduct, out) (eject-IsSound a m h)
    | inr stays ↦
        rw (e, deduct, stays)
          (put_validator-IsSound a (record v { stake = v.stake - cut }) m
            (ground (arith, h.listed a v e)) h)
  ]
]

record_evidence-IsSound :
    (e : SlashingEvidence) (m : StakingModule) → IsSound m → IsSound (record_evidence e m)
unfolding record_evidence
record_evidence-IsSound e m h = record {
  validator_keys = h.validator_keys;
  delegation_keys = h.delegation_keys;
  listed = h.listed;
  backing = h.backing;
}

-- A call of the registry. The fields of a validator are words: its stake is at most `u128::MAX`.
pub data Call : Type 0 where
  add : (v : Validator) → v.stake ≤ u128_max → Call
  lend : Address → Address → ℕ → Call
  withdraw : Address → Address → ℕ → Call
  punish : SlashingEvidence → Call

unfoldable pub perform : Call → StakingModule → StakingModule
perform (add v _) m = (add_validator v m).1
perform (lend d v n) m = (delegate d v n m).1
perform (withdraw d v n) m = (undelegate d v n m).1
perform (punish e) m = (slash e m).1

unfoldable pub serve : List Call → StakingModule → StakingModule
serve [] m = m
serve (c ∷ cs) m = serve cs (perform c m)

validate_bounds :
    (v : Validator)
    → validate v ≡ ok tt
    → (is_empty v.public_key ≡ false) × (v.commission_bps ≤ max_commission_bps)
unfolding validate
validate_bounds v h = ground arith

pub perform-IsSound : (c : Call) (m : StakingModule) → IsSound m → IsSound (perform c m)
unfolding perform
perform-IsSound (add v fits) m h = elim (add_validator_cases v m) [
  | inl (_, e) ↦ rw (e, perform) h
  | inr (good, _, e) ↦
      rw (e, perform)
        (put_validator-IsSound v.address v m
          (refl, (validate_bounds v good).0, (validate_bounds v good).1, fits) h)
]
perform-IsSound (lend d v n) m h = elim (delegate_cases d v n m) [
  | inl (_, e) ↦ rw (e, perform) h
  | inr (w, found, _, fits, room, e) ↦
      let b = held-IsBacking d v m h (ground arith) in
      rw (e, perform)
        (put_validator-IsSound v (record w { stake = w.stake + n })
          (put_delegation d v (record (held d v m) { amount = (held d v m).amount + n }) m)
          (ground (arith, h.listed v w found))
          (put_delegation-IsSound d v (record (held d v m) { amount = (held d v m).amount + n }) m
            (b.0, b.1, room, b.3) h))
]
perform-IsSound (withdraw d v n) m h = elim (undelegate_cases d v n m) [
  | inl (_, e) ↦ rw (e, perform) h
  | inr (x, found, _, covered, e) ↦
      rw (e, perform)
        (reduce_stake-IsSound v n (reduce_delegation d v x (x.amount - n) m)
          (reduce_delegation-IsSound d v x (x.amount - n) m found (omega arith) h))
]
perform-IsSound (punish ev) m h = elim (slash_cases ev m) [
  | inl (_, e) ↦ rw (e, perform) h
  | inr (v, _, _, e) ↦
      let after = record_evidence-IsSound ev m h in
      elim (Bool-cases (penalty ev.evidence_type v.stake == 0)) [
        | inl nothing ↦ rw (e, perform, nothing) after
        | inr cut ↦
            rw (e, perform, cut)
              (deduct-IsSound ev.validator (penalty ev.evidence_type v.stake) (record_evidence ev m)
                after)
      ]
]

-- From a sound registry, after any calls, in any order and whether they fail or not, no key is
-- there twice, every validator stands under its own address within its bounds, and every
-- delegation stands under its own pair and is to a registered validator.
pub serve-IsSound : (cs : List Call) (m : StakingModule) → IsSound m → IsSound (serve cs m)
unfolding serve
serve-IsSound [] m h = h
serve-IsSound (c ∷ cs) m h = serve-IsSound cs (perform c m) (perform-IsSound c m h)
