-- ===== src/Consensus/Staking/Effects.antt =====
-- crates/subhost-consensus/src/staking.rs: each method either fails and changes nothing, or
-- succeeds under stated conditions with a stated effect.
use sub_host_demo.Base.{
  true, ℕ, ◌+◌, ◌-◌, ◌<◌, ◌≤◌, ◌≡◌, ◌⊎◌, inl, inr, refl, none, some, arith, ◌==◌, nat_eq, pair_eq,
  leb, ltb, if◌then◌else◌, Result, ok, err, ⊤, Bool-cases, Option-cases, is_empty, false,
}
use sub_host_demo.Base.Words.{u128_max}
use sub_host_demo.Core.{Address}
use sub_host_demo.Map
use sub_host_demo.Map.{contains}
use sub_host_demo.Map.Updates.{insert_same, insert-insert}
use sub_host_demo.Consensus.Staking.{
  Validator, Delegation, SlashingEvidence, StakingError, StakingModule, validate, penalty,
  put_validator, put_delegation, add_validator, or_new, delegation_entry, delegate,
  reduce_delegation, reduce_stake, undelegate, deduct, record_evidence, slash, zero_amount,
  unknown_validator, stake_overflow, duplicate_validator, unknown_delegation,
  insufficient_delegation, missing_proof,
}

-- A method that failed with its object unchanged.
abbrev pub Refused : {A : Type 0} → StakingModule → Result StakingError A × StakingModule → Type 0
Refused m r = (e : StakingError) × (r ≡ (err e, m))

abbrev pub held : Address → Address → StakingModule → Delegation
held d v m = or_new d v (Map.get (d, v) m.delegations)

put_delegation_held :
    (d v : Address) (x : Delegation) (m : StakingModule)
    → Map.get (d, v) m.delegations ≡ some x
    → put_delegation d v x m ≡ m
unfolding put_delegation
put_delegation_held d v x m h = ground (arith, insert_same (d, v) x m.delegations h)

put_delegation_twice :
    (d v : Address) (x y : Delegation) (m : StakingModule)
    → put_delegation d v y (put_delegation d v x m) ≡ put_delegation d v y m
unfolding put_delegation
put_delegation_twice d v x y m = rw (insert-insert (d, v) x y m.delegations)

pub delegate_cases :
    (d v : Address) (amount : ℕ) (m : StakingModule)
    → Refused m (delegate d v amount m)
      ⊎ ((target : Validator) × (Map.get v m.validators ≡ some target)
          × (0 < amount)
          × (target.stake + amount ≤ u128_max)
          × ((held d v m).amount + amount ≤ u128_max)
          × (delegate d v amount m ≡ (
            ok ((held d v m).amount + amount),
            put_validator v
                (record target { stake = target.stake + amount })
                (put_delegation d v
                  (record (held d v m) { amount = (held d v m).amount + amount })
                  m),
          )))
unfolding delegate delegation_entry
delegate_cases d v amount m = elim (Bool-cases (amount == 0)) [
  | inl z ↦ inl (zero_amount, ground arith)
  | inr nz ↦ elim (Option-cases (Map.get v m.validators)) [
    | inl missing ↦ inl (unknown_validator v, ground arith)
    | inr (target, found) ↦ elim (Bool-cases (leb (target.stake + amount) u128_max)) [
      | inr over ↦ inl (stake_overflow v, ground arith)
      | inl fits ↦ elim (Bool-cases (leb ((held d v m).amount + amount) u128_max)) [
        | inr over ↦ inl (stake_overflow v, ground (arith, put_delegation_held d v (held d v m) m))
        | inl room ↦ inr (
          target,
          found,
          ground arith,
          ground arith,
          ground arith,
          ground (
            arith,
            put_delegation_twice d v (held d v m)
                (record (held d v m) { amount = (held d v m).amount + amount }) m,
          ),
        )
      ]
    ]
  ]
]

pub undelegate_cases :
    (d v : Address) (amount : ℕ) (m : StakingModule)
    → Refused m (undelegate d v amount m)
      ⊎ ((x : Delegation) × (Map.get (d, v) m.delegations ≡ some x)
          × (0 < amount)
          × (amount ≤ x.amount)
          × (undelegate d v amount m ≡ (
            ok (x.amount - amount),
            reduce_stake v amount (reduce_delegation d v x (x.amount - amount) m),
          )))
unfolding undelegate
undelegate_cases d v amount m = elim (Bool-cases (amount == 0)) [
  | inl z ↦ inl (zero_amount, ground arith)
  | inr nz ↦ elim (Option-cases (Map.get (d, v) m.delegations)) [
    | inl missing ↦ inl (unknown_delegation d v, ground arith)
    | inr (x, found) ↦ elim (Bool-cases (ltb x.amount amount)) [
      | inl short ↦ inl (insufficient_delegation x.amount amount, ground arith)
      | inr covered ↦ inr (x, found, ground arith, ground arith, ground arith)
    ]
  ]
]

pub add_validator_cases :
    (v : Validator) (m : StakingModule)
    → Refused m (add_validator v m)
      ⊎ ((validate v ≡ ok tt)
          × (Map.get v.address m.validators ≡ none)
          × (add_validator v m ≡ (ok tt, put_validator v.address v m)))
unfolding add_validator
add_validator_cases v m = by_check (validate v) refl
  where
    by_check :
        (r : Result StakingError ⊤)
        → validate v ≡ r
        → Refused m (add_validator v m)
          ⊎ ((validate v ≡ ok tt)
              × (Map.get v.address m.validators ≡ none)
              × (add_validator v m ≡ (ok tt, put_validator v.address v m)))
    by_check (err e) h = inl (e, rw h refl)
    by_check (ok u) h = elim (Option-cases (Map.get v.address m.validators)) [
      | inl fresh ↦ inr (ground arith, fresh, ground arith)
      | inr (w, there) ↦ inl (duplicate_validator v.address, ground arith)
    ]

pub slash_exact_cases :
    (e : SlashingEvidence) (m : StakingModule)
    → ((Map.get e.validator m.validators ≡ none)
        × (slash e m ≡ (err (unknown_validator e.validator), m)))
      ⊎ ((is_empty e.proof ≡ true)
          × (contains e.validator m.validators ≡ true)
          × (slash e m ≡ (err (missing_proof e.validator), m)))
      ⊎ ((v : Validator) × (Map.get e.validator m.validators ≡ some v)
          × (is_empty e.proof ≡ false)
          × (slash e m ≡ (
            ok (penalty e.evidence_type v.stake),
            (if penalty e.evidence_type v.stake == 0
                then record_evidence e m
                else deduct e.validator (penalty e.evidence_type v.stake) (record_evidence e m)),
          )))
unfolding slash
slash_exact_cases e m = elim (Option-cases (Map.get e.validator m.validators)) [
  | inl missing ↦ inl (missing, ground arith)
  | inr (v, found) ↦ elim (Bool-cases (is_empty e.proof)) [
    | inl bare ↦ inr (inl (bare, ground arith, ground arith))
    | inr proved ↦ inr (inr (v, found, proved, ground arith))
  ]
]

-- The same, with the refusals as one case.
pub slash_cases :
    (e : SlashingEvidence) (m : StakingModule)
    → Refused m (slash e m)
      ⊎ ((v : Validator) × (Map.get e.validator m.validators ≡ some v)
          × (is_empty e.proof ≡ false)
          × (slash e m ≡ (
            ok (penalty e.evidence_type v.stake),
            (if penalty e.evidence_type v.stake == 0
                then record_evidence e m
                else deduct e.validator (penalty e.evidence_type v.stake) (record_evidence e m)),
          )))
slash_cases e m = elim (slash_exact_cases e m) [
  | inl (_, r) ↦ inl (unknown_validator e.validator, r)
  | inr (inl (_, _, r)) ↦ inl (missing_proof e.validator, r)
  | inr (inr (v, found, proved, r)) ↦ inr (v, found, proved, r)
]
