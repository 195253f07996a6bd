-- ===== src/Consensus/Staking/Slashing.antt =====
-- crates/subhost-consensus/src/staking.rs: what a slashing takes, and from whom.
use sub_host_demo.Base.{
  ℕ, ◌-◌, ◌<◌, ◌≤◌, ◌≡◌, ◌≢◌, ◌⊎◌, inl, inr, refl, Option, none, some, [], ◌∷◌, ◌++◌, arith, ◌==◌,
  nat_eq, pair_eq, leb, if◌then◌else◌, ok, err, is_empty, true, false, not, ◌&&◌,
}
use sub_host_demo.Core.{Address}
use sub_host_demo.Map
use sub_host_demo.Map.{Map, contains, is_some, get-insert, get-remove, get-retain}
use sub_host_demo.Consensus.Staking.{
  Validator, SlashingEvidence, SlashingType, double_sign, downtime, malicious_behavior,
  StakingModule, unknown_validator, missing_proof, penalty, put_validator, deduct, eject,
  record_evidence, slash,
}
use sub_host_demo.Consensus.Staking.Effects.{slash_exact_cases}

-- No offence costs more than the stake.
pub penalty-le : (t : SlashingType) (stake : ℕ) → penalty t stake ≤ stake
unfolding penalty
penalty-le double_sign stake = omega arith
penalty-le downtime stake = omega arith
penalty-le malicious_behavior stake = omega arith

-- The validator that stands at an address after a cut: none if the cut takes the whole stake.
abbrev pub after_cut : Validator → ℕ → Option Validator
after_cut v cut = if leb v.stake cut then none else some (record v { stake = v.stake - cut })

deduct-validators :
    (a b : Address) (cut : ℕ) (v : Validator) (m : StakingModule)
    → Map.get a m.validators ≡ some v
    → Map.get b (deduct a cut m).validators
      ≡ (if a == b then after_cut v cut else Map.get b m.validators)
unfolding deduct eject put_validator
deduct-validators a b cut v m h = ground (
  arith,
  get-remove a b m.validators,
  get-insert a b (record v { stake = v.stake - cut }) m.validators,
)

deduct-delegations :
    (a d b : Address) (cut : ℕ) (v : Validator) (m : StakingModule)
    → Map.get a m.validators ≡ some v
    → Map.get (d, b) (deduct a cut m).delegations
      ≡ (if (a == b) && leb v.stake cut then none else Map.get (d, b) m.delegations)
unfolding deduct eject put_validator
deduct-delegations a d b cut v m h =
    ground (arith, get-retain (λ (k : Address × Address). not (k.1 == a)) (d, b) m.delegations)

deduct-slashings :
    (a : Address) (cut : ℕ) (m : StakingModule) → (deduct a cut m).slashings ≡ m.slashings
unfolding deduct eject put_validator
deduct-slashings a cut m = ground arith

-- What a slashing of `v` by `e` leaves, address by address.
pub record IsSlashed (e : SlashingEvidence) (v : Validator) (m m' : StakingModule) : Type 0 where
  pub evidence : m'.slashings ≡ m.slashings ++ e ∷ []
  pub offender : Map.get e.validator m'.validators ≡ (
      if penalty e.evidence_type v.stake == 0
      then some v
      else after_cut v (penalty e.evidence_type v.stake))
  pub others : (a : Address) → a ≢ e.validator → Map.get a m'.validators ≡ Map.get a m.validators
  pub burned :
      (d : Address)
      → penalty e.evidence_type v.stake ≢ 0
      → v.stake ≤ penalty e.evidence_type v.stake
      → Map.get (d, e.validator) m'.delegations ≡ none
  pub kept :
      (d a : Address)
      → (a ≢ e.validator) ⊎ (penalty e.evidence_type v.stake < v.stake)
      → Map.get (d, a) m'.delegations ≡ Map.get (d, a) m.delegations

-- Evidence with a proof against a registered validator is recorded and costs exactly the penalty:
-- the stake falls by it, or, where it takes the whole stake, the validator goes with every
-- delegation to it. No other validator and no other delegation changes. Evidence against an address
-- that is not registered, and evidence without a proof, is refused and changes nothing.
pub slash_exact :
    (e : SlashingEvidence) (m : StakingModule)
    → ((Map.get e.validator m.validators ≡ none)
        × (slash e m ≡ (err (unknown_validator e.validator), m)))
      ⊎ ((is_empty e.proof ≡ true)
          × (contains e.validator m.validators ≡ true)
          × (slash e m ≡ (err (missing_proof e.validator), m)))
      ⊎ ((v : Validator) × (Map.get e.validator m.validators ≡ some v)
          × (is_empty e.proof ≡ false)
          × ((slash e m).0 ≡ ok (penalty e.evidence_type v.stake))
          × IsSlashed e v m (slash e m).1)
unfolding record_evidence
slash_exact e m = elim (slash_exact_cases e m) [
  | inl (missing, r) ↦ inl (missing, r)
  | inr (inl (bare, there, r)) ↦ inr (inl (bare, there, r))
  | inr (inr (v, found, proved, r)) ↦
      let cut = penalty e.evidence_type v.stake in
      let m' = record_evidence e m in
      inr (
        inr (
          v,
          found,
          proved,
          rw r refl,
          record {
            evidence = rw r (ground (arith, deduct-slashings e.validator cut m'));
            offender = rw r (ground (arith, deduct-validators e.validator e.validator cut v m'));
            others = λ a ne. rw r (ground (arith, deduct-validators e.validator a cut v m'));
            burned = λ d nz all.
                rw r (ground (arith, deduct-delegations e.validator d e.validator cut v m'));
            kept = λ d a other. rw r (
                ground (
                  arith,
                  deduct-delegations e.validator d a cut v m',
                  penalty-le e.evidence_type v.stake,
                ));
          },
        ))
]

-- A double signer whose stake has already fallen to nothing is not ejected: the evidence is recorded
-- and no validator changes.
pub empty_stake_stays :
    (e : SlashingEvidence) (m : StakingModule) (v : Validator)
    → Map.get e.validator m.validators ≡ some v
    → v.stake ≡ 0
    → is_empty e.proof ≡ false
    → slash e m ≡ (ok 0, record_evidence e m)
unfolding slash
empty_stake_stays e m v found broke proved = ground (arith, penalty-le e.evidence_type v.stake)
