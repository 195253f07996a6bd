-- ===== src/Consensus/Staking.antt =====
-- crates/subhost-consensus/src/staking.rs: validators, delegations and slashing. Amounts are
-- u128.
pub mod Effects
pub mod Invariant
pub mod Slashing
pub mod Backing
pub mod Roundtrip
use sub_host_demo.Base.{
  ℕ, ◌+◌, ◌-◌, ◌*◌, ◌/◌, ◌^◌, Bool, true, false, not, ◌&&◌, ◌||◌, Option, none, some, List, [], ◌∷◌,
  ◌++◌, map, ◌==◌, nat_eq, pair_eq, ltb, leb, if◌then◌else◌, Result, ok, err, Exec, pure, fail,
  ok_or, gets, fail_if, modify, ◌>>=◌, ◌>>◌, ⊤, length, is_empty, filter,
}
use sub_host_demo.Base.Words.{u128_max, checked_add, saturating_add, saturating_sub}
use sub_host_demo.Base.Sort.{sort_by}
use sub_host_demo.Core.{Address, Byte}
use sub_host_demo.Map
use sub_host_demo.Map.{Map, contains}

abbrev pub min_validator_stake : ℕ
min_validator_stake = 10000000

abbrev pub max_commission_bps : ℕ
max_commission_bps = 10000

-- An f64: every finite one is a whole multiple of 2^-1074, and `finite s n` is n of them, below
-- zero if `s` is true.
pub data Float64 : Type 0 where
  nan : Float64
  infinite : Bool → Float64
  finite : Bool → ℕ → Float64

unfoldable pub is_finite : Float64 → Bool
is_finite nan = false
is_finite (infinite s) = false
is_finite (finite s n) = true

-- `x < 0.0`
unfoldable pub below_zero : Float64 → Bool
below_zero nan = false
below_zero (infinite s) = s
below_zero (finite s n) = s && not (n == 0)

-- `x > 1.0`
unfoldable pub above_one : Float64 → Bool
above_one nan = false
above_one (infinite s) = not s
above_one (finite s n) = not s && ltb (2 ^ 1074) n

pub record Validator : Type 0 where
  pub address : Address
  pub public_key : List Byte
  pub stake : ℕ
  pub commission_bps : ℕ
  pub uptime : Float64

pub record ValidatorSet : Type 0 where
  pub validators : List Validator
  pub total_stake : ℕ
  pub quorum_threshold : ℕ

pub record Delegation : Type 0 where
  pub delegator : Address
  pub validator : Address
  pub amount : ℕ
  pub rewards : ℕ

pub data SlashingType : Type 0 where
  double_sign downtime malicious_behavior : SlashingType

pub record SlashingEvidence : Type 0 where
  pub validator : Address
  pub evidence_type : SlashingType
  pub height : ℕ
  pub proof : List Byte

pub data StakingError : Type 0 where
  stake_too_low : ℕ → ℕ → StakingError
  missing_public_key : Address → StakingError
  invalid_commission : ℕ → StakingError
  invalid_uptime : Float64 → StakingError
  duplicate_validator : Address → StakingError
  unknown_validator : Address → StakingError
  unknown_delegation : Address → Address → StakingError
  insufficient_delegation : ℕ → ℕ → StakingError
  zero_amount : StakingError
  stake_overflow : Address → StakingError
  missing_proof : Address → StakingError

-- `Validator::validate`
unfoldable pub validate : Validator → Result StakingError ⊤
validate v =
    if ltb v.stake min_validator_stake
    then err (stake_too_low v.stake min_validator_stake)
    else if is_empty v.public_key
    then err (missing_public_key v.address)
    else if ltb max_commission_bps v.commission_bps
    then err (invalid_commission v.commission_bps)
    else if not (is_finite v.uptime) || below_zero v.uptime || above_one v.uptime
    then err (invalid_uptime v.uptime)
    else ok tt

-- `SlashingType::penalty`
unfoldable pub penalty : SlashingType → ℕ → ℕ
penalty double_sign stake = stake
penalty downtime stake = stake / 100
penalty malicious_behavior stake = stake / 2

pub record StakingModule : Type 0 where
  pub validators : Map Address Validator
  pub delegations : Map (Address × Address) Delegation
  pub slashings : List SlashingEvidence

abbrev pub new : StakingModule
new = record { validators = []; delegations = []; slashings = [] }

abbrev pub Action : Type 0 → Type 0
Action A = Exec StakingModule StakingError A

-- `validate()?` inside a method.
abbrev pub lift : {A : Type 0} → Result StakingError A → Action A
lift r m = (r, m)

unfoldable pub put_validator : Address → Validator → StakingModule → StakingModule
put_validator a v m = record m { validators = Map.insert a v m.validators }

unfoldable pub put_delegation : Address → Address → Delegation → StakingModule → StakingModule
put_delegation d v x m = record m { delegations = Map.insert (d, v) x m.delegations }

unfoldable pub add_validator : Validator → Action ⊤
add_validator v = do
  lift (validate v)
  present ← gets (λ m. contains v.address m.validators)
  fail_if present (duplicate_validator v.address)
  modify (put_validator v.address v)

unfoldable pub validator_count : StakingModule → ℕ
validator_count m = length m.validators

-- The `fold` with `saturating_add`.
unfoldable pub saturating_fold : {K V : Type 0} → (V → ℕ) → ℕ → Map K V → ℕ
saturating_fold f total [] = total
saturating_fold f total ((k, v) ∷ m) = saturating_fold f (saturating_add u128_max total (f v)) m

unfoldable pub total_stake : StakingModule → ℕ
total_stake m = saturating_fold (λ (v : Validator). v.stake) 0 m.validators

unfoldable pub quorum_threshold : ℕ → ℕ
quorum_threshold count = if count == 0 then 0 else 2 * ((count - 1) / 3) + 1

-- The comparison of `validator_set`: by falling stake, then by address.
unfoldable pub ranks : Validator → Validator → Bool
ranks l r = ltb r.stake l.stake || ((l.stake == r.stake) && leb l.address r.address)

abbrev pub values : {K V : Type 0} → Map K V → List V
values = map (λ e. e.1)

unfoldable pub validator_set : StakingModule → ValidatorSet
validator_set m =
    let validators = sort_by ranks (values m.validators) in
    record {
      validators = validators;
      total_stake = total_stake m;
      quorum_threshold = quorum_threshold (length validators);
    }

abbrev pub or_new : Address → Address → Option Delegation → Delegation
or_new d v none = record { delegator = d; validator = v; amount = 0; rewards = 0 }
or_new d v (some x) = x

-- `entry(..).or_insert(..)`
unfoldable pub delegation_entry : Address → Address → Action Delegation
delegation_entry d v m =
    let x = or_new d v (Map.get (d, v) m.delegations) in (ok x, put_delegation d v x m)

unfoldable pub delegate : Address → Address → ℕ → Action ℕ
delegate d v amount = do
  fail_if (amount == 0) zero_amount
  found ← gets (λ m. Map.get v m.validators)
  target ← ok_or found (unknown_validator v)
  new_stake ← ok_or (checked_add u128_max target.stake amount) (stake_overflow v)
  x ← delegation_entry d v
  new_amount ← ok_or (checked_add u128_max x.amount amount) (stake_overflow v)
  modify (put_delegation d v (record x { amount = new_amount }))
  modify (put_validator v (record target { stake = new_stake }))
  pure new_amount

-- The writes of `undelegate`: the record, which goes once it is empty, and then the stake.
unfoldable pub reduce_delegation :
    Address → Address → Delegation → ℕ → StakingModule → StakingModule
reduce_delegation d v x remaining m =
    if (remaining == 0) && (x.rewards == 0)
    then record m { delegations = Map.remove (d, v) m.delegations }
    else put_delegation d v (record x { amount = remaining }) m

unfoldable pub reduce_stake : Address → ℕ → StakingModule → StakingModule
reduce_stake v amount m = elim (Map.get v m.validators) [
  | none ↦ m
  | some target ↦ put_validator v (record target { stake = saturating_sub target.stake amount }) m
]

unfoldable pub undelegate : Address → Address → ℕ → Action ℕ
undelegate d v amount = do
  fail_if (amount == 0) zero_amount
  found ← gets (λ m. Map.get (d, v) m.delegations)
  x ← ok_or found (unknown_delegation d v)
  fail_if (ltb x.amount amount) (insufficient_delegation x.amount amount)
  modify (reduce_delegation d v x (x.amount - amount))
  modify (reduce_stake v amount)
  pure (x.amount - amount)

unfoldable pub delegated_to : Address → StakingModule → ℕ
delegated_to v m =
    saturating_fold (λ (x : Delegation). if x.validator == v then x.amount else 0) 0 m.delegations

unfoldable pub eject : Address → StakingModule → StakingModule
eject a m = record m {
  validators = Map.remove a m.validators;
  delegations = Map.retain (λ (k : Address × Address). not (k.1 == a)) m.delegations;
}

-- The deduction of `slash`, once the evidence is on record.
unfoldable pub deduct : Address → ℕ → StakingModule → StakingModule
deduct a cut m = elim (Map.get a m.validators) [
  | none ↦ m
  | some v ↦
      if leb v.stake cut then eject a m else put_validator a (record v { stake = v.stake - cut }) m
]

unfoldable pub record_evidence : SlashingEvidence → StakingModule → StakingModule
record_evidence e m = record m { slashings = m.slashings ++ e ∷ [] }

unfoldable pub slash : SlashingEvidence → Action ℕ
slash e = do
  found ← gets (λ m. Map.get e.validator m.validators)
  v ← ok_or found (unknown_validator e.validator)
  fail_if (is_empty e.proof) (missing_proof e.validator)
  modify (record_evidence e)
  if penalty e.evidence_type v.stake == 0 then pure 0 else do
    modify (deduct e.validator (penalty e.evidence_type v.stake))
    pure (penalty e.evidence_type v.stake)

unfoldable pub slashings_for : Address → StakingModule → ℕ
slashings_for a m = length (filter (λ (e : SlashingEvidence). e.validator == a) m.slashings)
