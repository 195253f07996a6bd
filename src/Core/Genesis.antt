-- ===== src/Core/Genesis.antt =====
-- `GenesisConfig`: the structural checks on the genesis document.
use sub_host_demo.Base.{
  ℕ, ◌+◌, ◌<◌, ◌≡◌, refl, false, List, [], ◌∷◌, arith, ◌==◌, nat_eq, if◌then◌else◌, Result, ok, err,
  ⊤, is_empty, elem, All, ◌↔◌, length,
}
use sub_host_demo.Map.{Map}
use sub_host_demo.Core.{Address, Byte}

pub record ValidatorInfo : Type 0 where
  pub address : Address
  pub public_key : List Byte
  pub power : ℕ

pub record GenesisConfig : Type 0 where
  pub chain_id : ℕ
  pub initial_validators : List ValidatorInfo
  pub allocations : Map Address ℕ
  pub block_time_ms : ℕ
  pub gas_limit : ℕ
  pub genesis_time : ℕ

-- `CoreError::InvalidGenesis`, with its text by cases.
pub data GenesisError : Type 0 where
  zero_chain_id zero_block_time zero_gas_limit no_validators : GenesisError
  zero_power no_public_key duplicate_validator : Address → GenesisError

-- The loop over the validators; `seen` is the hash set.
unfoldable pub validate_validators : List Address → List ValidatorInfo → Result GenesisError ⊤
validate_validators seen [] = ok tt
validate_validators seen (v ∷ vs) =
    let rest = validate_validators (v.address ∷ seen) vs in
    if v.power == 0
    then err (zero_power v.address)
    else if is_empty v.public_key
    then err (no_public_key v.address)
    else if elem v.address seen
    then err (duplicate_validator v.address)
    else rest

unfoldable pub validate : GenesisConfig → Result GenesisError ⊤
validate g =
    if g.chain_id == 0
    then err zero_chain_id
    else if g.block_time_ms == 0
    then err zero_block_time
    else if g.gas_limit == 0
    then err zero_gas_limit
    else validate_validators [] g.initial_validators

unfoldable pub requires_validators : GenesisConfig → Result GenesisError ⊤
requires_validators g = if is_empty g.initial_validators then err no_validators else ok tt

unfoldable pub sum_power : List ValidatorInfo → ℕ
sum_power [] = 0
sum_power (v ∷ vs) = v.power + sum_power vs

-- A sum of u64 words over u128, which no list that fits in memory makes overflow.
unfoldable pub total_voting_power : GenesisConfig → ℕ
unfolding sum_power
total_voting_power g = sum_power g.initial_validators

-- What a well-formed validator list is: positive power, a key, and no address twice.
abbrev pub AreDistinct : List Address → List ValidatorInfo → Type 0
AreDistinct seen [] = ⊤
AreDistinct seen (v ∷ vs) = (elem v.address seen ≡ false) × AreDistinct (v.address ∷ seen) vs

abbrev pub AreEntitled : List ValidatorInfo → Type 0
AreEntitled = All (λ v. (0 < v.power) × (0 < length v.public_key))

is_empty-length : (xs : List Byte) → is_empty xs ≡ false → 0 < length xs
is_empty-length [] h = cc
is_empty-length (x ∷ xs) h = omega arith

validators_sound :
    (seen : List Address) (vs : List ValidatorInfo)
    → validate_validators seen vs ≡ ok tt
    → AreDistinct seen vs × AreEntitled vs
unfolding validate_validators
validators_sound seen [] h = (tt, tt)
validators_sound seen (v ∷ vs) h =
    ground (arith, validators_sound (v.address ∷ seen) vs, is_empty-length v.public_key)

length-is_empty : (xs : List Byte) → 0 < length xs → is_empty xs ≡ false
length-is_empty [] h = absurd (omega arith)
length-is_empty (x ∷ xs) h = refl

validators_complete :
    (seen : List Address) (vs : List ValidatorInfo)
    → AreDistinct seen vs
    → AreEntitled vs
    → validate_validators seen vs ≡ ok tt
unfolding validate_validators
validators_complete seen [] h k = refl
validators_complete seen (v ∷ vs) h k =
    ground
      (arith, validators_complete (v.address ∷ seen) vs h.1 k.1, length-is_empty v.public_key k.0.1)

-- A genesis document is valid exactly when its chain ID, block time and gas limit are not zero,
-- every validator has power and a public key, and no address is listed twice.
pub validate_exact :
    (g : GenesisConfig)
    → (validate g ≡ ok tt) ↔ (
        (0 < g.chain_id)
        × (0 < g.block_time_ms)
        × (0 < g.gas_limit)
        × AreDistinct [] g.initial_validators
        × AreEntitled g.initial_validators)
unfolding validate
validate_exact g = (
  (λ h. ground (arith, validators_sound [] g.initial_validators)),
  (λ h. ground (arith, validators_complete [] g.initial_validators h.3 h.4)),
)
