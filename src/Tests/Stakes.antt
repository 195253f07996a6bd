-- ===== src/Tests/Stakes.antt =====
-- Staking at concrete inputs: one validator, one delegator.
use sub_host_demo.Base.{
  ℕ, ◌≡◌, ◌⊎◌, refl, true, false, none, some, List, [], ◌∷◌, arith, ok, err, is_empty, nat_eq,
  pair_eq,
}
use sub_host_demo.Map
use sub_host_demo.Map.{get-empty, contains}
use sub_host_demo.Consensus.Staking.{
  Validator, StakingModule, SlashingEvidence, unknown_validator, missing_proof, finite, double_sign,
  downtime, new, delegate, slash, penalty, delegation_entry,
}
use sub_host_demo.Consensus.Staking.Invariant.{
  IsSound, new-IsSound, Call, add, lend, withdraw, punish, serve, serve-IsSound,
}
use sub_host_demo.Consensus.Staking.Slashing.{IsSlashed, slash_exact}
use sub_host_demo.Consensus.Staking.Backing.{IsCovered, serve-IsCovered}

abbrev with_stake : ℕ → Validator
with_stake n = record {
  address = 1;
  public_key = 5 ∷ [];
  stake = n;
  commission_bps = 100;
  uptime = finite false 0;
}

-- A validator of the smallest stake, without delegations.
abbrev lone : StakingModule
lone = record { validators = (1, with_stake 10000000) ∷ []; delegations = []; slashings = [] }

abbrev fault : SlashingEvidence
fault = record { validator = 1; evidence_type = downtime; height = 3; proof = 1 ∷ [] }

abbrev double : SlashingEvidence
double = record { validator = 1; evidence_type = double_sign; height = 4; proof = 1 ∷ [] }

abbrev calls : List Call
calls = add (with_stake 10000000) (omega arith) ∷ lend 8 1 50 ∷ punish fault ∷ withdraw 8 1 20 ∷ []

abbrev peaceful : List Call
peaceful = add (with_stake 10000000) (omega arith) ∷ lend 8 1 50 ∷ withdraw 8 1 20 ∷ []

serve-IsSound_example : IsSound (serve calls new)
serve-IsSound_example = serve-IsSound calls new new-IsSound

new-IsCovered : IsCovered new
new-IsCovered a v h = cc (get-empty {V = Validator} a)

serve-IsCovered_example : IsCovered (serve peaceful new)
serve-IsCovered_example = serve-IsCovered peaceful new new-IsSound new-IsCovered tt

slash_exact_example :
    ((Map.get 1 lone.validators ≡ none) × (slash fault lone ≡ (err (unknown_validator 1), lone)))
    ⊎ ((is_empty fault.proof ≡ true)
        × (contains 1 lone.validators ≡ true)
        × (slash fault lone ≡ (err (missing_proof 1), lone)))
    ⊎ ((v : Validator) × (Map.get 1 lone.validators ≡ some v)
        × (is_empty fault.proof ≡ false)
        × ((slash fault lone).0 ≡ ok (penalty downtime v.stake))
        × IsSlashed fault v lone (slash fault lone).1)
slash_exact_example = slash_exact fault lone

lends : (delegate 8 1 50 lone).0 ≡ ok 50
unfolding delegate delegation_entry Map.get
lends = refl
