-- ===== src/Tests/Transactions.antt =====
-- The ledger, the signatures and the genesis document at concrete inputs.
use sub_host_demo.Base.{
  ℕ, ◌+◌, ◌≡◌, ◌↔◌, inr, refl, List, [], ◌∷◌, arith, ◌==◌, nat_eq, if◌then◌else◌, ok, err, length,
}
use sub_host_demo.Core.{Address, Byte, fee, total_cost}
use sub_host_demo.Core.Genesis
use sub_host_demo.Core.Genesis.{GenesisConfig, AreDistinct, AreEntitled, validate_exact}
use sub_host_demo.Map
use sub_host_demo.Map.{Map}
use sub_host_demo.State.{
  State, StateSnapshot, account, balance, nonce, apply_transfer, apply_transaction, root, entry,
  ensure_balance, debit, execute, execute_transfer, set_balance, set_nonce, store,
  insufficient_balance,
}
use sub_host_demo.State.Effect.{Admissible, apply_transaction_exact, executed_transaction}
use sub_host_demo.State.Atomic.{apply_transaction_atomic}
use sub_host_demo.State.Supply.{supply, run, run_conserves}
use sub_host_demo.State.Bounds.{InRange, apply_transaction-InRange}
use sub_host_demo.State.Snapshot.{IsState, root_deterministic}
use sub_host_demo.Tests.Fixtures.{payment, mix}

abbrev pub ledger : State
ledger = record {
  accounts = (1, record { nonce = 0; balance = 100 }) ∷ (2, record { nonce = 3; balance = 5 }) ∷ [];
  chain_id = 7;
}

abbrev shuffled : State
shuffled = record {
  accounts = (2, record { nonce = 3; balance = 5 }) ∷ (1, record { nonce = 0; balance = 100 }) ∷ [];
  chain_id = 7;
}

pays : (apply_transaction (payment 1 0 4) ledger).0 ≡ ok 8
unfolding apply_transaction execute execute_transfer ensure_balance debit apply_transfer fee
    total_cost balance nonce entry account set_balance set_nonce store Map.get Map.insert
pays = refl

fails : (apply_transaction (payment 1 0 46) ledger).0 ≡ err (insufficient_balance 1 100 102)
unfolding apply_transaction execute execute_transfer ensure_balance debit apply_transfer fee
    total_cost balance nonce entry account set_balance set_nonce store Map.get Map.insert
fails = refl

apply_transaction_exact_example :
    ((paid : ℕ) × ((apply_transaction (payment 1 0 4) ledger).0 ≡ ok paid))
    ↔ ((to : Address) × Admissible (payment 1 0 4) to ledger)
apply_transaction_exact_example = apply_transaction_exact (payment 1 0 4) ledger

pub payment-Admissible : Admissible (payment 1 0 4) 2 ledger
unfolding balance nonce entry account Map.get
payment-Admissible = record {
  chain = refl;
  gas = omega arith;
  in_order = refl;
  not_last = omega arith;
  kind = refl;
  destination = refl;
  cost_fits = omega arith;
  funds = omega arith;
  recipient = inr (omega arith);
}

executed_transaction_example :
    let (r, t) = apply_transaction (payment 1 0 4) ledger in
    (r ≡ ok 8)
    × ((a : Address)
        → balance a t + (if 1 == a then 18 else 0) ≡ balance a ledger + (if 2 == a then 10 else 0))
    × ((a : Address) → nonce a t ≡ (if 1 == a then 1 else nonce a ledger))
    × (t.chain_id ≡ 7)
executed_transaction_example = executed_transaction (payment 1 0 4) 2 ledger payment-Admissible

apply_transaction_atomic_example : (apply_transaction (payment 1 0 46) ledger).1 ≡ ledger
apply_transaction_atomic_example = apply_transaction_atomic (payment 1 0 46) ledger fails

run_conserves_example :
    supply (run (payment 1 0 4 ∷ payment 1 5 4 ∷ payment 1 1 2 ∷ []) ledger).1
      + (run (payment 1 0 4 ∷ payment 1 5 4 ∷ payment 1 1 2 ∷ []) ledger).0
    ≡ supply ledger
run_conserves_example = run_conserves (payment 1 0 4 ∷ payment 1 5 4 ∷ payment 1 1 2 ∷ []) ledger

ledger-InRange : InRange ledger
unfolding balance nonce entry account Map.get
ledger-InRange = record { balances = λ a. ground arith; nonces = λ a. ground arith }

apply_transaction-InRange_example : InRange (apply_transaction (payment 1 0 4) ledger).1
apply_transaction-InRange_example = apply_transaction-InRange (payment 1 0 4) ledger ledger-InRange

pub ledger-IsState : IsState ledger
unfolding Map.get
ledger-IsState = (refl, (refl, tt))

shuffled-IsState : IsState shuffled
unfolding Map.get
shuffled-IsState = (refl, (refl, tt))

abbrev encode : StateSnapshot → List Byte
encode sn = sn.chain_id ∷ length sn.accounts ∷ []

same_accounts : (a : Address) → account a ledger ≡ account a shuffled
unfolding account Map.get
same_accounts a = ground arith

root_deterministic_example : root encode mix ledger ≡ root encode mix shuffled
root_deterministic_example =
    root_deterministic encode mix ledger shuffled ledger-IsState shuffled-IsState refl same_accounts

abbrev twice : StateSnapshot
twice = record {
  chain_id = 7;
  accounts = (1, record { nonce = 0; balance = 1 }) ∷ (1, record { nonce = 0; balance = 2 }) ∷ [];
}

abbrev genesis : GenesisConfig
genesis = record {
  chain_id = 7;
  initial_validators =
      (record { address = 1; public_key = 9 ∷ []; power = 5 })
      ∷ (record { address = 1; public_key = 8 ∷ []; power = 5 })
      ∷ [];
  allocations = [];
  block_time_ms = 1000;
  gas_limit = 10;
  genesis_time = 0;
}

duplicate_found : Genesis.validate genesis ≡ err (Genesis.duplicate_validator 1)
unfolding Genesis.validate Genesis.validate_validators
duplicate_found = refl
