-- ===== src/State/Bounds.antt =====
-- crates/subhost-state/src/lib.rs: every balance stays within u128 and every nonce within u64.
use sub_host_demo.Base.{
  ℕ, ◌+◌, ◌≤◌, ◌<◌, ◌≡◌, ◌⊎◌, inl, inr, refl, arith, ◌==◌, nat_eq, if◌then◌else◌, ok, err, Result,
  Bool-cases, leb,
}
use sub_host_demo.Base.Words.{u128_max, u64_max}
use sub_host_demo.Core.{Address, Transaction}
use sub_host_demo.Map.{get-insert}
use sub_host_demo.State.{
  State, StateError, account, entry, balance, nonce, store, credit, apply_transaction,
  balance_overflow,
}
use sub_host_demo.State.Effect.{
  settled, settles, Admissible-of_ok, Admissible, balance-settled, nonce-settled,
  balance-set_balance, nonce-set_balance,
}
use sub_host_demo.State.Atomic.{apply_transaction_atomic}

-- Every account is in range.
pub record InRange (s : State) : Type 0 where
  pub balances : (a : Address) → balance a s ≤ u128_max
  pub nonces : (a : Address) → nonce a s ≤ u64_max

settled-InRange :
    (tx : Transaction) (to : Address) (s : State)
    → Admissible tx to s
    → InRange s
    → InRange (settled tx to s)
settled-InRange tx to s a h = record {
  balances = λ x. ground (arith, balance-settled tx to s x a.funds, h.balances x, a.recipient);
  nonces = λ x. ground (arith, nonce-settled tx to s x, h.nonces x, a.not_last);
}

-- A transaction, executed or refused, keeps every balance and nonce in range.
pub apply_transaction-InRange :
    (tx : Transaction) (s : State) → InRange s → InRange (apply_transaction tx s).1
apply_transaction-InRange tx s h = by_result (apply_transaction tx s).0 refl
  where
    by_result :
        (r : Result StateError ℕ)
        → (apply_transaction tx s).0 ≡ r
        → InRange (apply_transaction tx s).1
    by_result (ok paid) e =
        let (to, a) = Admissible-of_ok tx s e in
        rw (settles tx to s a) (settled-InRange tx to s a h)
    by_result (err x) e = rw (apply_transaction_atomic tx s e) h

balance-store-entry : (a b : Address) (s : State) → balance b (store a (entry a s) s) ≡ balance b s
unfolding balance store entry account
balance-store-entry a b s = ground (arith, get-insert a b (entry a s) s.accounts)

nonce-store-entry : (a b : Address) (s : State) → nonce b (store a (entry a s) s) ≡ nonce b s
unfolding nonce store entry account
nonce-store-entry a b s = ground (arith, get-insert a b (entry a s) s.accounts)

-- A credit raises one balance by its amount and touches no other, or overflows u128 and changes
-- no balance; nonces stay.
pub credit_cases :
    (a : Address) (amount : ℕ) (s : State)
    → (((credit a amount s).0 ≡ ok tt)
        × ((b : Address)
            → balance b (credit a amount s).1 ≡ balance b s + (if a == b then amount else 0))
        × ((b : Address) → nonce b (credit a amount s).1 ≡ nonce b s)
        × (balance a s + amount ≤ u128_max))
      ⊎ (((credit a amount s).0 ≡ err (balance_overflow a))
          × ((b : Address) → balance b (credit a amount s).1 ≡ balance b s)
          × ((b : Address) → nonce b (credit a amount s).1 ≡ nonce b s)
          × (u128_max < balance a s + amount))
unfolding credit
credit_cases a amount s = elim (Bool-cases (leb (balance a s + amount) u128_max)) [
  | inl fits ↦ inl (
    ground (arith, balance-store-entry a a s),
    (λ b. ground (
      arith,
      balance-store-entry a a s,
      balance-store-entry a b s,
      balance-set_balance b a (balance a s + amount) (store a (entry a s) s),
    )),
    (λ b. ground (
      arith,
      balance-store-entry a a s,
      nonce-store-entry a b s,
      nonce-set_balance b a (balance a s + amount) (store a (entry a s) s),
    )),
    ground arith,
  )
  | inr over ↦ inr (
    ground (arith, balance-store-entry a a s),
    (λ b. ground (arith, balance-store-entry a a s, balance-store-entry a b s)),
    (λ b. ground (arith, balance-store-entry a a s, nonce-store-entry a b s)),
    ground arith,
  )
]
