-- ===== src/State/Supply.antt =====
-- crates/subhost-state/src/lib.rs: where the money goes. A transfer moves it, a transaction
-- burns its fee, and nothing is made except by `credit` and `set_balance`.
use sub_host_demo.Base.{
  ℕ, ◌+◌, ◌-◌, ◌*◌, ◌≤◌, ◌≡◌, inl, inr, refl, List, [], ◌∷◌, arith, nat_eq, ok, err, Result,
}
use sub_host_demo.Core.{Address, Transaction}
use sub_host_demo.Map.Sums.{sum, sum-insert}
use sub_host_demo.State.{
  Account, State, StateError, account, entry, balance, store, set_balance, set_nonce,
  apply_transfer, apply_transaction,
}
use sub_host_demo.State.Effect.{
  moved, settled, settles, Admissible-of_ok, balance-moved, apply_transfer_cases,
  balance-set_balance,
}
use sub_host_demo.State.Atomic.{apply_transaction_atomic}

-- The sum of all balances.
unfoldable pub supply : State → ℕ
supply s = sum (λ (acc : Account). acc.balance) s.accounts

pub supply-set_balance :
    (a : Address) (b : ℕ) (s : State) → supply (set_balance a b s) + balance a s ≡ supply s + b
unfolding supply set_balance balance store entry account
supply-set_balance a b s = ground (
  arith,
  sum-insert (λ (acc : Account). acc.balance) a (record (entry a s) { balance = b }) s.accounts,
)

pub supply-set_nonce : (a : Address) (n : ℕ) (s : State) → supply (set_nonce a n s) ≡ supply s
unfolding supply set_nonce store entry account
supply-set_nonce a n s = ground (
  arith,
  sum-insert (λ (acc : Account). acc.balance) a (record (entry a s) { nonce = n }) s.accounts,
)

supply-moved :
    (from to : Address) (value : ℕ) (s : State)
    → value ≤ balance from s
    → supply (moved from to value s) ≡ supply s
unfolding moved
supply-moved from to value s h = ground (
  arith,
  supply-set_balance to (balance to s + value) (set_balance from (balance from s - value) s),
  supply-set_balance from (balance from s - value) s,
  balance-set_balance to from (balance from s - value) s,
)

-- A transfer, done or refused, neither makes nor destroys money.
pub apply_transfer_conserves :
    (from to : Address) (value : ℕ) (s : State)
    → supply (apply_transfer from to value s).1 ≡ supply s
apply_transfer_conserves from to value s = elim (apply_transfer_cases from to value s) [
  | inl ((covered, _), e) ↦ rw e (supply-moved from to value s covered)
  | inr (_, e) ↦ rw e refl
]

supply-settled :
    (tx : Transaction) (to : Address) (s : State)
    → tx.value + tx.gas_price * tx.gas_limit ≤ balance tx.from s
    → supply (settled tx to s) + tx.gas_price * tx.gas_limit ≡ supply s
unfolding settled
supply-settled tx to s h =
    let s' = moved tx.from to tx.value s in
    ground (
      arith,
      supply-moved tx.from to tx.value s,
      balance-moved tx.from to tx.value s,
      supply-set_balance tx.from (balance tx.from s' - tx.gas_price * tx.gas_limit) s',
      supply-set_nonce tx.from (tx.nonce + 1)
          (set_balance tx.from (balance tx.from s' - tx.gas_price * tx.gas_limit) s'),
    )

abbrev pub charged : Result StateError ℕ → ℕ
charged (ok paid) = paid
charged (err e) = 0

-- A transaction lowers the sum of all balances by exactly the fee that it reports, and by
-- nothing if it fails.
pub apply_transaction_conserves :
    (tx : Transaction) (s : State)
    → supply (apply_transaction tx s).1 + charged (apply_transaction tx s).0 ≡ supply s
apply_transaction_conserves tx s = by_result (apply_transaction tx s).0 refl
  where
    by_result :
        (r : Result StateError ℕ)
        → (apply_transaction tx s).0 ≡ r
        → supply (apply_transaction tx s).1 + charged (apply_transaction tx s).0 ≡ supply s
    by_result (ok paid) e =
        let (to, a) = Admissible-of_ok tx s e in
        rw (settles tx to s a) (supply-settled tx to s a.funds)
    by_result (err x) e = rw (e, apply_transaction_atomic tx s e) (omega arith)

-- A sequence of transactions, each tried on the state that the one before it left.
unfoldable pub run : List Transaction → State → ℕ × State
run [] s = (0, s)
run (tx ∷ txs) s =
    let (r, s') = apply_transaction tx s in let (fees, t) = run txs s' in (charged r + fees, t)

-- Over any sequence of transactions, valid or not, what leaves the accounts is the sum of the
-- fees of those that were executed.
pub run_conserves :
    (txs : List Transaction) (s : State) → supply (run txs s).1 + (run txs s).0 ≡ supply s
unfolding run
run_conserves [] s = omega arith
run_conserves (tx ∷ txs) s =
    omega (arith, apply_transaction_conserves tx s, run_conserves txs (apply_transaction tx s).1)
