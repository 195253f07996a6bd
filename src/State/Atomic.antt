-- ===== src/State/Atomic.antt =====
-- crates/subhost-state/src/lib.rs: a failed operation changes nothing, and no transaction is
-- executed twice.
use sub_host_demo.Base.{ℕ, ◌+◌, ◌*◌, ◌≡◌, ◌≢◌, inl, inr, some, arith, nat_eq, ok, err, Option-cases}
use sub_host_demo.Core.{Address, Transaction, fee, total_cost}
use sub_host_demo.State.{
  State, StateError, invalid_nonce, ensure_balance, execute_transfer, execute, apply_transaction,
}
use sub_host_demo.State.Effect.{
  moved, settled, settles, Admissible-of_ok, Admissible, balance-moved, debit_lem,
  apply_transfer_cases, nonce-settled, chain_id-settled,
}

execute_transfer_error :
    (tx : Transaction) (s : State) (paid : ℕ)
    → fee tx ≡ some paid
    → (execute_transfer tx paid s).0 ≢ ok tt
    → (execute_transfer tx paid s).1 ≡ s
unfolding execute_transfer ensure_balance total_cost fee
execute_transfer_error tx s paid f h = elim (Option-cases tx.to) [
  | inl missing ↦ ground arith
  | inr (to, e) ↦ ground (
    arith,
    apply_transfer_cases tx.from to tx.value s,
    balance-moved tx.from to tx.value s,
    debit_lem tx.from paid (moved tx.from to tx.value s),
  )
]

-- A transaction that fails, for whatever reason, leaves the state as it was.
pub apply_transaction_atomic :
    (tx : Transaction) (s : State) {e : StateError}
    → (apply_transaction tx s).0 ≡ err e
    → (apply_transaction tx s).1 ≡ s
unfolding apply_transaction execute fee
apply_transaction_atomic tx s h =
    ground (arith, execute_transfer_error tx s (tx.gas_price * tx.gas_limit))

stale :
    (tx : Transaction) (to : Address) (s : State)
    → Admissible tx to s
    → (apply_transaction tx (settled tx to s)).0
      ≡ err (invalid_nonce tx.from (tx.nonce + 1) tx.nonce)
unfolding apply_transaction
stale tx to s a = ground (arith, nonce-settled tx to s tx.from, chain_id-settled tx to s)

-- Once a transaction has been executed, the same transaction is refused for its nonce.
pub replay_refused :
    (tx : Transaction) (s : State) {paid : ℕ}
    → (apply_transaction tx s).0 ≡ ok paid
    → (apply_transaction tx (apply_transaction tx s).1).0
      ≡ err (invalid_nonce tx.from (tx.nonce + 1) tx.nonce)
replay_refused tx s h =
    let (to, a) = Admissible-of_ok tx s h in rw (settles tx to s a) (stale tx to s a)
