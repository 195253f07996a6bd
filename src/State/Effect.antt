-- ===== src/State/Effect.antt =====
-- crates/subhost-state/src/lib.rs: when `apply_transaction` succeeds, and what it then does to
-- every account.
use sub_host_demo.Base.{
  ℕ, ◌+◌, ◌-◌, ◌*◌, ◌<◌, ◌≤◌, ◌≡◌, ◌↔◌, ◌⊎◌, inl, inr, refl, ap, some, arith, ◌==◌, nat_eq,
  if◌then◌else◌, ok, err, Bool-cases, Option-cases, ltb, leb,
}
use sub_host_demo.Base.Words.{u64_max, u128_max}
use sub_host_demo.Core.{Address, Transaction, transfer, fee, total_cost}
use sub_host_demo.Map.{get-insert}
use sub_host_demo.State.{
  State, StateError, account, entry, balance, nonce, store, set_balance, set_nonce,
  insufficient_balance, balance_overflow, apply_transfer, ensure_balance, debit, execute_transfer,
  execute, apply_transaction,
}

module _ (a b : Address) (x : ℕ) (s : State) where
  pub balance-set_balance : balance a (set_balance b x s) ≡ (if b == a then x else balance a s)
  unfolding balance set_balance store entry account
  balance-set_balance =
      ground (arith, get-insert b a (record (entry b s) { balance = x }) s.accounts)

  pub nonce-set_balance : nonce a (set_balance b x s) ≡ nonce a s
  unfolding nonce set_balance store entry account
  nonce-set_balance = ground (arith, get-insert b a (record (entry b s) { balance = x }) s.accounts)

  pub balance-set_nonce : balance a (set_nonce b x s) ≡ balance a s
  unfolding balance set_nonce store entry account
  balance-set_nonce = ground (arith, get-insert b a (record (entry b s) { nonce = x }) s.accounts)

  pub nonce-set_nonce : nonce a (set_nonce b x s) ≡ (if b == a then x else nonce a s)
  unfolding nonce set_nonce store entry account
  nonce-set_nonce = ground (arith, get-insert b a (record (entry b s) { nonce = x }) s.accounts)

pub chain_id-set_balance :
    (b : Address) (x : ℕ) (s : State) → (set_balance b x s).chain_id ≡ s.chain_id
unfolding set_balance store
chain_id-set_balance b x s = refl

pub chain_id-set_nonce : (b : Address) (x : ℕ) (s : State) → (set_nonce b x s).chain_id ≡ s.chain_id
unfolding set_nonce store
chain_id-set_nonce b x s = refl

pub ruleset state_laws = (
  balance-set_balance, nonce-set_balance, balance-set_nonce, nonce-set_nonce, chain_id-set_balance,
  chain_id-set_nonce,
)

-- What a transaction has to meet: the chain, some gas, the account's nonce with room for the next
-- one, a destination, a cost that fits in u128 and in the sender's balance, and a recipient
-- whose balance does not overflow.
pub record Admissible (tx : Transaction) (to : Address) (s : State) : Type 0 where
  pub chain : tx.chain_id ≡ s.chain_id
  pub gas : 0 < tx.gas_limit
  pub in_order : tx.nonce ≡ nonce tx.from s
  pub not_last : tx.nonce < u64_max
  pub kind : tx.tx_type ≡ transfer
  pub destination : tx.to ≡ some to
  pub cost_fits : tx.value + tx.gas_price * tx.gas_limit ≤ u128_max
  pub funds : tx.value + tx.gas_price * tx.gas_limit ≤ balance tx.from s
  pub recipient : (tx.from ≡ to) ⊎ (balance to s + tx.value ≤ u128_max)

-- The state after a transfer of `value` and a payment of `paid`, written without the checks.
unfoldable pub moved : Address → Address → ℕ → State → State
moved from to value s =
    if from == to
    then s
    else set_balance to (balance to s + value) (set_balance from (balance from s - value) s)

unfoldable pub settled : Transaction → Address → State → State
settled tx to s =
    let paid = tx.gas_price * tx.gas_limit in
    let s' = moved tx.from to tx.value s in
    set_nonce tx.from (tx.nonce + 1) (set_balance tx.from (balance tx.from s' - paid) s')

pub balance-moved :
    (from to : Address) (value : ℕ) (s : State)
    → value ≤ balance from s
    → balance from (moved from to value s) + (if from == to then 0 else value) ≡ balance from s
unfolding moved
balance-moved from to value s h = ground (
  arith,
  balance-set_balance from to (balance to s + value) (set_balance from (balance from s - value) s),
  balance-set_balance from from (balance from s - value) s,
)

pub apply_transfer_lem :
    (from to : Address) (value : ℕ) (s : State)
    → value ≤ balance from s
    → ((from ≡ to) ⊎ (balance to s + value ≤ u128_max))
    → apply_transfer from to value s ≡ (ok tt, moved from to value s)
unfolding apply_transfer moved
apply_transfer_lem from to value s h k = ground arith

pub debit_lem :
    (a : Address) (x : ℕ) (s : State)
    → x ≤ balance a s
    → debit a x s ≡ (ok tt, set_balance a (balance a s - x) s)
unfolding debit
debit_lem a x s h = ground arith

module _ (from to : Address) (value : ℕ) (s : State) where
  nonce-moved : (a : Address) → nonce a (moved from to value s) ≡ nonce a s
  unfolding moved
  nonce-moved a = ground (
    arith,
    nonce-set_balance a to (balance to s + value) (set_balance from (balance from s - value) s),
    nonce-set_balance a from (balance from s - value) s,
  )

  chain_id-moved : (moved from to value s).chain_id ≡ s.chain_id
  unfolding moved
  chain_id-moved = ground (
    arith,
    chain_id-set_balance to (balance to s + value) (set_balance from (balance from s - value) s),
    chain_id-set_balance from (balance from s - value) s,
  )

  balance-moved_at :
      (a : Address)
      → value ≤ balance from s
      → balance a (moved from to value s) + (if from == a then value else 0)
        ≡ balance a s + (if to == a then value else 0)
  unfolding moved
  balance-moved_at a h = ground (
    arith,
    balance-set_balance a to (balance to s + value) (set_balance from (balance from s - value) s),
    balance-set_balance a from (balance from s - value) s,
  )

module _ (tx : Transaction) (to : Address) (s : State) where
  pub nonce-settled :
      (a : Address) → nonce a (settled tx to s) ≡ (if tx.from == a then tx.nonce + 1 else nonce a s)
  unfolding settled
  nonce-settled a = simp (state_laws, nonce-moved)

  pub chain_id-settled : (settled tx to s).chain_id ≡ s.chain_id
  unfolding settled
  chain_id-settled = simp (state_laws, chain_id-moved)

  -- What an executed transaction does to the balance of an account `a`.
  pub balance-settled :
      (a : Address)
      → tx.value + tx.gas_price * tx.gas_limit ≤ balance tx.from s
      → balance a (settled tx to s)
          + (if tx.from == a then tx.value + tx.gas_price * tx.gas_limit else 0)
        ≡ balance a s + (if to == a then tx.value else 0)
  unfolding settled
  balance-settled a h = simp state_laws (
      ground (
        arith,
        balance-moved_at tx.from to tx.value s a,
        balance-moved_at tx.from to tx.value s tx.from,
      ))

-- An admissible transaction goes through, and leaves the settled state.
pub settles :
    (tx : Transaction) (to : Address) (s : State)
    → Admissible tx to s
    → apply_transaction tx s ≡ (ok (tx.gas_price * tx.gas_limit), settled tx to s)
unfolding apply_transaction execute execute_transfer ensure_balance fee total_cost settled
settles tx to s h = ground (
  arith,
  apply_transfer_lem tx.from to tx.value s,
  balance-moved tx.from to tx.value s,
  debit_lem tx.from (tx.gas_price * tx.gas_limit) (moved tx.from to tx.value s),
)

-- A transfer goes through with its conditions met, or fails and changes nothing.
pub apply_transfer_cases :
    (from to : Address) (value : ℕ) (s : State)
    → (((value ≤ balance from s) × ((from ≡ to) ⊎ (balance to s + value ≤ u128_max)))
        × (apply_transfer from to value s ≡ (ok tt, moved from to value s)))
      ⊎ ((e : StateError) × (apply_transfer from to value s ≡ (err e, s)))
unfolding apply_transfer moved
apply_transfer_cases from to value s = elim (Bool-cases (ltb (balance from s) value)) [
  | inl short ↦ inr (insufficient_balance from (balance from s) value, ground arith)
  | inr covered ↦ elim (Bool-cases (from == to)) [
    | inl same ↦ inl ((ground arith, ground arith), ground arith)
    | inr apart ↦ elim (Bool-cases (leb (balance to s + value) u128_max)) [
      | inl fits ↦ inl ((ground arith, ground arith), ground arith)
      | inr over ↦ inr (balance_overflow to, ground arith)
    ]
  ]
]

-- Only an admissible transaction goes through.
pub Admissible-of_ok :
    (tx : Transaction) (s : State) {paid : ℕ}
    → (apply_transaction tx s).0 ≡ ok paid
    → (to : Address) × Admissible tx to s
unfolding apply_transaction execute execute_transfer ensure_balance fee total_cost
Admissible-of_ok tx s h = elim (Option-cases tx.to) [
  | inl missing ↦ ground arith
  | inr (to, e) ↦ (
    to,
    record {
      chain = ground arith;
      gas = ground arith;
      in_order = ground arith;
      not_last = ground arith;
      kind = ground arith;
      destination = e;
      cost_fits = ground arith;
      funds = ground arith;
      recipient = ground (arith, apply_transfer_cases tx.from to tx.value s);
    },
  )
]

-- A transaction is executed exactly when it is admissible.
pub apply_transaction_exact :
    (tx : Transaction) (s : State)
    → ((paid : ℕ) × ((apply_transaction tx s).0 ≡ ok paid)) ↔ ((to : Address) × Admissible tx to s)
apply_transaction_exact tx s = (
  (λ h. Admissible-of_ok tx s h.1),
  (λ h. (tx.gas_price * tx.gas_limit, ap (λ r. r.0) (settles tx h.0 s h.1))),
)

-- An admissible transaction reports its declared fee. It takes its value and its fee from the sender
-- and gives its value to the recipient, changes no other balance, and makes the sender's nonce the
-- next one and changes no other nonce.
pub executed_transaction :
    (tx : Transaction) (to : Address) (s : State)
    → Admissible tx to s
    → let (r, t) = apply_transaction tx s in
      (r ≡ ok (tx.gas_price * tx.gas_limit))
      × ((a : Address)
          → balance a t + (if tx.from == a then tx.value + tx.gas_price * tx.gas_limit else 0)
            ≡ balance a s + (if to == a then tx.value else 0))
      × ((a : Address) → nonce a t ≡ (if tx.from == a then tx.nonce + 1 else nonce a s))
      × (t.chain_id ≡ s.chain_id)
executed_transaction tx to s h = rw (settles tx to s h) (
  refl,
  (λ a. balance-settled tx to s a h.funds),
  (λ a. nonce-settled tx to s a),
  chain_id-settled tx to s,
)
