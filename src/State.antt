-- ===== src/State.antt =====
-- crates/subhost-state/src/lib.rs: account balances and nonces, and the rules by which one
-- transaction changes them. Balances are u128 and nonces u64.
pub mod Effect
pub mod Atomic
pub mod Supply
pub mod Bounds
pub mod Snapshot
use Prim.Native.String.{String}
use sub_host_demo.Base.{
  ℕ, ◌+◌, ◌-◌, ◌≡◌, Bool, true, false, Option, none, some, List, [], ◌∷◌, ◌==◌, nat_eq, ltb, not,
  if◌then◌else◌, Exec, pure, fail, ok_or, gets, fail_if, modify, ◌>>=◌, ◌>>◌, ⊤, ok, err, Result,
  length,
}
use sub_host_demo.Base.Words.{u64_max, u128_max, checked_add}
use sub_host_demo.Core.{
  Address, Hash, Byte, Transaction, TransactionType, transfer, fee, total_cost,
}
use sub_host_demo.Map
use sub_host_demo.Map.{Map, contains}
use sub_host_demo.Map.Sorted.{sort}

pub record Account : Type 0 where
  pub nonce : ℕ
  pub balance : ℕ

-- `Account::default`
abbrev pub default_account : Account
default_account = record { nonce = 0; balance = 0 }

pub record State : Type 0 where
  pub accounts : Map Address Account
  pub chain_id : ℕ

pub data StateError : Type 0 where
  insufficient_balance : Address → ℕ → ℕ → StateError
  invalid_nonce : Address → ℕ → ℕ → StateError
  chain_mismatch : ℕ → ℕ → StateError
  invalid_transaction : String → StateError
  invalid_snapshot : String → StateError
  unsupported_transaction_type : TransactionType → StateError
  balance_overflow : Address → StateError

abbrev pub or_default : Option Account → Account
or_default none = default_account
or_default (some a) = a

unfoldable pub with_chain_id : ℕ → State
with_chain_id chain_id = record { accounts = []; chain_id = chain_id }

unfoldable pub account : Address → State → Option Account
account a s = Map.get a s.accounts

-- The account that `entry(a).or_default()` gives.
unfoldable pub entry : Address → State → Account
unfolding account
entry a s = or_default (account a s)

unfoldable pub balance : Address → State → ℕ
unfolding entry
balance a s = (entry a s).balance

unfoldable pub nonce : Address → State → ℕ
unfolding entry
nonce a s = (entry a s).nonce

unfoldable pub account_count : State → ℕ
account_count s = length s.accounts

unfoldable pub store : Address → Account → State → State
store a acc s = record s { accounts = Map.insert a acc s.accounts }

-- `self.accounts.entry(a).or_default().balance = b`
unfoldable pub set_balance : Address → ℕ → State → State
unfolding store entry
set_balance a b s = store a (record (entry a s) { balance = b }) s

-- `self.accounts.entry(a).or_default().nonce = n`
unfoldable pub set_nonce : Address → ℕ → State → State
unfolding store entry
set_nonce a n s = store a (record (entry a s) { nonce = n }) s

-- `entry` makes the account before the sum is checked.
unfoldable pub credit : Address → ℕ → Exec State StateError ⊤
credit a amount = do
  modify (λ s. store a (entry a s) s)
  have ← gets (balance a)
  sum ← ok_or (checked_add u128_max have amount) (balance_overflow a)
  modify (set_balance a sum)

unfoldable pub apply_transfer : Address → Address → ℕ → Exec State StateError ⊤
apply_transfer from to value = do
  from_balance ← gets (balance from)
  fail_if (ltb from_balance value) (insufficient_balance from from_balance value)
  if from == to then pure tt else do
    to_balance ← gets (balance to)
    credited ← ok_or (checked_add u128_max to_balance value) (balance_overflow to)
    modify (set_balance from (from_balance - value))
    modify (set_balance to credited)

unfoldable pub ensure_balance : Address → ℕ → Exec State StateError ⊤
ensure_balance a amount = do
  have ← gets (balance a)
  fail_if (ltb have amount) (insufficient_balance a have amount)

unfoldable pub debit : Address → ℕ → Exec State StateError ⊤
debit a amount = do
  have ← gets (balance a)
  fail_if (ltb have amount) (insufficient_balance a have amount)
  modify (set_balance a (have - amount))

-- The `Transfer` arm of `apply_transaction`.
unfoldable pub execute_transfer : Transaction → ℕ → Exec State StateError ⊤
execute_transfer tx paid = do
  to ← ok_or tx.to (invalid_transaction "transfer requires a destination")
  total ← ok_or (total_cost tx) (invalid_transaction "transaction cost overflows")
  ensure_balance tx.from total
  apply_transfer tx.from to tx.value
  debit tx.from paid

-- The `match` on the transaction type.
unfoldable pub execute : Transaction → ℕ → Exec State StateError ⊤
execute tx paid = elim tx.tx_type [
  | TransactionType.transfer ↦ execute_transfer tx paid
  | other ↦ fail (unsupported_transaction_type other)
]

unfoldable pub apply_transaction : Transaction → Exec State StateError ℕ
apply_transaction tx = do
  chain ← gets (λ s. s.chain_id)
  fail_if (not (tx.chain_id == chain)) (chain_mismatch chain tx.chain_id)
  fail_if (tx.gas_limit == 0) (invalid_transaction "gas limit must be > 0")
  expected ← gets (nonce tx.from)
  fail_if (not (tx.nonce == expected)) (invalid_nonce tx.from expected tx.nonce)
  next ← ok_or (checked_add u64_max tx.nonce 1) (invalid_transaction "transaction nonce overflow")
  paid ← ok_or (fee tx) (invalid_transaction "transaction fee overflows")
  execute tx paid
  modify (set_nonce tx.from next)
  pure paid

pub record StateSnapshot : Type 0 where
  pub chain_id : ℕ
  pub accounts : List (Address × Account)

unfoldable pub snapshot : State → StateSnapshot
snapshot s = record { chain_id = s.chain_id; accounts = sort s.accounts }

-- The loop of `from_snapshot`: `insert` reports a key that was there.
unfoldable pub insert_accounts :
    Map Address Account → List (Address × Account) → Result StateError (Map Address Account)
insert_accounts m [] = ok m
insert_accounts m ((a, acc) ∷ rest) =
    let next = insert_accounts (Map.insert a acc m) rest in
    if contains a m then err (invalid_snapshot "snapshot contains duplicate accounts") else next

unfoldable pub from_snapshot : StateSnapshot → Result StateError State
unfolding insert_accounts
from_snapshot sn =
    if sn.chain_id == 0
    then err (invalid_snapshot "chain ID cannot be zero")
    else elim (insert_accounts [] sn.accounts) [
      | ok m ↦ ok (record { accounts = m; chain_id = sn.chain_id })
      | err e ↦ err e
    ]

-- What third-party code computes for `root`: `bincode` on a snapshot, and BLAKE3.
module _ (encode_snapshot : StateSnapshot → List Byte) (blake3 : List Byte → Hash) where
  unfoldable pub root : State → Hash
  unfolding snapshot
  root s = blake3 (encode_snapshot (snapshot s))
