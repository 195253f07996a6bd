-- ===== src/Tests/Pool.antt =====
-- The mempool at concrete inputs: pools of two transactions at most.
use sub_host_demo.Base.{◌≡◌, refl, some, [], ◌∷◌, arith, nat_eq}
use sub_host_demo.Core.{Hash, Transaction}
use sub_host_demo.Map
use sub_host_demo.Map.{Map}
use sub_host_demo.Mempool
use sub_host_demo.Mempool.{
  Mempool, MempoolConfig, Admission, admit, remove, lowest, lowest_from, cheaper, ready_for,
  pending, proposes, new, try_new, validate,
}
use sub_host_demo.Mempool.Consistent.{IsConsistent, new-IsConsistent}
use sub_host_demo.Mempool.Admit.{admit-IsConsistent}
use sub_host_demo.Mempool.Capacity.{IsBounded, admit-IsBounded}
use sub_host_demo.Mempool.Outcome.{Outcome, admit-Outcome}
use sub_host_demo.Mempool.{get_tx, slot, prune_below_nonce}
use sub_host_demo.Mempool.Prune.{is_stale, prune_below_nonce_exact}
use sub_host_demo.Base.{ℕ, none, if◌then◌else◌, ◌==◌, ◌&&◌, ltb}
use sub_host_demo.Core.{Address}
use sub_host_demo.Tests.Fixtures.{digest, payment}

abbrev small : MempoolConfig
small = record { max_pending = 2; max_per_sender = 2; min_gas_price = 1; max_tx_data_bytes = 8 }

-- Two of one sender, and a third that pays less than either.
abbrev one : Mempool
one = (admit digest (payment 1 0 4) (new small)).1

abbrev two : Mempool
two = (admit digest (payment 1 1 6) one).1

one-IsConsistent : IsConsistent digest one
one-IsConsistent =
    admit-IsConsistent digest (payment 1 0 4) (new small) (new-IsConsistent digest small)

two-IsConsistent : IsConsistent digest two
two-IsConsistent = admit-IsConsistent digest (payment 1 1 6) one one-IsConsistent

small-config : (new small).config ≡ small
unfolding new try_new validate
small-config = refl

new-IsBounded : IsBounded small (new small)
unfolding new try_new validate Mempool.len Mempool.sender_len Map.get
new-IsBounded = record { configured = refl; size = omega arith; budgets = λ s. omega arith }

one-IsBounded : IsBounded small one
one-IsBounded =
    admit-IsBounded digest small (payment 1 0 4) (new small) (new-IsConsistent digest small)
      new-IsBounded

admit-IsConsistent_example : IsConsistent digest (admit digest (payment 3 0 2) two).1
admit-IsConsistent_example = admit-IsConsistent digest (payment 3 0 2) two two-IsConsistent

admit-IsBounded_example : IsBounded small (admit digest (payment 1 1 6) one).1
admit-IsBounded_example =
    admit-IsBounded digest small (payment 1 1 6) one one-IsConsistent one-IsBounded

abbrev entries : Map Hash Transaction
entries = (11, payment 1 0 4) ∷ (12, payment 3 0 2) ∷ []

entries-lowest : lowest entries ≡ some (12, payment 3 0 2)
unfolding lowest lowest_from cheaper
entries-lowest = refl

admit-Outcome_example : Outcome digest (payment 1 1 6) one
admit-Outcome_example =
    admit-Outcome digest (payment 1 1 6) one one-IsConsistent
      (rw one-IsBounded.configured (omega arith))

prune_below_nonce_exact_example :
    ((j : Hash)
      → get_tx j (prune_below_nonce 1 1 two).1
        ≡ (if is_stale 1 1 (get_tx j two) then none else get_tx j two))
    × ((a : Address) (n : ℕ)
        → slot a n (prune_below_nonce 1 1 two).1
          ≡ (if (1 == a) && ltb n 1 then none else slot a n two))
prune_below_nonce_exact_example = prune_below_nonce_exact digest 1 1 two two-IsConsistent
