-- ===== src/Mempool/Capacity.antt =====
-- crates/subhost-mempool/src/lib.rs: the pool never outgrows its limits.
use sub_host_demo.Base.{
  ℕ, ◌+◌, ◌≤◌, ◌<◌, ◌≡◌, ◌∙◌, sym, refl, true, Option, none, some, [], ◌∷◌, arith, ◌==◌, nat_eq,
  if◌then◌else◌, Option-cases, inl, inr, length, is_empty,
}
use mathlib.Core.Path.{subst}
use sub_host_demo.Core.{Address, Hash, Transaction, Digest, tx_hash}
use sub_host_demo.Map
use sub_host_demo.Map.{Map, get-insert, get-remove, get-retain, get-empty}
use sub_host_demo.Map.Keys.{IsMap, length-insert, length-remove}
use sub_host_demo.Mempool.{
  Mempool, MempoolConfig, slot, occupy, unslot, drop_tx, store_queue, release, remove, or_empty,
  len, sender_len, enter, compete, admit, get_tx,
}
use sub_host_demo.Mempool.Consistent.{IsConsistent, HasKeys, keys_of, slot-drop_tx, drop_tx-HasKeys}
use sub_host_demo.Mempool.Victim.{lowest_lem}
use sub_host_demo.Mempool.Admit.{
  Entered, over_budget, roomy, no_victim, evicting, enter_cases, Competed, fresh, outbid, replacing,
  compete_cases, Admitted, refused, known, contest, admit_cases, owner_there, taken-IsConsistent,
}

len-occupy : (h : Hash) (tx : Transaction) (p : Mempool) → len (occupy h tx p) ≤ len p + 1
unfolding len occupy
len-occupy h tx p = ground (arith, length-insert h tx p.txs)

len-drop_tx :
    (h : Hash) (tx : Transaction) (p : Mempool)
    → HasKeys p
    → Map.get h p.txs ≡ some tx
    → len (drop_tx h p) + 1 ≡ len p
unfolding len drop_tx
len-drop_tx h tx p k e = ground (arith, length-remove h p.txs k.tx_keys)

len-release : (s : Address) (n : ℕ) (p : Mempool) → len (release s n p) ≡ len p
unfolding len release store_queue
len-release s n p = ground arith

len-unslot : (s : Address) (n : ℕ) (p : Mempool) → len (unslot s n p) ≡ len p
unfolding len unslot
len-unslot s n p = ground arith

len-remove :
    (h : Hash) (tx : Transaction) (p : Mempool)
    → HasKeys p
    → Map.get h p.txs ≡ some tx
    → len (remove h p).1 + 1 ≡ len p
unfolding remove
len-remove h tx p k e =
    ground (arith, len-release tx.from tx.nonce (drop_tx h p), len-drop_tx h tx p k e)

sender_len-occupy :
    (s : Address) (h : Hash) (tx : Transaction) (p : Mempool)
    → sender_len s (occupy h tx p) ≤ sender_len s p + (if tx.from == s then 1 else 0)
unfolding sender_len occupy
sender_len-occupy s h tx p =
    let nonces = or_empty (Map.get tx.from p.by_sender) in
    ground (
      arith,
      get-insert tx.from s (Map.insert tx.nonce h nonces) p.by_sender,
      length-insert tx.nonce h nonces,
    )

sender_len-drop_tx :
    (s : Address) (h : Hash) (p : Mempool) → sender_len s (drop_tx h p) ≡ sender_len s p
unfolding sender_len drop_tx
sender_len-drop_tx s h p = refl

sender_len-unslot :
    (s s' : Address) (n : ℕ) (h : Hash) (p : Mempool)
    → HasKeys p
    → slot s n p ≡ some h
    → sender_len s' (unslot s n p) + (if s == s' then 1 else 0) ≡ sender_len s' p
unfolding sender_len unslot slot
sender_len-unslot s s' n h p k e = elim (Option-cases (Map.get s p.by_sender)) [
  | inl missing ↦ ground arith
  | inr (q, there) ↦ ground (
    arith,
    get-insert s s' (Map.remove n q) p.by_sender,
    length-remove n q (k.nonce_keys s q there),
  )
]

length-remove-le : (n : ℕ) (q : Map ℕ Hash) → IsMap q → length (Map.remove n q) ≤ length q
length-remove-le n q k = ground (arith, length-remove n q k)

length-empty : (q : Map ℕ Hash) → is_empty q ≡ true → length q ≡ 0
length-empty [] h = refl
length-empty (e ∷ q) h = cc

sender_len-store_queue :
    (s s' : Address) (q : Map ℕ Hash) (p : Mempool)
    → sender_len s' (store_queue s q p) ≡ (if s == s' then length q else sender_len s' p)
unfolding sender_len store_queue
sender_len-store_queue s s' q p =
    ground (arith, get-insert s s' q p.by_sender, get-remove s s' p.by_sender, length-empty q)

sender_len-release :
    (s s' : Address) (n : ℕ) (p : Mempool)
    → HasKeys p
    → sender_len s' (release s n p) ≤ sender_len s' p
unfolding release
sender_len-release s s' n p k = elim (Option-cases (Map.get s p.by_sender)) [
  | inl missing ↦ rw (missing, release) (omega arith)
  | inr (q, e) ↦ ground (
    arith,
    sender_len-store_queue s s' (Map.remove n q) p,
    length-remove-le n q (k.nonce_keys s q e),
    queued q e,
  )
]
  where
    queued : (q : Map ℕ Hash) → Map.get s p.by_sender ≡ some q → sender_len s p ≡ length q
    queued q e = unfold sender_len in ground arith

sender_len-remove :
    (h : Hash) (s : Address) (p : Mempool)
    → HasKeys p
    → sender_len s (remove h p).1 ≤ sender_len s p
unfolding remove
sender_len-remove h s p k = elim (Option-cases (Map.get h p.txs)) [
  | inl missing ↦ ground arith
  | inr (tx, e) ↦ ground (
    arith,
    sender_len-release tx.from s tx.nonce (drop_tx h p) (drop_tx-HasKeys h p k),
    sender_len-drop_tx s h p,
  )
]

-- The configured limits hold.
pub record IsBounded (c : MempoolConfig) (p : Mempool) : Type 0 where
  pub configured : p.config ≡ c
  pub size : len p ≤ c.max_pending
  pub budgets : (s : Address) → sender_len s p ≤ c.max_per_sender

config-occupy : (h : Hash) (tx : Transaction) (p : Mempool) → (occupy h tx p).config ≡ p.config
unfolding occupy
config-occupy h tx p = refl

config-unslot : (s : Address) (n : ℕ) (p : Mempool) → (unslot s n p).config ≡ p.config
unfolding unslot
config-unslot s n p = ground arith

config-drop_tx : (h : Hash) (p : Mempool) → (drop_tx h p).config ≡ p.config
unfolding drop_tx
config-drop_tx h p = refl

config-remove : (h : Hash) (p : Mempool) → (remove h p).1.config ≡ p.config
unfolding remove release store_queue drop_tx
config-remove h p = ground arith

module _ (d : Digest) (c : MempoolConfig) where
  -- A slot has just been freed for the sender, or there is room in its budget.
  abbrev HasBudget : Transaction → Option Transaction → Mempool → Type 0
  HasBudget tx none p = Unit
  HasBudget tx (some _) p = sender_len tx.from p < c.max_per_sender

  has_budget :
      (tx : Transaction) (displaced : Option Transaction) (p : Mempool)
      → HasBudget tx displaced p
      → ((displaced ≡ none) → sender_len tx.from p < c.max_per_sender)
      → sender_len tx.from p < c.max_per_sender
  has_budget tx none p h k = k refl
  has_budget tx (some _) p h k = h

  enter-IsBounded :
      (h : Hash) (tx : Transaction) (displaced : Option Transaction) (p : Mempool)
      → IsConsistent d p
      → IsBounded c p
      → HasBudget tx displaced p
      → IsBounded c (enter h tx displaced p).1
  enter-IsBounded h tx displaced p k b budget = by_cases (enter_cases h tx displaced p)
    where
      limits : (p.config.max_per_sender ≡ c.max_per_sender) × (p.config.max_pending ≡ c.max_pending)
      limits = rw b.configured (refl, refl)

      by_cases : Entered h tx displaced p → IsBounded c (enter h tx displaced p).1
      by_cases (over_budget _ _ e) = rw e b
      by_cases (no_victim _ _ e) = rw e b
      by_cases (roomy queue room e) = rw e (record {
        configured = config-occupy h tx p ∙ b.configured;
        size = omega (arith, len-occupy h tx p, limits.1);
        budgets = λ s. ground (
          arith,
          sender_len-occupy s h tx p,
          b.budgets s,
          has_budget tx displaced p budget (λ x. omega (arith, queue x, limits.0)),
        );
      })
      by_cases (evicting queue crowded v found e) =
          let there = lowest_lem p.txs v k.tx_keys found in
          rw e (record {
            configured = config-occupy h tx (remove v.0 p).1 ∙ config-remove v.0 p ∙ b.configured;
            size = omega (
              arith,
              len-occupy h tx (remove v.0 p).1,
              len-remove v.0 v.1 p (keys_of k) there.0,
              b.size,
            );
            budgets = λ s. ground (
              arith,
              sender_len-occupy s h tx (remove v.0 p).1,
              sender_len-remove v.0 s p (keys_of k),
              b.budgets s,
              has_budget tx displaced p budget (λ x. omega (arith, queue x, limits.0)),
            );
          })

  unslot-IsBounded :
      (tx : Transaction) (old : Hash) (u : Transaction) (p : Mempool)
      → IsConsistent d p
      → IsBounded c p
      → slot tx.from tx.nonce p ≡ some old
      → Map.get old p.txs ≡ some u
      → IsBounded c (unslot tx.from tx.nonce (drop_tx old p))
        × (sender_len tx.from (unslot tx.from tx.nonce (drop_tx old p)) < c.max_per_sender)
  unslot-IsBounded tx old u p k b held there = (
    record {
      configured =
          config-unslot tx.from tx.nonce (drop_tx old p) ∙ config-drop_tx old p ∙ b.configured;
      size = omega (
        arith,
        len-unslot tx.from tx.nonce (drop_tx old p),
        len-drop_tx old u p (keys_of k) there,
        b.size,
      );
      budgets = λ s. ground (arith, shrinks s, b.budgets s);
    },
    ground (arith, shrinks tx.from, b.budgets tx.from),
  )
    where
      held' : slot tx.from tx.nonce (drop_tx old p) ≡ some old
      held' = slot-drop_tx d tx.from tx.nonce old p ∙ held

      shrinks :
          (s : Address)
          → sender_len s (unslot tx.from tx.nonce (drop_tx old p)) + (if tx.from == s then 1 else 0)
            ≡ sender_len s p
      shrinks s =
          sender_len-unslot tx.from s tx.nonce old (drop_tx old p)
            (drop_tx-HasKeys old p (keys_of k)) held'
          ∙ sender_len-drop_tx s old p

  get_tx-eq :
      (h : Hash) (u : Transaction) (p : Mempool) → Map.get h p.txs ≡ some u → get_tx h p ≡ some u
  unfolding get_tx
  get_tx-eq h u p e = e

  -- From a consistent pool within its limits, a submission of whatever kind leaves a pool within
  -- the limits: no more transactions than the configured maximum, and none of the senders with more
  -- than its share.
  pub admit-IsBounded :
      (tx : Transaction) (p : Mempool)
      → IsConsistent d p
      → IsBounded c p
      → IsBounded c (admit d tx p).1
  admit-IsBounded tx p k b = by_cases (admit_cases d tx p)
    where
      contested : Competed (tx_hash d tx) tx p → IsBounded c (compete (tx_hash d tx) tx p).1
      contested (fresh free e) = rw e (enter-IsBounded (tx_hash d tx) tx none p k b tt)
      contested (outbid _ _ _ e) = rw e b
      contested (replacing old held _ e) =
          let (u, there, f, n) = owner_there d tx.from tx.nonce old p k held in
          let (b', budget) = unslot-IsBounded tx old u p k b held there in
          let q = unslot tx.from tx.nonce (drop_tx old p) in
          rw e (
            subst (λ o. IsBounded c (enter (tx_hash d tx) tx o q).1) (sym (get_tx-eq old u p there))
              (enter-IsBounded (tx_hash d tx) tx (some u) q
                (taken-IsConsistent d tx old u p k there f n) b' budget))

      by_cases : Admitted d tx p → IsBounded c (admit d tx p).1
      by_cases (refused _ e) = rw e b
      by_cases (known _ e) = rw e b
      by_cases (contest _ _ _ e) = rw e (contested (compete_cases (tx_hash d tx) tx p))
