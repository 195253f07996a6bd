-- ===== src/Mempool/Admit.antt =====
-- crates/subhost-mempool/src/lib.rs: every outcome of `admit`.
use sub_host_demo.Base.{
  ℕ, ◌≤◌, ◌<◌, ◌≡◌, refl, true, false, Option, none, some, arith, ◌==◌, nat_eq, if◌then◌else◌, ◌&&◌,
  not, Option-cases, Bool-cases, inl, inr, leb, ltb, ok, err, length,
}
use mathlib.Core.Path.{subst, subst₂}
use sub_host_demo.Core.{Address, Hash, Transaction, Digest, tx_hash, total_cost}
use sub_host_demo.Map
use sub_host_demo.Map.{Map, get-insert, get-remove, get-empty, is_some}
use sub_host_demo.Mempool.{
  Mempool, MempoolError, full, sender_queue_full, Admission, slot, occupy, unslot, drop_tx, remove,
  data_too_large, gas_price_too_low, invalid_transaction, lowest, evict_lowest_priority, or_else,
  price, make_room, enter, replace, compete, admit, kept, len, sender_len, get_tx, has,
}
use sub_host_demo.Mempool.Slots.{slot-unslot, slot-release}
use sub_host_demo.Mempool.Consistent.{
  IsConsistent, IsOwner, remove-IsConsistent, take_out-IsConsistent, occupy-IsConsistent,
  slot-drop_tx, txs-release, txs-unslot, txs-drop_tx,
}

abbrev pub admitted : Hash → Option Transaction → Admission
admitted h displaced = record { hash = h; accepted = true; displaced = displaced }

-- The ways `enter` ends.
pub data Entered (h : Hash) (tx : Transaction) (displaced : Option Transaction) (p : Mempool)
    : Type 0 where
  over_budget :
      displaced ≡ none
      → p.config.max_per_sender ≤ sender_len tx.from p
      → enter h tx displaced p ≡ (err (sender_queue_full tx.from), p)
      → Entered h tx displaced p
  roomy :
      ((displaced ≡ none) → sender_len tx.from p < p.config.max_per_sender)
      → len p < p.config.max_pending
      → enter h tx displaced p ≡ (ok (admitted h displaced), occupy h tx p)
      → Entered h tx displaced p
  no_victim :
      p.config.max_pending ≤ len p
      → lowest p.txs ≡ none
      → enter h tx displaced p ≡ (err full, p)
      → Entered h tx displaced p
  evicting :
      ((displaced ≡ none) → sender_len tx.from p < p.config.max_per_sender)
      → p.config.max_pending ≤ len p
      → (v : Hash × Transaction) → lowest p.txs ≡ some v
      → enter h tx displaced p
        ≡ (ok (admitted h (or_else displaced (get_tx v.0 p))), occupy h tx (remove v.0 p).1)
      → Entered h tx displaced p

pub enter_cases :
    (h : Hash) (tx : Transaction) (displaced : Option Transaction) (p : Mempool)
    → Entered h tx displaced p
unfolding enter make_room evict_lowest_priority
enter_cases h tx displaced p =
    elim (Bool-cases
      (not (is_some displaced) && leb p.config.max_per_sender (sender_len tx.from p))) [
        | inl over ↦ over_budget (ground arith) (ground arith) (ground arith)
        | inr within ↦ elim (Bool-cases (leb p.config.max_pending (len p))) [
          | inr room ↦ roomy (λ e. ground arith) (ground arith) (ground arith)
          | inl crowded ↦ elim (Option-cases (lowest p.txs)) [
            | inl nobody ↦ no_victim (ground arith) nobody (ground arith)
            | inr (v, e) ↦ evicting (λ x. ground arith) (ground arith) v e (ground arith)
          ]
        ]
      ]

-- The ways `compete` ends.
pub data Competed (h : Hash) (tx : Transaction) (p : Mempool) : Type 0 where
  fresh : slot tx.from tx.nonce p ≡ none → compete h tx p ≡ enter h tx none p → Competed h tx p
  outbid :
      (old : Hash)
      → slot tx.from tx.nonce p ≡ some old
      → tx.gas_price ≤ price (get_tx old p)
      → compete h tx p ≡ (ok (kept old), p)
      → Competed h tx p
  replacing :
      (old : Hash)
      → slot tx.from tx.nonce p ≡ some old
      → price (get_tx old p) < tx.gas_price
      → compete h tx p ≡ enter h tx (get_tx old p) (unslot tx.from tx.nonce (drop_tx old p))
      → Competed h tx p

pub compete_cases : (h : Hash) (tx : Transaction) (p : Mempool) → Competed h tx p
unfolding compete replace
compete_cases h tx p = elim (Option-cases (slot tx.from tx.nonce p)) [
  | inl free ↦ fresh free (ground arith)
  | inr (old, e) ↦ elim (Bool-cases (leb tx.gas_price (price (get_tx old p)))) [
    | inl cheap ↦ outbid old e (ground arith) (ground arith)
    | inr dear ↦ replacing old e (ground arith) (ground arith)
  ]
]

module _ (d : Digest) where
  -- The ways `admit` ends: an early refusal, the same hash again, or the contest for the slot.
  pub data Admitted (tx : Transaction) (p : Mempool) : Type 0 where
    refused : (e : MempoolError) → admit d tx p ≡ (err e, p) → Admitted tx p
    known :
        has (tx_hash d tx) p ≡ true
        → admit d tx p ≡ (ok (admitted (tx_hash d tx) none), p)
        → Admitted tx p
    contest :
        has (tx_hash d tx) p ≡ false
        → p.config.min_gas_price ≤ tx.gas_price
        → 0 < tx.gas_limit
        → admit d tx p ≡ compete (tx_hash d tx) tx p
        → Admitted tx p

  pub admit_cases : (tx : Transaction) (p : Mempool) → Admitted tx p
  unfolding admit
  admit_cases tx p = elim (Bool-cases (ltb p.config.max_tx_data_bytes (length tx.payload))) [
    | inl long ↦
        refused (data_too_large (length tx.payload) p.config.max_tx_data_bytes) (ground arith)
    | inr short ↦ elim (Bool-cases (has (tx_hash d tx) p)) [
      | inl again ↦ known again (ground arith)
      | inr new ↦ elim (Bool-cases (tx.gas_limit == 0)) [
        | inl idle ↦ refused (invalid_transaction "gas limit must be > 0") (ground arith)
        | inr gas ↦ elim (Bool-cases (ltb tx.gas_price p.config.min_gas_price)) [
          | inl cheap ↦
              refused (gas_price_too_low tx.gas_price p.config.min_gas_price) (ground arith)
          | inr paid ↦ elim (Bool-cases (is_some (total_cost tx))) [
            | inl costed ↦ contest new (ground arith) (ground arith) (ground arith)
            | inr over ↦
                refused (invalid_transaction "gas_price * gas_limit + value overflows")
                  (ground arith)
          ]
        ]
      ]
    ]
  ]

  pub txs-remove :
      (h j : Hash) (p : Mempool)
      → Map.get j (remove h p).1.txs ≡ (if h == j then none else Map.get j p.txs)
  unfolding remove
  txs-remove h j p = elim (Option-cases (Map.get h p.txs)) [
    | inl missing ↦ ground arith
    | inr (tx, e) ↦
        ground (arith, txs-release d tx.from tx.nonce (drop_tx h p), txs-drop_tx d h j p)
  ]

  pub slot-remove-none :
      (h : Hash) (s : Address) (n : ℕ) (p : Mempool)
      → slot s n p ≡ none
      → slot s n (remove h p).1 ≡ none
  unfolding remove
  slot-remove-none h s n p free = elim (Option-cases (Map.get h p.txs)) [
    | inl missing ↦ ground arith
    | inr (tx, e) ↦
        ground (arith, slot-release tx.from s tx.nonce n (drop_tx h p), slot-drop_tx d s n h p)
  ]

  enter-IsConsistent :
      (tx : Transaction) (displaced : Option Transaction) (p : Mempool)
      → IsConsistent d p
      → Map.get (tx_hash d tx) p.txs ≡ none
      → slot tx.from tx.nonce p ≡ none
      → IsConsistent d (enter (tx_hash d tx) tx displaced p).1
  enter-IsConsistent tx displaced p c new free =
      by_cases (enter_cases (tx_hash d tx) tx displaced p)
    where
      by_cases :
          Entered (tx_hash d tx) tx displaced p
          → IsConsistent d (enter (tx_hash d tx) tx displaced p).1
      by_cases (over_budget _ _ e) = rw e c
      by_cases (no_victim _ _ e) = rw e c
      by_cases (roomy _ _ e) = rw e (occupy-IsConsistent d (tx_hash d tx) tx p c refl new free)
      by_cases (evicting _ _ v _ e) = rw e (
          occupy-IsConsistent d (tx_hash d tx) tx (remove v.0 p).1 (remove-IsConsistent d v.0 p c)
            refl (ground (arith, txs-remove v.0 (tx_hash d tx) p))
            (slot-remove-none v.0 tx.from tx.nonce p free))

  pub has-none : (h : Hash) (p : Mempool) → has h p ≡ false → Map.get h p.txs ≡ none
  unfolding has
  has-none h p e = ground arith

  pub owner_there :
      (s : Address) (n : ℕ) (h : Hash) (p : Mempool)
      → IsConsistent d p
      → slot s n p ≡ some h
      → (old : Transaction) × (Map.get h p.txs ≡ some old) × (old.from ≡ s) × (old.nonce ≡ n)
  owner_there s n h p c e = elim (Option-cases (Map.get h p.txs)) [
    | inl missing ↦ absurd (subst (IsOwner s n) missing (c.owned s n h e))
    | inr (old, there) ↦
        let o = subst (IsOwner s n) there (c.owned s n h e) in (old, there, o.0, o.1)
  ]

  pub taken-IsConsistent :
      (tx : Transaction) (old : Hash) (u : Transaction) (p : Mempool)
      → IsConsistent d p
      → Map.get old p.txs ≡ some u
      → u.from ≡ tx.from
      → u.nonce ≡ tx.nonce
      → IsConsistent d (unslot tx.from tx.nonce (drop_tx old p))
  taken-IsConsistent tx old u p c there f n =
      subst₂ (λ a b. IsConsistent d (unslot a b (drop_tx old p))) f n
        (take_out-IsConsistent d old u p c there)

  -- Whatever becomes of a submission to a consistent pool, the pool's index and its transactions
  -- agree afterwards.
  pub admit-IsConsistent :
      (tx : Transaction) (p : Mempool) → IsConsistent d p → IsConsistent d (admit d tx p).1
  admit-IsConsistent tx p c = by_cases (admit_cases tx p)
    where
      contested :
          Competed (tx_hash d tx) tx p
          → has (tx_hash d tx) p ≡ false
          → IsConsistent d (compete (tx_hash d tx) tx p).1
      contested (fresh free e) new =
          rw e (enter-IsConsistent tx none p c (has-none (tx_hash d tx) p new) free)
      contested (outbid _ _ _ e) new = rw e c
      contested (replacing old held _ e) new =
          let (u, there, f, n) = owner_there tx.from tx.nonce old p c held in
          rw e (
            enter-IsConsistent tx (get_tx old p) (unslot tx.from tx.nonce (drop_tx old p))
              (taken-IsConsistent tx old u p c there f n)
              (ground (
                arith,
                txs-unslot d tx.from tx.nonce (drop_tx old p),
                txs-drop_tx d old (tx_hash d tx) p,
                has-none (tx_hash d tx) p new,
              ))
              (ground (arith, slot-unslot tx.from tx.from tx.nonce tx.nonce (drop_tx old p))))

      by_cases : Admitted tx p → IsConsistent d (admit d tx p).1
      by_cases (refused _ e) = rw e c
      by_cases (known _ e) = rw e c
      by_cases (contest new _ _ e) = rw e (contested (compete_cases (tx_hash d tx) tx p) new)
