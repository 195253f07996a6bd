-- ===== src/Mempool/Outcome.antt =====
-- crates/subhost-mempool/src/lib.rs: what `admit` promises its caller.
use sub_host_demo.Base.{
  ℕ, ◌≤◌, ◌<◌, ◌≡◌, ◌∙◌, sym, ap, refl, true, false, Option, none, some, [], ◌∷◌, arith, ◌==◌,
  nat_eq, if◌then◌else◌, length, ok, err,
}
use sub_host_demo.Core.{Address, Hash, Transaction, Digest, tx_hash}
use sub_host_demo.Map
use sub_host_demo.Map.{Map, get-insert}
use sub_host_demo.Mempool.{
  Mempool, MempoolConfig, MempoolError, sender_queue_full, full, slot, occupy, unslot, drop_tx,
  remove, len, lowest, enter, compete, admit, get_tx, has, price, or_else, kept,
}
use sub_host_demo.Mempool.Slots.{slot-occupy}
use sub_host_demo.Mempool.Consistent.{IsConsistent}
use sub_host_demo.Mempool.Admit.{
  admitted, Entered, over_budget, roomy, no_victim, evicting, enter_cases, Competed, fresh, outbid,
  replacing, compete_cases, Admitted, refused, known, contest, admit_cases, owner_there,
}

lowest-none : (m : Map Hash Transaction) → lowest m ≡ none → length m ≡ 0
unfolding lowest
lowest-none [] h = refl
lowest-none (e ∷ m) h = cc

get_tx-occupy :
    (h j : Hash) (tx : Transaction) (p : Mempool)
    → get_tx j (occupy h tx p) ≡ (if h == j then some tx else get_tx j p)
unfolding get_tx occupy
get_tx-occupy h j tx p = get-insert h j tx p.txs

len-length : (p : Mempool) → len p ≡ length p.txs
unfolding len
len-length p = refl

config-taken :
    (s : Address) (n : ℕ) (h : Hash) (p : Mempool) → (unslot s n (drop_tx h p)).config ≡ p.config
unfolding unslot drop_tx
config-taken s n h p = ground arith

-- What an admission that has just taken the slot leaves behind.
pub record HoldsSlot (h : Hash) (tx : Transaction) (p : Mempool) : Type 0 where
  pub slotted : slot tx.from tx.nonce p ≡ some h
  pub pending : get_tx h p ≡ some tx

occupy-HoldsSlot : (h : Hash) (tx : Transaction) (p : Mempool) → HoldsSlot h tx (occupy h tx p)
occupy-HoldsSlot h tx p = record {
  slotted = ground (arith, slot-occupy tx.from tx.nonce h tx p);
  pending = ground (arith, get_tx-occupy h h tx p);
}

-- How a call of `admit` may end, given the pool before.
pub data Outcome (d : Digest) (tx : Transaction) (p : Mempool) : Type 0 where
  failed : (e : MempoolError) → admit d tx p ≡ (err e, p) → Outcome d tx p
  again :
      has (tx_hash d tx) p ≡ true
      → admit d tx p ≡ (ok (admitted (tx_hash d tx) none), p)
      → Outcome d tx p
  beaten :
      (old : Hash)
      → slot tx.from tx.nonce p ≡ some old
      → tx.gas_price ≤ price (get_tx old p)
      → admit d tx p ≡ (ok (kept old), p)
      → Outcome d tx p
  entered :
      (displaced : Option Transaction)
      → has (tx_hash d tx) p ≡ false
      → ((old : Hash) → slot tx.from tx.nonce p ≡ some old → price (get_tx old p) < tx.gas_price)
      → (admit d tx p).0 ≡ ok (admitted (tx_hash d tx) displaced)
      → HoldsSlot (tx_hash d tx) tx (admit d tx p).1
      → Outcome d tx p

module _ (d : Digest) where
  get_tx-there :
      (h : Hash) (u : Transaction) (p : Mempool) → Map.get h p.txs ≡ some u → get_tx h p ≡ some u
  unfolding get_tx
  get_tx-there h u p e = e

  -- A submission to a consistent pool of positive capacity fails and changes nothing, or is the hash
  -- that is pending already, or loses the slot to a transaction that pays as much and changes
  -- nothing, or takes the slot from one that pays strictly less (if any) and is then pending there.
  pub admit-Outcome :
      (tx : Transaction) (p : Mempool)
      → IsConsistent d p
      → 0 < p.config.max_pending
      → Outcome d tx p
  admit-Outcome tx p c roomy_pool = by_cases (admit_cases d tx p)
    where
      h : Hash
      h = tx_hash d tx

      uncontested :
          slot tx.from tx.nonce p ≡ none
          → has h p ≡ false
          → admit d tx p ≡ enter h tx none p
          → Entered h tx none p
          → Outcome d tx p
      uncontested free new e (over_budget _ _ x) = failed (sender_queue_full tx.from) (e ∙ x)
      uncontested free new e (no_victim _ _ x) = failed full (e ∙ x)
      uncontested free new e (roomy _ _ x) =
          entered none new (λ old o. absurd (cc (sym free ∙ o))) (ap (λ r. r.0) (e ∙ x))
            (rw (e ∙ x) (occupy-HoldsSlot h tx p))
      uncontested free new e (evicting _ _ v _ x) =
          entered (get_tx v.0 p) new (λ old o. absurd (cc (sym free ∙ o))) (ap (λ r. r.0) (e ∙ x))
            (rw (e ∙ x) (occupy-HoldsSlot h tx (remove v.0 p).1))

      outbidding :
          (old : Hash) (u : Transaction)
          → slot tx.from tx.nonce p ≡ some old
          → get_tx old p ≡ some u
          → price (get_tx old p) < tx.gas_price
          → has h p ≡ false
          → let q = unslot tx.from tx.nonce (drop_tx old p) in
            admit d tx p ≡ enter h tx (get_tx old p) q
            → Entered h tx (get_tx old p) q
            → Outcome d tx p
      outbidding old u held there low new e (over_budget none_there _ _) =
          absurd (cc (sym there ∙ none_there))
      outbidding old u held there low new e (no_victim crowded nobody _) =
          let q = unslot tx.from tx.nonce (drop_tx old p) in
          absurd (
            omega (
              arith,
              lowest-none q.txs nobody,
              len-length q,
              ap (λ (k : MempoolConfig). k.max_pending) (config-taken tx.from tx.nonce old p),
            ))
      outbidding old u held there low new e (roomy _ _ x) =
          entered (get_tx old p) new (λ o e'. ground arith) (ap (λ r. r.0) (e ∙ x))
            (rw (e ∙ x) (occupy-HoldsSlot h tx (unslot tx.from tx.nonce (drop_tx old p))))
      outbidding old u held there low new e (evicting _ _ v _ x) =
          let q = unslot tx.from tx.nonce (drop_tx old p) in
          entered (or_else (get_tx old p) (get_tx v.0 q)) new (λ o e'. ground arith)
            (ap (λ r. r.0) (e ∙ x)) (rw (e ∙ x) (occupy-HoldsSlot h tx (remove v.0 q).1))

      contested : has h p ≡ false → admit d tx p ≡ compete h tx p → Competed h tx p → Outcome d tx p
      contested new e (fresh free x) = uncontested free new (e ∙ x) (enter_cases h tx none p)
      contested new e (outbid old held low x) = beaten old held low (e ∙ x)
      contested new e (replacing old held low x) =
          let (u, there, _, _) = owner_there d tx.from tx.nonce old p c held in
          outbidding old u held (get_tx-there old u p there) low new (e ∙ x)
            (enter_cases h tx (get_tx old p) (unslot tx.from tx.nonce (drop_tx old p)))

      by_cases : Admitted d tx p → Outcome d tx p
      by_cases (refused e x) = failed e x
      by_cases (known k x) = again k x
      by_cases (contest new _ _ x) = contested new x (compete_cases h tx p)
