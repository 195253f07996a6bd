-- ===== src/Mempool/Consistent.antt =====
-- crates/subhost-mempool/src/lib.rs: the index by sender and the transactions agree.
use sub_host_demo.Base.{
  ℕ, ◌≡◌, refl, Option, none, some, [], arith, ◌==◌, nat_eq, if◌then◌else◌, ◌&&◌, Option-cases,
  Bool-cases, inl, inr, is_empty, ⊤, ok, err, Result,
}
use sub_host_demo.Core.{Address, Hash, Transaction, Digest, tx_hash}
use sub_host_demo.Map
use sub_host_demo.Map.{Map, get-insert, get-remove, get-retain, get-empty}
use sub_host_demo.Map.Keys.{IsMap, insert-IsMap, remove-IsMap}
use sub_host_demo.Mempool.{
  Mempool, MempoolConfig, slot, or_empty, occupy, unslot, drop_tx, store_queue, release, remove,
  new, try_new, validate, MempoolError, default_config,
}
use sub_host_demo.Mempool.Slots.{slot-occupy, slot-unslot, slot-release}

-- The slot of `s` and `n` holds a transaction of that sender and nonce.
abbrev pub IsOwner : Address → ℕ → Option Transaction → Type 0
IsOwner s n none = ⊥
IsOwner s n (some tx) = (tx.from ≡ s) × (tx.nonce ≡ n)

-- Every transaction stands under its hash and holds the slot of its sender and nonce, and
-- every slot that is taken leads to such a transaction. No key is there twice.
pub record IsConsistent (d : Digest) (p : Mempool) : Type 0 where
  pub tx_keys : IsMap p.txs
  pub sender_keys : IsMap p.by_sender
  pub nonce_keys :
      (s : Address) (nonces : Map ℕ Hash) → Map.get s p.by_sender ≡ some nonces → IsMap nonces
  pub indexed :
      (h : Hash) (tx : Transaction)
      → Map.get h p.txs ≡ some tx
      → (tx_hash d tx ≡ h) × (slot tx.from tx.nonce p ≡ some h)
  pub owned : (s : Address) (n : ℕ) (h : Hash) → slot s n p ≡ some h → IsOwner s n (Map.get h p.txs)

-- The key conditions alone.
pub record HasKeys (p : Mempool) : Type 0 where
  pub tx_keys : IsMap p.txs
  pub sender_keys : IsMap p.by_sender
  pub nonce_keys :
      (s : Address) (nonces : Map ℕ Hash) → Map.get s p.by_sender ≡ some nonces → IsMap nonces

pub keys_of : {d : Digest} {p : Mempool} → IsConsistent d p → HasKeys p
keys_of c = record { tx_keys = c.tx_keys; sender_keys = c.sender_keys; nonce_keys = c.nonce_keys }

or_empty-IsMap : (s : Address) (p : Mempool) → HasKeys p → IsMap (or_empty (Map.get s p.by_sender))
or_empty-IsMap s p k = elim (Option-cases (Map.get s p.by_sender)) [
  | inl missing ↦ rw missing tt
  | inr (nonces, e) ↦ rw e (k.nonce_keys s nonces e)
]

pub occupy-HasKeys :
    (h : Hash) (tx : Transaction) (p : Mempool) → HasKeys p → HasKeys (occupy h tx p)
unfolding occupy
occupy-HasKeys h tx p k =
    let nonces = or_empty (Map.get tx.from p.by_sender) in
    let stored = insert-IsMap tx.nonce h nonces (or_empty-IsMap tx.from p k) in
    record {
      tx_keys = insert-IsMap h tx p.txs k.tx_keys;
      sender_keys = insert-IsMap tx.from (Map.insert tx.nonce h nonces) p.by_sender k.sender_keys;
      nonce_keys = λ s q e. ground (
        arith,
        get-insert tx.from s (Map.insert tx.nonce h nonces) p.by_sender,
        k.nonce_keys s q,
        stored,
      );
    }

pub drop_tx-HasKeys : (h : Hash) (p : Mempool) → HasKeys p → HasKeys (drop_tx h p)
unfolding drop_tx
drop_tx-HasKeys h p k = record {
  tx_keys = remove-IsMap h p.txs k.tx_keys;
  sender_keys = k.sender_keys;
  nonce_keys = k.nonce_keys;
}

insert_queue-HasKeys :
    (s : Address) (q : Map ℕ Hash) (p : Mempool)
    → IsMap q
    → HasKeys p
    → HasKeys (record p { by_sender = Map.insert s q p.by_sender })
insert_queue-HasKeys s q p m k = record {
  tx_keys = k.tx_keys;
  sender_keys = insert-IsMap s q p.by_sender k.sender_keys;
  nonce_keys = λ s' q' e. ground (arith, get-insert s s' q p.by_sender, k.nonce_keys s' q', m);
}

pub store_queue-HasKeys :
    (s : Address) (q : Map ℕ Hash) (p : Mempool) → IsMap q → HasKeys p → HasKeys (store_queue s q p)
unfolding store_queue
store_queue-HasKeys s q p m k = elim (Bool-cases (is_empty q)) [
  | inl bare ↦ rw bare (record {
    tx_keys = k.tx_keys;
    sender_keys = remove-IsMap s p.by_sender k.sender_keys;
    nonce_keys = λ s' q' e. ground (arith, get-remove s s' p.by_sender, k.nonce_keys s' q');
  })
  | inr stays ↦ rw stays (insert_queue-HasKeys s q p m k)
]

pub unslot-HasKeys : (s : Address) (n : ℕ) (p : Mempool) → HasKeys p → HasKeys (unslot s n p)
unfolding unslot
unslot-HasKeys s n p k = elim (Option-cases (Map.get s p.by_sender)) [
  | inl missing ↦ rw (missing, unslot) k
  | inr (q, e) ↦
      rw (e, unslot)
        (insert_queue-HasKeys s (Map.remove n q) p (remove-IsMap n q (k.nonce_keys s q e)) k)
]

pub release-HasKeys : (s : Address) (n : ℕ) (p : Mempool) → HasKeys p → HasKeys (release s n p)
unfolding release
release-HasKeys s n p k = elim (Option-cases (Map.get s p.by_sender)) [
  | inl missing ↦ rw (missing, release) k
  | inr (q, e) ↦
      rw (e, release)
        (store_queue-HasKeys s (Map.remove n q) p (remove-IsMap n q (k.nonce_keys s q e)) k)
]

module _ (d : Digest) where
  -- A pool that has lost one transaction and its slot.
  pub lost-IsConsistent :
      (p p' : Mempool) (h : Hash) (tx : Transaction)
      → IsConsistent d p
      → HasKeys p'
      → Map.get h p.txs ≡ some tx
      → ((j : Hash) → Map.get j p'.txs ≡ (if h == j then none else Map.get j p.txs))
      → ((s : Address) (n : ℕ)
          → slot s n p' ≡ (if (tx.from == s) && (tx.nonce == n) then none else slot s n p))
      → IsConsistent d p'
  lost-IsConsistent p p' h tx c k there t s = record {
    tx_keys = k.tx_keys;
    sender_keys = k.sender_keys;
    nonce_keys = k.nonce_keys;
    indexed = λ j u e. ground (arith, t j, s u.from u.nonce, c.indexed j u, c.indexed h tx there);
    owned = λ a n j e. ground (arith, t j, s a n, c.owned a n j, c.indexed h tx there);
  }

  pub occupy-IsConsistent :
      (h : Hash) (tx : Transaction) (p : Mempool)
      → IsConsistent d p
      → tx_hash d tx ≡ h
      → Map.get h p.txs ≡ none
      → slot tx.from tx.nonce p ≡ none
      → IsConsistent d (occupy h tx p)
  occupy-IsConsistent h tx p c hashed fresh free =
      let k = occupy-HasKeys h tx p (keys_of c) in
      record {
        tx_keys = k.tx_keys;
        sender_keys = k.sender_keys;
        nonce_keys = k.nonce_keys;
        indexed =
            λ j u e. ground (arith, txs-occupy j, slot-occupy u.from u.nonce h tx p, c.indexed j u);
        owned = λ a n j e. ground (arith, txs-occupy j, slot-occupy a n h tx p, c.owned a n j);
      }
    where
      txs-occupy :
          (j : Hash) → Map.get j (occupy h tx p).txs ≡ (if h == j then some tx else Map.get j p.txs)
      txs-occupy j = unfold occupy in get-insert h j tx p.txs

  pub slot-drop_tx :
      (s : Address) (n : ℕ) (h : Hash) (p : Mempool) → slot s n (drop_tx h p) ≡ slot s n p
  unfolding slot drop_tx
  slot-drop_tx s n h p = refl

  pub txs-release : (s : Address) (n : ℕ) (p : Mempool) → (release s n p).txs ≡ p.txs
  unfolding release store_queue
  txs-release s n p = ground arith

  pub txs-unslot : (s : Address) (n : ℕ) (p : Mempool) → (unslot s n p).txs ≡ p.txs
  unfolding unslot
  txs-unslot s n p = ground arith

  pub txs-drop_tx :
      (h j : Hash) (p : Mempool)
      → Map.get j (drop_tx h p).txs ≡ (if h == j then none else Map.get j p.txs)
  unfolding drop_tx
  txs-drop_tx h j p = get-remove h j p.txs

  -- Removal of a hash, there or not, from a consistent pool keeps the index and the transactions
  -- in agreement.
  pub remove-IsConsistent :
      (h : Hash) (p : Mempool) → IsConsistent d p → IsConsistent d (remove h p).1
  unfolding remove
  remove-IsConsistent h p c = elim (Option-cases (Map.get h p.txs)) [
    | inl missing ↦ rw (missing, remove) c
    | inr (tx, e) ↦
        rw (e, remove)
          (lost-IsConsistent p (release tx.from tx.nonce (drop_tx h p)) h tx c
            (release-HasKeys tx.from tx.nonce (drop_tx h p) (drop_tx-HasKeys h p (keys_of c))) e
            (λ j. ground (arith, txs-release tx.from tx.nonce (drop_tx h p), txs-drop_tx h j p))
            (λ s n.
              ground
                (arith, slot-release tx.from s tx.nonce n (drop_tx h p), slot-drop_tx s n h p)))
  ]

  -- What replacement by fee takes out.
  pub take_out-IsConsistent :
      (h : Hash) (tx : Transaction) (p : Mempool)
      → IsConsistent d p
      → Map.get h p.txs ≡ some tx
      → IsConsistent d (unslot tx.from tx.nonce (drop_tx h p))
  take_out-IsConsistent h tx p c e =
      lost-IsConsistent p (unslot tx.from tx.nonce (drop_tx h p)) h tx c
        (unslot-HasKeys tx.from tx.nonce (drop_tx h p) (drop_tx-HasKeys h p (keys_of c))) e
        (λ j. ground (arith, txs-unslot tx.from tx.nonce (drop_tx h p), txs-drop_tx h j p))
        (λ s n.
          ground (arith, slot-unslot tx.from s tx.nonce n (drop_tx h p), slot-drop_tx s n h p))

  empty-IsConsistent :
      (c : MempoolConfig) → IsConsistent d (record { config = c; txs = []; by_sender = [] })
  empty-IsConsistent c = record {
    tx_keys = tt;
    sender_keys = tt;
    nonce_keys = λ s q e. cc (get-empty {V = Map ℕ Hash} s);
    indexed = λ h tx e. absurd (cc (get-empty {V = Transaction} h));
    owned = λ s n h e. absurd (no_slot c s n h e);
  }
    where
      no_slot :
          (c : MempoolConfig) (s : Address) (n : ℕ) (h : Hash)
          → slot s n (record { config = c; txs = []; by_sender = [] }) ≡ some h
          → ⊥
      no_slot c s n h e = unfold slot in ground (arith, get-empty {V = Map ℕ Hash} s)

  -- A new pool is consistent.
  pub new-IsConsistent : (c : MempoolConfig) → IsConsistent d (new c)
  unfolding new try_new
  new-IsConsistent c = by_check (validate c) refl
    where
      by_check : (r : Result MempoolError ⊤) → validate c ≡ r → IsConsistent d (new c)
      by_check (ok u) e = rw (e, new, try_new) (empty-IsConsistent c)
      by_check (err x) e = rw (e, new, try_new) (empty-IsConsistent default_config)
