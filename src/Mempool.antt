-- ===== src/Mempool.antt =====
-- crates/subhost-mempool/src/lib.rs: the pool of pending transactions.
pub mod Admit
pub mod Slots
pub mod Consistent
pub mod Victim
pub mod Capacity
pub mod Outcome
pub mod Queue
pub mod Prune
use Prim.Native.String.{String}
use sub_host_demo.Base.{
  ℕ, ◌+◌, ◌-◌, ◌*◌, Bool, true, false, not, ◌&&◌, ◌||◌, Option, none, some, List, [], ◌∷◌, map,
  ◌==◌, nat_eq, ltb, leb, if◌then◌else◌, Result, ok, err, Exec, pure, fail, ok_or, gets, fail_if,
  modify, ◌>>=◌, ◌>>◌, ⊤, length, is_empty, filter,
}
use sub_host_demo.Base.Words.{u64_max, checked_add}
use sub_host_demo.Base.Sort.{sort_by}
use sub_host_demo.Core.{Address, Hash, Transaction, Digest, tx_hash, total_cost}
use sub_host_demo.Map
use sub_host_demo.Map.{Map, contains, is_some}
use sub_host_demo.Map.Sorted.{sort}

pub record MempoolConfig : Type 0 where
  pub max_pending : ℕ
  pub max_per_sender : ℕ
  pub min_gas_price : ℕ
  pub max_tx_data_bytes : ℕ

abbrev pub default_config : MempoolConfig
default_config = record {
  max_pending = 10000;
  max_per_sender = 64;
  min_gas_price = 1;
  max_tx_data_bytes = 128 * 1024;
}

pub data MempoolError : Type 0 where
  full : MempoolError
  gas_price_too_low : ℕ → ℕ → MempoolError
  invalid_transaction : String → MempoolError
  sender_queue_full : Address → MempoolError
  data_too_large : ℕ → ℕ → MempoolError
  invalid_config : String → MempoolError

-- `MempoolConfig::validate`
unfoldable pub validate : MempoolConfig → Result MempoolError ⊤
validate c =
    if c.max_pending == 0
    then err (invalid_config "max_pending must be > 0")
    else if c.max_per_sender == 0
    then err (invalid_config "max_per_sender must be > 0")
    else ok tt

pub record Admission : Type 0 where
  pub hash : Hash
  pub accepted : Bool
  pub displaced : Option Transaction

pub record Mempool : Type 0 where
  pub config : MempoolConfig
  pub txs : Map Hash Transaction
  pub by_sender : Map Address (Map ℕ Hash)

abbrev pub Action : Type 0 → Type 0
Action A = Exec Mempool MempoolError A

unfoldable pub try_new : MempoolConfig → Result MempoolError Mempool
try_new c = elim (validate c) [
  | ok _ ↦ ok (record { config = c; txs = []; by_sender = [] })
  | err e ↦ err e
]

-- An invalid configuration is replaced by the default one.
unfoldable pub new : MempoolConfig → Mempool
new c = elim (try_new c) [
  | ok pool ↦ pool
  | err _ ↦ record { config = default_config; txs = []; by_sender = [] }
]

unfoldable pub get_tx : Hash → Mempool → Option Transaction
get_tx h p = Map.get h p.txs

unfoldable pub has : Hash → Mempool → Bool
has h p = contains h p.txs

unfoldable pub len : Mempool → ℕ
len p = length p.txs

unfoldable pub sender_count : Mempool → ℕ
sender_count p = length p.by_sender

abbrev pub at_nonce : ℕ → Option (Map ℕ Hash) → Option Hash
at_nonce n none = none
at_nonce n (some nonces) = Map.get n nonces

-- `by_sender.get(&sender).and_then(|nonces| nonces.get(&nonce)).copied()`
unfoldable pub slot : Address → ℕ → Mempool → Option Hash
slot s n p = at_nonce n (Map.get s p.by_sender)

abbrev pub queue_length : Option (Map ℕ Hash) → ℕ
queue_length none = 0
queue_length (some nonces) = length nonces

-- `by_sender.get(&sender).map_or(0, BTreeMap::len)`
unfoldable pub sender_len : Address → Mempool → ℕ
sender_len s p = queue_length (Map.get s p.by_sender)

unfoldable pub get_by_sender_nonce : Address → ℕ → Mempool → Option (Hash × Transaction)
get_by_sender_nonce s n p = elim (slot s n p) [
  | none ↦ none
  | some h ↦ elim (Map.get h p.txs) [ none ↦ none | some tx ↦ some (h, tx) ]
]

abbrev pub or_empty : Option (Map ℕ Hash) → Map ℕ Hash
or_empty none = []
or_empty (some nonces) = nonces

-- The two insertions that end `admit`.
unfoldable pub occupy : Hash → Transaction → Mempool → Mempool
occupy h tx p = record p {
  by_sender =
      Map.insert tx.from (Map.insert tx.nonce h (or_empty (Map.get tx.from p.by_sender)))
        p.by_sender;
  txs = Map.insert h tx p.txs;
}

-- `nonces.remove(&nonce)` for the sender, if there is one; an empty queue stays.
unfoldable pub unslot : Address → ℕ → Mempool → Mempool
unslot s n p = elim (Map.get s p.by_sender) [
  | none ↦ p
  | some nonces ↦ record p { by_sender = Map.insert s (Map.remove n nonces) p.by_sender }
]

unfoldable pub drop_tx : Hash → Mempool → Mempool
drop_tx h p = record p { txs = Map.remove h p.txs }

-- A queue is stored, or dropped with its sender once it is empty.
unfoldable pub store_queue : Address → Map ℕ Hash → Mempool → Mempool
store_queue s nonces p = record p {
  by_sender = if is_empty nonces then Map.remove s p.by_sender else Map.insert s nonces p.by_sender;
}

unfoldable pub release : Address → ℕ → Mempool → Mempool
release s n p = elim (Map.get s p.by_sender) [
  | none ↦ p
  | some nonces ↦ store_queue s (Map.remove n nonces) p
]

unfoldable pub remove : Hash → Mempool → Bool × Mempool
remove h p = elim (Map.get h p.txs) [
  | none ↦ (false, p)
  | some tx ↦ (true, release tx.from tx.nonce (drop_tx h p))
]

-- The order of eviction: the lowest price, then the highest nonce, then the lowest hash.
unfoldable pub cheaper : Hash × Transaction → Hash × Transaction → Bool
cheaper a b =
    ltb a.1.gas_price b.1.gas_price
    || ((a.1.gas_price == b.1.gas_price)
        && (ltb b.1.nonce a.1.nonce || ((a.1.nonce == b.1.nonce) && leb a.0 b.0)))

-- `min_by`: of two entries that compare equal the first is kept.
unfoldable pub lowest_from : Hash × Transaction → Map Hash Transaction → Hash × Transaction
lowest_from best [] = best
lowest_from best (e ∷ m) = lowest_from (if cheaper best e then best else e) m

unfoldable pub lowest : Map Hash Transaction → Option (Hash × Transaction)
lowest [] = none
lowest (e ∷ m) = some (lowest_from e m)

unfoldable pub evict_lowest_priority : Action (Option Transaction)
evict_lowest_priority = do
  found ← gets (λ p. lowest p.txs)
  victim ← ok_or found full
  transaction ← gets (get_tx victim.0)
  modify (λ p. (remove victim.0 p).1)
  pure transaction

abbrev pub or_else : Option Transaction → Option Transaction → Option Transaction
or_else none o = o
or_else (some tx) o = some tx

abbrev pub price : Option Transaction → ℕ
price none = 0
price (some tx) = tx.gas_price

-- Part (3) of `admit`, and the result.
unfoldable pub make_room : Option Transaction → Action (Option Transaction)
make_room displaced = do
  size ← gets len
  limit ← gets (λ p. p.config.max_pending)
  if leb limit size
      then (do evicted ← evict_lowest_priority; pure (or_else displaced evicted))
      else pure displaced

-- Parts (2) and (3) of `admit`, and the insertions.
unfoldable pub enter : Hash → Transaction → Option Transaction → Action Admission
enter h tx displaced = do
  queued ← gets (sender_len tx.from)
  budget ← gets (λ p. p.config.max_per_sender)
  fail_if (not (is_some displaced) && leb budget queued) (sender_queue_full tx.from)
  displaced' ← make_room displaced
  modify (occupy h tx)
  pure (record { hash = h; accepted = true; displaced = displaced' })

abbrev pub kept : Hash → Admission
kept old = record { hash = old; accepted = false; displaced = none }

-- Part (1) of `admit`: what holds the slot stays unless it pays less.
unfoldable pub replace : Hash → Transaction → Hash → Action Admission
replace h tx old = do
  there ← gets (get_tx old)
  if leb tx.gas_price (price there)
      then pure (kept old)
      else do modify (drop_tx old); modify (unslot tx.from tx.nonce); enter h tx there

unfoldable pub compete : Hash → Transaction → Action Admission
compete h tx = do
  existing ← gets (slot tx.from tx.nonce)
  elim existing [ none ↦ enter h tx none | some old ↦ replace h tx old ]

module _ (d : Digest) where
  unfoldable pub admit : Transaction → Action Admission
  admit tx = do
    c ← gets (λ p. p.config)
    fail_if (ltb c.max_tx_data_bytes (length tx.payload))
        (data_too_large (length tx.payload) c.max_tx_data_bytes)
    known ← gets (has (tx_hash d tx))
    if known then pure (record { hash = tx_hash d tx; accepted = true; displaced = none }) else do
      fail_if (tx.gas_limit == 0) (invalid_transaction "gas limit must be > 0")
      fail_if (ltb tx.gas_price c.min_gas_price) (gas_price_too_low tx.gas_price c.min_gas_price)
      fail_if (not (is_some (total_cost tx)))
          (invalid_transaction "gas_price * gas_limit + value overflows")
      compete (tx_hash d tx) tx

  -- `Mempool::add`
  unfoldable pub add : Transaction → Action Hash
  add tx = do a ← admit tx; pure a.hash

-- The order of proposal: the highest price, then the sender, then the nonce.
unfoldable pub proposes : Transaction → Transaction → Bool
proposes l r =
    ltb r.gas_price l.gas_price
    || ((l.gas_price == r.gas_price)
        && (ltb l.from r.from || ((l.from == r.from) && leb l.nonce r.nonce)))

unfoldable pub pending : Mempool → List Transaction
pending p = sort_by proposes (map (λ e. e.1) p.txs)

-- The loop of `ready_for` over the queue from `next_nonce` on.
unfoldable pub ready_from : Map Hash Transaction → ℕ → Map ℕ Hash → List Transaction
ready_from txs expected [] = []
ready_from txs expected ((n, h) ∷ rest) =
    let later = ready_from txs (expected + 1) rest in
    if not (n == expected) then [] else elim (Map.get h txs) [
      | none ↦ []
      | some tx ↦ elim (checked_add u64_max expected 1) [ none ↦ tx ∷ [] | some _ ↦ tx ∷ later ]
    ]

unfoldable pub ready_for : Address → ℕ → Mempool → List Transaction
ready_for s next p = elim (Map.get s p.by_sender) [
  | none ↦ []
  | some nonces ↦ ready_from p.txs next (filter (λ (e : ℕ × Hash). leb next e.0) (sort nonces))
]

abbrev pub last_key : Map ℕ Hash → Option ℕ
last_key [] = none
last_key ((n, h) ∷ []) = some n
last_key (e ∷ e' ∷ m) = last_key (e' ∷ m)

unfoldable pub next_nonce_for : Address → Mempool → Option ℕ
next_nonce_for s p = elim (Map.get s p.by_sender) [
  | none ↦ none
  | some nonces ↦ elim (last_key (sort nonces)) [
    | none ↦ none
    | some highest ↦ checked_add u64_max highest 1
  ]
]

unfoldable pub drop_all : List (ℕ × Hash) → Map Hash Transaction → Map Hash Transaction
drop_all [] txs = txs
drop_all ((n, h) ∷ rest) txs = drop_all rest (Map.remove h txs)

unfoldable pub prune_below_nonce : Address → ℕ → Mempool → ℕ × Mempool
prune_below_nonce s next p = elim (Map.get s p.by_sender) [
  | none ↦ (0, p)
  | some nonces ↦
      let stale = filter (λ (e : ℕ × Hash). ltb e.0 next) (sort nonces) in
      (
        length stale,
        store_queue s (Map.retain (λ n. leb next n) nonces)
            (record p { txs = drop_all stale p.txs }),
      )
]
