-- ===== src/Rpc.antt =====
-- crates/subhost-rpc/src/lib.rs: the node behind the RPC surface. One record holds what the code keeps
-- behind its locks, and the ledger file with it. Every method below holds the commit lock from its
-- first line to its last, so that a call is one step.
pub mod Commit
pub mod Ledger
pub mod Seal
pub mod Receipts
pub mod Restart
pub mod Submit
pub mod Effect
pub mod Bank
pub mod Live
pub mod Wire
pub mod Server
use Prim.Native.String.{String}
use sub_host_demo.Base.{
  ℕ, ◌+◌, ◌-◌, Bool, true, false, not, ◌||◌, Option, none, some, List, [], ◌∷◌, ◌++◌, map, ◌==◌,
  nat_eq, ltb, leb, length, if◌then◌else◌, Exec, Result, ok, err, fail_if, fail, ok_or, gets,
  modify, pure, lift, ◌>>=◌, ◌>>◌, ⊤,
}
use sub_host_demo.Base.Words.{u64_max, checked_add}
use sub_host_demo.Base.Sort.{sort_by}
use sub_host_demo.Core.{
  Address, Byte, Hash, Block, BlockHeader, Receipt, success, Transaction, TransactionType,
  block_gas_limit, zero_hash, zero_address, tx_hash, block_hash, tx_root_of,
}
use sub_host_demo.Map
use sub_host_demo.Map.{Map}
use sub_host_demo.State
use sub_host_demo.State.{State, StateError, set_balance, apply_transaction, snapshot}
use sub_host_demo.Mempool
use sub_host_demo.Mempool.{
  Mempool, MempoolError, MempoolConfig, Admission, default_config, admit, get_tx,
  get_by_sender_nonce,
}
use sub_host_demo.Storage
use sub_host_demo.Storage.{
  LedgerStore, LedgerSnapshot, RestoredLedger, FileFormat, WriteIo, ReadIo, Disk, last, height_of,
  height, load,
}
use sub_host_demo.Storage.Chain.{StorageError, receipt_root, state_root_of, hash_of}

-- `RpcError::TransactionRejected`, with its text by cases.
pub data Rejection : Type 0 where
  pool : MempoolError → Rejection
  execution : StateError → Rejection
  above_block_gas_limit : ℕ → Rejection
  slot_taken : Rejection

pub data RpcError : Type 0 where
  invalid_address invalid_tx_hash invalid_params invalid_chain_id invalid_signature internal :
      RpcError
  unsupported_transaction_type : TransactionType → RpcError
  transaction_rejected : Rejection → RpcError
  persistence : StorageError → RpcError

pub record RpcState : Type 0 where
  pub chain_id : ℕ
  pub block_height : ℕ
  pub mempool : Mempool
  pub state : State
  pub blocks : List Block
  pub receipts : Map Hash Receipt
  pub store : LedgerStore
  pub disk : Disk

abbrev pub Action : Type 0 → Type 0
Action A = Exec RpcState RpcError A

-- `HashMap` from receipts, by their transactions.
unfoldable pub collect_receipts : List Receipt → Map Hash Receipt → Map Hash Receipt
collect_receipts [] m = m
collect_receipts (r ∷ rs) m = collect_receipts rs (Map.insert r.tx_hash r m)

abbrev pub values : Map Hash Receipt → List Receipt
values = map (λ (e : Hash × Receipt). e.1)

-- `get`, for an index.
unfoldable pub nth : List Block → ℕ → Option Block
nth [] i = none
nth (b ∷ bs) i = let later = nth bs (i - 1) in if i == 0 then some b else later

unfoldable pub block_at_height : ℕ → RpcState → Option Block
block_at_height h n = if h == 0 then none else nth n.blocks (h - 1)

unfoldable pub receipt : Hash → RpcState → Option Receipt
receipt h n = Map.get h n.receipts

unfoldable pub block_count : RpcState → ℕ
block_count n = length n.blocks

unfoldable pub pending_count : RpcState → ℕ
pending_count n = Mempool.len n.mempool

unfoldable pub min_gas_price : RpcState → ℕ
min_gas_price n = n.mempool.config.min_gas_price

-- `RpcState::balance` and `RpcState::nonce`.
unfoldable pub balance_of : Address → RpcState → ℕ
balance_of a n = State.balance a n.state

unfoldable pub nonce_of : Address → RpcState → ℕ
nonce_of a n = State.nonce a n.state

unfoldable pub has_persisted_state : RpcState → Bool
has_persisted_state n = Storage.exists n.store n.disk

-- The comparison of `sort_by_key`.
unfoldable pub older : Receipt → Receipt → Bool
older l r = leb l.block_height r.block_height

unfoldable pub snapshot_of : ℕ → State → List Block → Map Hash Receipt → LedgerSnapshot
snapshot_of chain_id s blocks receipts = record {
  chain_id = chain_id;
  state = snapshot s;
  blocks = blocks;
  receipts = sort_by older (values receipts);
}

unfoldable pub set_state : State → RpcState → RpcState
set_state s n = record n { state = s }

unfoldable pub set_mempool : Mempool → RpcState → RpcState
set_mempool p n = record n { mempool = p }

unfoldable pub seed : List (Address × ℕ) → State → State
seed [] s = s
seed ((a, balance) ∷ allocations) s = seed allocations (set_balance a balance s)

-- The fields that a commit swaps at once.
unfoldable pub commit : State → Block → Receipt → Hash → RpcState → RpcState
commit s b r h n = record n {
  state = s;
  mempool = (Mempool.remove h n.mempool).1;
  blocks = n.blocks ++ b ∷ [];
  receipts = Map.insert h r n.receipts;
  block_height = b.header.height;
}

abbrev pub next_height : Option Block → Option ℕ
next_height none = some 1
next_height (some b) = checked_add u64_max b.header.height 1

module _ (f : FileFormat) where
  -- `RpcState::with_store`
  unfoldable pub with_store : ReadIo → LedgerStore → Disk → Result StorageError RpcState
  with_store sys store disk = elim (load f store sys disk) [
    | err e ↦ err e
    | ok restored ↦ ok (record {
      chain_id = store.chain_id;
      block_height = height restored;
      mempool = Mempool.new default_config;
      state = restored.state;
      blocks = restored.blocks;
      receipts = collect_receipts restored.receipts [];
      store = store;
      disk = disk;
    })
  ]

  unfoldable pub persist : WriteIo → State → List Block → Map Hash Receipt → Action ⊤
  persist sys s blocks receipts n =
      let (r, disk) =
        Storage.persist f n.store sys (snapshot_of n.chain_id s blocks receipts) n.disk in
      let n' : RpcState = record n { disk = disk } in
      elim r [ ok _ ↦ (ok tt, n') | err e ↦ (err (persistence e), n') ]

  unfoldable pub seed_accounts : WriteIo → List (Address × ℕ) → Action ⊤
  seed_accounts sys allocations = do
    live ← gets (λ n. n.state)
    blocks ← gets (λ n. n.blocks)
    receipts ← gets (λ n. n.receipts)
    persist sys (seed allocations live) blocks receipts
    modify (set_state (seed allocations live))

  abbrev pub parent_of : Option Block → Hash
  parent_of none = zero_hash
  parent_of (some b) = hash_of f.codec b

  -- `apply_transaction` on a clone: the state comes back only with a success.
  unfoldable pub attempt : Transaction → State → Result RpcError State
  attempt tx s =
      let (r, s') = apply_transaction tx s in
      elim r [ ok _ ↦ ok s' | err e ↦ err (transaction_rejected (execution e)) ]

  unfoldable pub block_for : ℕ → Transaction → Hash → State → ℕ → Option Block → ℕ → Block
  block_for now tx h s height previous chain_id = record {
    header = record {
      version = 1;
      chain_id = chain_id;
      height = height;
      timestamp = now;
      parent_hash = parent_of previous;
      state_root = state_root_of f.codec s;
      tx_root = tx_root_of f.codec.digest (h ∷ []);
      receipt_root = receipt_root f.codec h height tx.gas_limit;
      validator = zero_address;
      gas_used = tx.gas_limit;
      gas_limit = block_gas_limit;
      extra_data = [];
    };
    transactions = tx ∷ [];
    signatures = [];
  }

  unfoldable pub receipt_for : Transaction → Hash → Block → Receipt
  receipt_for tx h b = record {
    tx_hash = h;
    block_hash = hash_of f.codec b;
    block_height = b.header.height;
    gas_used = tx.gas_limit;
    status = success;
    logs = [];
    contract_address = none;
  }

  unfoldable pub seal_next_block : WriteIo → ℕ → Hash → Action Receipt
  seal_next_block sys now h = do
    pending ← gets (λ n. get_tx h n.mempool)
    tx ← ok_or pending invalid_tx_hash
    fail_if (ltb block_gas_limit tx.gas_limit)
        (transaction_rejected (above_block_gas_limit tx.gas_limit))
    executed ← gets (λ n. attempt tx n.state)
    candidate ← lift executed
    previous ← gets (λ n. last n.blocks)
    height ← ok_or (next_height previous) internal
    chain_id ← gets (λ n. n.chain_id)
    let block = block_for now tx h candidate height previous chain_id
    let receipt = receipt_for tx h block
    blocks ← gets (λ n. n.blocks)
    receipts ← gets (λ n. n.receipts)
    persist sys candidate (blocks ++ block ∷ []) (Map.insert h receipt receipts)
    modify (commit candidate block receipt h)
    pure receipt

  -- `RpcState::include_transaction`
  unfoldable pub include_transaction : WriteIo → ℕ → Hash → Action Receipt
  include_transaction sys now h = seal_next_block sys now h

  -- One insertion of the rollback; a refusal is logged.
  unfoldable pub put_back : Option Transaction → Mempool → Mempool
  put_back none p = p
  put_back (some tx) p = (Mempool.add f.codec.digest tx p).1

  unfoldable pub restore_pool : Hash → Option Transaction → Option Transaction → Mempool → Mempool
  restore_pool h previous displaced p =
      put_back displaced (put_back previous (Mempool.remove h p).1)

  abbrev pub second : Option (Hash × Transaction) → Option Transaction
  second none = none
  second (some (h, tx)) = some tx

  -- `write(&self.mempool).admit(tx)`
  unfoldable pub admit_pending : Transaction → Action Admission
  admit_pending tx n =
      let (r, p) = admit f.codec.digest tx n.mempool in
      elim r [
        | ok a ↦ (ok a, set_mempool p n)
        | err e ↦ (err (transaction_rejected (pool e)), set_mempool p n)
      ]

  -- The `match` on the sealing.
  unfoldable pub seal_or_restore : WriteIo → ℕ → Admission → Option Transaction → Action Hash
  seal_or_restore sys now a previous n =
      let (r, n') = seal_next_block sys now a.hash n in
      elim r [
        | ok receipt ↦ (ok receipt.tx_hash, n')
        | err e ↦ (err e, set_mempool (restore_pool a.hash previous a.displaced n'.mempool) n')
      ]

  unfoldable pub submit_transaction : WriteIo → ℕ → Transaction → Action Hash
  submit_transaction sys now tx = do
    previous ← gets (λ n. second (get_by_sender_nonce tx.from tx.nonce n.mempool))
    admission ← admit_pending tx
    fail_if (not admission.accepted) (transaction_rejected slot_taken)
    seal_or_restore sys now admission previous
