-- ===== src/Tests/Ledgers.antt =====
-- The ledger file and the node's chain at concrete inputs.
use sub_host_demo.Base.{
  ◌≡◌, ◌↔◌, ◌⊎◌, refl, true, false, none, some, [], ◌∷◌, arith, nat_eq, list_eq, ok, err,
}
use sub_host_demo.Core.{Address, Byte, Hash, Block, Receipt, Transaction, tx_hash, fee, total_cost}
use sub_host_demo.Base.Sort
use sub_host_demo.Core
use sub_host_demo.Map
use sub_host_demo.Map.Sorted
use sub_host_demo.State
use sub_host_demo.State.{State, apply_transaction}
use sub_host_demo.State.Effect.{moved, settled}
use sub_host_demo.Mempool
use sub_host_demo.Mempool.{Mempool, admit, get_tx}
use sub_host_demo.Mempool.Admit.{admit-IsConsistent}
use sub_host_demo.Storage
use sub_host_demo.Storage.{LedgerSnapshot, FileFormat, Disk, load, restore}
use sub_host_demo.Storage.Chain
use sub_host_demo.Storage.Chain.{StorageError, validate_chain}
use sub_host_demo.Storage.Spec.{IsLedger}
use sub_host_demo.Storage.Validate.{validate_chain_exact}
use sub_host_demo.Storage.Durable.{persist_atomic}
use sub_host_demo.Node.Boot.{durable}
use sub_host_demo.Rpc
use sub_host_demo.Rpc.{
  RpcState, RpcError, snapshot_of, with_store, block_at_height, receipt, block_for, receipt_for,
  seal_next_block, submit_transaction,
}
use sub_host_demo.Rpc.Commit.{new_receipt, ledger_write}
use sub_host_demo.Rpc.Ledger.{IsSound}
use sub_host_demo.Rpc.Seal.{HasNoCollision}
use sub_host_demo.Rpc.Restart.{SameChain, own_snapshot, sealed_restarts}
use sub_host_demo.Rpc.Submit.{pooled, set_mempool-IsSound, submit_transaction-IsSound}
use sub_host_demo.Rpc.Effect.{IsIncluded, submit_transaction_failed, submit_transaction_included}
use sub_host_demo.Rpc.Bank.{Pays, Stays, bank_of, submit_transaction_refines}
use sub_host_demo.Rpc.Live.{ready, sealed_ok, submit_transaction_live}
use sub_host_demo.Rpc.Server.Lookup.{receipt-IsHeld}
use sub_host_demo.Tests.Fixtures.{digest, payment}
use sub_host_demo.Tests.Transactions.{ledger, payment-Admissible}
use sub_host_demo.Tests.Nodes.{
  codec, format, format-ReadsBack, healthy, readable, store, node, node-IsSound, tx, hash,
  node-accepts, node-holds, node-roomy, node-alone,
}

abbrev start : LedgerSnapshot
start = own_snapshot node

abbrev f : FileFormat
f = format start

-- A block of one payment, and its receipt.
abbrev block : Block
block = block_for f 5 tx hash ledger 1 none 7

abbrev receipt_of_block : Receipt
receipt_of_block = receipt_for f tx hash block

validate_chain_exact_example :
    (validate_chain codec (block ∷ []) (receipt_of_block ∷ []) 7 ledger ≡ ok tt)
    ↔ IsLedger codec 7 ledger (block ∷ []) (receipt_of_block ∷ [])
validate_chain_exact_example =
    validate_chain_exact codec (block ∷ []) (receipt_of_block ∷ []) 7 ledger

persist_atomic_example :
    let (r, disk) = Storage.persist f store healthy start none in
    ((true ≡ false) × (r ≡ ok tt) × (disk ≡ none))
    ⊎ (((e : StorageError) × (r ≡ err e)) × (disk ≡ none))
    ⊎ (load f store readable disk ≡ restore f store start)
persist_atomic_example =
    persist_atomic f store healthy readable start none (format-ReadsBack start start refl) refl refl

no_collision : HasNoCollision f healthy 5 hash (pooled f healthy 5 tx node)
unfolding Rpc.set_mempool
no_collision u s height r = (tt, tt)

submit_transaction-IsSound_example : IsSound f (submit_transaction f healthy 5 tx node).1
submit_transaction-IsSound_example =
    submit_transaction-IsSound f healthy 5 tx node (node-IsSound start) node-roomy no_collision

written :
    (ledger_write f healthy 5 hash (pooled f healthy 5 tx node) tx (settled tx 2 node.state) 1).0
    ≡ ok tt
unfolding Storage.persist snapshot_of Rpc.set_mempool State.snapshot settled State.set_nonce
    State.set_balance moved Storage.write_ledger Storage.envelope_for Storage.replace_file
written = refl

live : (submit_transaction f healthy 5 tx node).0 ≡ ok hash
live =
    (submit_transaction_live f healthy 5 tx 2 node none (node-IsSound start) node-roomy
      payment-Admissible (omega arith) (omega arith) node-accepts node-alone written).0

submit_transaction_live_example :
    ((submit_transaction f healthy 5 tx node).0 ≡ ok hash)
    × ((r : Receipt) × IsIncluded digest tx r node (submit_transaction f healthy 5 tx node).1)
submit_transaction_live_example =
    submit_transaction_live f healthy 5 tx 2 node none (node-IsSound start) node-roomy
      payment-Admissible (omega arith) (omega arith) node-accepts node-alone written

submit_transaction_included_example :
    (hash ≡ hash)
    × ((r : Receipt) × IsIncluded digest tx r node (submit_transaction f healthy 5 tx node).1)
submit_transaction_included_example =
    submit_transaction_included f healthy 5 tx node hash (node-IsSound start) node-roomy node-alone
      live

submit_transaction_refines_example :
    let (r, n) = submit_transaction f healthy 5 tx node in
    ((r ≡ ok hash) × Pays tx (bank_of node) (bank_of n))
    ⊎ (((e : RpcError) × (r ≡ err e)) × Stays (bank_of node) (bank_of n))
submit_transaction_refines_example =
    submit_transaction_refines f healthy 5 tx node (node-IsSound start) node-roomy node-alone

late_refused :
    (submit_transaction f healthy 5 (payment 1 5 4) node).0
    ≡ err (Rpc.transaction_rejected (Rpc.execution (State.invalid_nonce 1 0 5)))
unfolding submit_transaction Rpc.admit_pending admit Mempool.new Mempool.try_new Mempool.validate
    Mempool.has Map.get total_cost fee Mempool.compete Mempool.slot Mempool.enter Mempool.sender_len
    Mempool.make_room Mempool.len Rpc.seal_or_restore seal_next_block Sort.place Sort.sort_by
    Core.block_hash tx_hash Core.tx_root_of Sorted.place Sorted.sort Map.insert Map.remove
    Mempool.add Mempool.drop_tx Mempool.get_by_sender_nonce get_tx Mempool.occupy Mempool.release
    Mempool.remove Mempool.replace Mempool.store_queue Mempool.unslot Rpc.attempt block_for
    Rpc.commit Rpc.older Rpc.persist Rpc.put_back receipt_for Rpc.restore_pool Rpc.set_mempool
    snapshot_of State.account apply_transaction State.apply_transfer State.balance State.debit
    State.ensure_balance State.entry State.execute State.execute_transfer State.nonce State.root
    State.set_balance State.set_nonce State.snapshot State.store Chain.receipt_root
    Chain.state_root_of Storage.envelope_for Storage.persist Storage.replace_file
    Storage.write_ledger
late_refused = refl

submit_transaction_failed_example :
    SameChain (submit_transaction f healthy 5 (payment 1 5 4) node).1 node
submit_transaction_failed_example =
    submit_transaction_failed f healthy 5 (payment 1 5 4) node
      (Rpc.transaction_rejected (Rpc.execution (State.invalid_nonce 1 0 5)))
      (node-IsSound start).pool node-roomy late_refused

-- The node once the payment is pending, and its ledger once it is sealed.
abbrev pub waiting : RpcState
waiting = pooled f healthy 5 tx node

abbrev pub done : LedgerSnapshot
done = own_snapshot (seal_next_block f healthy 5 hash waiting).1

abbrev pub g : FileFormat
g = format done

pub same_ledger : done ≡ own_snapshot (seal_next_block g healthy 5 hash waiting).1
unfolding admit Mempool.new Mempool.try_new Mempool.validate Mempool.has Map.get total_cost fee
    Mempool.compete Mempool.slot Mempool.enter Mempool.sender_len Mempool.make_room Mempool.len
    Rpc.seal_or_restore seal_next_block Sort.place Sort.sort_by Core.block_hash tx_hash
    Core.tx_root_of Sorted.place Sorted.sort Map.insert Map.remove Mempool.add Mempool.drop_tx
    Mempool.get_by_sender_nonce get_tx Mempool.occupy Mempool.release Mempool.remove Mempool.replace
    Mempool.store_queue Mempool.unslot Rpc.attempt block_for Rpc.commit Rpc.older Rpc.persist
    Rpc.put_back receipt_for Rpc.restore_pool Rpc.set_mempool snapshot_of State.account
    apply_transaction State.apply_transfer State.balance State.debit State.ensure_balance
    State.entry State.execute State.execute_transfer State.nonce State.root State.set_balance
    State.set_nonce State.snapshot State.store Chain.receipt_root Chain.state_root_of
    Storage.envelope_for Storage.persist Storage.replace_file Storage.write_ledger
same_ledger = refl

-- The file of the node once the payment is sealed is there.
pub placed :
    let n = (seal_next_block g healthy 5 hash waiting).1 in
    (n.store ≡ durable 7) × (Storage.exists n.store n.disk ≡ true)
unfolding Storage.exists admit Mempool.new Mempool.try_new Mempool.validate Mempool.has Map.get
    total_cost fee Mempool.compete Mempool.slot Mempool.enter Mempool.sender_len Mempool.make_room
    Mempool.len Rpc.seal_or_restore seal_next_block Sort.place Sort.sort_by Core.block_hash tx_hash
    Core.tx_root_of Sorted.place Sorted.sort Map.insert Map.remove Mempool.add Mempool.drop_tx
    Mempool.get_by_sender_nonce get_tx Mempool.occupy Mempool.release Mempool.remove Mempool.replace
    Mempool.store_queue Mempool.unslot Rpc.attempt block_for Rpc.commit Rpc.older Rpc.persist
    Rpc.put_back receipt_for Rpc.restore_pool Rpc.set_mempool snapshot_of State.account
    apply_transaction State.apply_transfer State.balance State.debit State.ensure_balance
    State.entry State.execute State.execute_transfer State.nonce State.root State.set_balance
    State.set_nonce State.snapshot State.store Chain.receipt_root Chain.state_root_of
    Storage.envelope_for Storage.persist Storage.replace_file Storage.write_ledger
placed = (refl, refl)

pub waiting-IsSound : IsSound g waiting
waiting-IsSound =
    set_mempool-IsSound g (admit digest tx node.mempool).1 node
      (admit-IsConsistent digest tx node.mempool (node-IsSound done).pool) (node-IsSound done)

rewritten : (ledger_write g healthy 5 hash waiting tx (settled tx 2 ledger) 1).0 ≡ ok tt
unfolding Storage.persist snapshot_of Rpc.set_mempool State.snapshot settled State.set_nonce
    State.set_balance moved Storage.write_ledger Storage.envelope_for Storage.replace_file
rewritten = refl

pub sealed :
    (seal_next_block g healthy 5 hash waiting).0
    ≡ ok (new_receipt g healthy 5 hash waiting tx (settled tx 2 ledger) 1)
unfolding Rpc.set_mempool
sealed =
    sealed_ok g healthy 5 tx 2 node hash waiting (settled tx 2 ledger) 1
      (ready g healthy 5 tx 2 node (node-IsSound done) payment-Admissible (omega arith)
        (omega arith) node-holds)
      rewritten

pub alike : HasNoCollision g healthy 5 hash waiting
unfolding Rpc.set_mempool
alike u s height r = (tt, tt)

sealed_restarts_example :
    let n = (seal_next_block g healthy 5 hash waiting).1 in
    (m : RpcState) × (with_store g readable n.store n.disk ≡ ok m) × SameChain m n
sealed_restarts_example =
    sealed_restarts g healthy readable 5 hash waiting
      (new_receipt g healthy 5 hash waiting tx (settled tx 2 ledger) 1) waiting-IsSound alike
      (format-ReadsBack done (own_snapshot (seal_next_block g healthy 5 hash waiting).1)
        same_ledger)
      refl refl durable_store sealed
  where
    durable_store : waiting.store.has_path ≡ true
    durable_store = unfold Rpc.set_mempool in refl

-- A node with one sealed payment.
abbrev paid : RpcState
paid = (submit_transaction f healthy 5 tx node).1

inclusion : (r : Receipt) × IsIncluded digest tx r node paid
inclusion =
    (submit_transaction_included f healthy 5 tx node hash (node-IsSound start) node-roomy node-alone
      live).1

receipt-IsHeld_example :
    (inclusion.0.tx_hash ≡ hash)
    × ((b : Block) × (block_at_height inclusion.0.block_height paid ≡ some b)
        × (Chain.hash_of codec b ≡ inclusion.0.block_hash)
        × (Chain.holds codec hash b.transactions ≡ true))
receipt-IsHeld_example =
    receipt-IsHeld f paid hash inclusion.0
      (submit_transaction-IsSound f healthy 5 tx node (node-IsSound start) node-roomy no_collision)
      inclusion.1.recorded
