-- ===== src/Tests/Nodes.antt =====
-- Sample nodes, a file format that holds one ledger, and runs of a node on them.
use mathlib.Core.Path.{subst}
use sub_host_demo.Base.{
  ◌<◌, ◌≡◌, sym, ap, refl, true, Option, none, some, List, [], ◌∷◌, arith, nat_eq, list_eq, length,
  ok,
}
use sub_host_demo.Core.{Byte, Hash, Transaction, tx_hash, fee, total_cost}
use sub_host_demo.Map
use sub_host_demo.Mempool
use sub_host_demo.Mempool.{Mempool, admit, get_tx, default_config}
use sub_host_demo.Mempool.Consistent.{new-IsConsistent}
use sub_host_demo.Mempool.Admit.{admitted}
use sub_host_demo.Storage.{LedgerStore, LedgerSnapshot, LedgerEnvelope, FileFormat, WriteIo, ReadIo}
use sub_host_demo.Storage.Chain.{Codec}
use sub_host_demo.Storage.Durable.{ReadsBack}
use sub_host_demo.Rpc.{RpcState}
use sub_host_demo.Rpc.Ledger.{IsSound}
use sub_host_demo.Tests.Fixtures.{digest, payment}
use sub_host_demo.Tests.Transactions.{ledger, ledger-IsState}

abbrev pub codec : Codec
codec = record {
  digest = digest;
  encode_state = λ sn. length sn.accounts ∷ [];
  encode_receipt = λ h height gas status. h ∷ height ∷ gas ∷ status ∷ [];
}

abbrev from_bytes : List Byte → Option LedgerEnvelope
from_bytes [] = none
from_bytes (v ∷ []) = none
from_bytes (v ∷ k ∷ m) = some (record { magic = m; version = v; checksum = k; payload = [] })

-- A format that writes one ledger as no bytes, and an envelope of it faithfully.
abbrev pub format : LedgerSnapshot → FileFormat
format sn = record {
  codec = codec;
  serialize_snapshot = λ x. some [];
  deserialize_snapshot = λ x. some sn;
  serialize_envelope = λ e. some (e.version ∷ e.checksum ∷ e.magic);
  deserialize_envelope = from_bytes;
}

pub format-ReadsBack : (sn sn' : LedgerSnapshot) → sn ≡ sn' → ReadsBack (format sn) sn'
format-ReadsBack sn sn' same = record {
  ledger = λ payload e. ap some same;
  envelope = λ e bytes p b. read e bytes p b;
}
  where
    inside : {x y : List Byte} → some x ≡ some y → x ≡ y
    inside h = cc h

    read :
        (e : LedgerEnvelope) (bytes : List Byte)
        → some [] ≡ some e.payload
        → some (e.version ∷ e.checksum ∷ e.magic) ≡ some bytes
        → from_bytes bytes ≡ some e
    read e bytes p b =
        subst (λ x. from_bytes x ≡ some e) (inside b)
          (subst
            (λ x.
              some (record {
                magic = e.magic;
                version = e.version;
                checksum = e.checksum;
                payload = x;
              })
              ≡ some e)
            (sym (inside p)) refl)

abbrev pub healthy : WriteIo
healthy = record {
  has_parent = true;
  create_dir_all = true;
  new_temp = true;
  write_all = true;
  sync_temp = true;
  set_permissions = true;
  rename = true;
  sync_dir = true;
}

abbrev pub readable : ReadIo
readable = record { metadata = true; read = true }

abbrev pub store : LedgerStore
store = record { has_path = true; chain_id = 7 }

-- A node without blocks and without a file.
abbrev pub node : RpcState
node = record {
  chain_id = 7;
  block_height = 0;
  mempool = Mempool.new default_config;
  state = ledger;
  blocks = [];
  receipts = [];
  store = store;
  disk = none;
}

pub node-IsSound : (sn : LedgerSnapshot) → IsSound (format sn) node
node-IsSound sn = record {
  ledger = record { linked = tt; counted = refl; apart = tt; described = tt; rooted = tt };
  accounts = ledger-IsState;
  keyed = tt;
  once = tt;
  pool = new-IsConsistent digest default_config;
  state_chain = refl;
  store_chain = refl;
  positive = omega arith;
  top = refl;
  spent = tt;
}

abbrev pub tx : Transaction
tx = payment 1 0 4

abbrev pub hash : Hash
hash = tx_hash digest tx

pub node-accepts : (admit digest tx node.mempool).0 ≡ ok (admitted hash none)
unfolding admit get_tx Map.get Mempool.new Mempool.try_new Mempool.validate Mempool.has total_cost
    fee Mempool.compete Mempool.slot Mempool.enter Mempool.sender_len Mempool.make_room Mempool.len
    Mempool.occupy Map.insert tx_hash
node-accepts = refl

pub node-holds : get_tx hash (admit digest tx node.mempool).1 ≡ some tx
unfolding admit get_tx Map.get Mempool.new Mempool.try_new Mempool.validate Mempool.has total_cost
    fee Mempool.compete Mempool.slot Mempool.enter Mempool.sender_len Mempool.make_room Mempool.len
    Mempool.occupy Map.insert tx_hash
node-holds = refl

pub node-roomy : 0 < node.mempool.config.max_pending
unfolding Mempool.new Mempool.try_new Mempool.validate
node-roomy = omega arith

pub node-alone : (u : Transaction) → get_tx hash (admit digest tx node.mempool).1 ≡ some u → u ≡ tx
node-alone u e = cc (node-holds, e)
