-- ===== src/Storage.antt =====
-- crates/subhost-storage/src/lib.rs: the ledger file. The disk is the content of that file, if there
-- is one; bincode is a parameter, and so is what the operating system answers to each call.
pub mod Chain
pub mod Spec
pub mod Validate
pub mod Append
pub mod Replay
pub mod Reorder
pub mod Durable
use Prim.Native.String.{String}
use sub_host_demo.Base.{
  ℕ, ◌*◌, Bool, true, false, not, ◌||◌, Option, none, some, List, [], ◌∷◌, ◌==◌, nat_eq, list_eq,
  ltb, length, if◌then◌else◌, Exec, Result, ok, err, fail_if, fail, ok_or, gets, modify, pure, lift,
  ◌>>=◌, ◌>>◌, ⊤,
}
use sub_host_demo.Core.{Byte, Hash, Block, Receipt}
use sub_host_demo.State.{State, StateSnapshot, with_chain_id, from_snapshot}
use Chain.{
  StorageError, invalid_chain_id, chain_mismatch, too_large, unsupported_format,
  unsupported_version, checksum_mismatch, invalid, bad_state, decode, encode, io,
  missing_parent_directory, Codec, validate_chain,
}

abbrev pub max_ledger_bytes : ℕ
max_ledger_bytes = 64 * 1024 * 1024

-- b"SUBHOST1"
abbrev pub ledger_magic : List Byte
ledger_magic = b'S' ∷ b'U' ∷ b'B' ∷ b'H' ∷ b'O' ∷ b'S' ∷ b'T' ∷ b'1' ∷ []

abbrev pub ledger_format_version : ℕ
ledger_format_version = 1

pub record LedgerSnapshot : Type 0 where
  pub chain_id : ℕ
  pub state : StateSnapshot
  pub blocks : List Block
  pub receipts : List Receipt

-- The checksum is the number that its 32 bytes spell, as every hash is.
pub record LedgerEnvelope : Type 0 where
  pub magic : List Byte
  pub version : ℕ
  pub checksum : Hash
  pub payload : List Byte

pub record RestoredLedger : Type 0 where
  pub state : State
  pub blocks : List Block
  pub receipts : List Receipt

abbrev pub last : List Block → Option Block
last [] = none
last (b ∷ []) = some b
last (b ∷ b' ∷ bs) = last (b' ∷ bs)

abbrev pub height_of : Option Block → ℕ
height_of none = 0
height_of (some b) = b.header.height

-- `RestoredLedger::height`
unfoldable pub height : RestoredLedger → ℕ
height r = height_of (last r.blocks)

-- A store with a file, or an ephemeral one.
pub record LedgerStore : Type 0 where
  pub has_path : Bool
  pub chain_id : ℕ

-- `bincode` on the ledger and on its envelope; `none` is an error.
pub record FileFormat : Type 0 where
  pub codec : Codec
  pub serialize_snapshot : LedgerSnapshot → Option (List Byte)
  pub deserialize_snapshot : List Byte → Option LedgerSnapshot
  pub serialize_envelope : LedgerEnvelope → Option (List Byte)
  pub deserialize_envelope : List Byte → Option LedgerEnvelope

-- Which calls of the operating system succeed while a ledger is written.
pub record WriteIo : Type 0 where
  pub has_parent : Bool
  pub create_dir_all : Bool
  pub new_temp : Bool
  pub write_all : Bool
  pub sync_temp : Bool
  pub set_permissions : Bool
  pub rename : Bool
  pub sync_dir : Bool

pub record ReadIo : Type 0 where
  pub metadata : Bool
  pub read : Bool

abbrev pub Disk : Type 0
Disk = Option (List Byte)

-- `LedgerStore::open`; the answer says whether the data directory could be made.
unfoldable pub open_store : Bool → ℕ → Result StorageError LedgerStore
open_store created chain_id =
    if chain_id == 0
    then err invalid_chain_id
    else if created
    then ok (record { has_path = true; chain_id = chain_id })
    else err io

unfoldable pub ephemeral : ℕ → Result StorageError LedgerStore
ephemeral chain_id =
    if chain_id == 0
    then err invalid_chain_id
    else ok (record { has_path = false; chain_id = chain_id })

abbrev is_file : Disk → Bool
is_file none = false
is_file (some _) = true

unfoldable pub exists : LedgerStore → Disk → Bool
exists store disk = if store.has_path then is_file disk else false

-- `LedgerStore::empty`
unfoldable pub empty : LedgerStore → RestoredLedger
empty store = record { state = with_chain_id store.chain_id; blocks = []; receipts = [] }

module _ (f : FileFormat) (store : LedgerStore) where
  unfoldable pub restore : LedgerSnapshot → Result StorageError RestoredLedger
  restore sn =
      if not (sn.chain_id == store.chain_id) || not (sn.state.chain_id == store.chain_id)
      then err (chain_mismatch store.chain_id sn.chain_id)
      else elim (from_snapshot sn.state) [
        | err e ↦ err (bad_state e)
        | ok state ↦ elim (validate_chain f.codec sn.blocks sn.receipts store.chain_id state) [
          | err e ↦ err e
          | ok _ ↦ ok (record { state = state; blocks = sn.blocks; receipts = sn.receipts })
        ]
      ]

  -- What `load` does with the bytes of the file.
  unfoldable pub read_ledger : List Byte → Result StorageError RestoredLedger
  read_ledger encoded = elim (f.deserialize_envelope encoded) [
    | none ↦ err decode
    | some envelope ↦
        if not (envelope.magic == ledger_magic)
        then err unsupported_format
        else if not (envelope.version == ledger_format_version)
        then err (unsupported_version envelope.version)
        else if not (f.codec.digest.blake3 envelope.payload == envelope.checksum)
        then err checksum_mismatch
        else elim (f.deserialize_snapshot envelope.payload) [
          | none ↦ err decode
          | some sn ↦ restore sn
        ]
  ]

  unfoldable pub load : ReadIo → Disk → Result StorageError RestoredLedger
  load sys none = ok (empty store)
  load sys (some bytes) =
      if not store.has_path
      then ok (empty store)
      else if not sys.metadata
      then err io
      else if ltb max_ledger_bytes (length bytes)
      then err (too_large (length bytes) max_ledger_bytes)
      else if not sys.read
      then err io
      else read_ledger bytes

  unfoldable pub envelope_for : List Byte → LedgerEnvelope
  envelope_for payload = record {
    magic = ledger_magic;
    version = ledger_format_version;
    checksum = f.codec.digest.blake3 payload;
    payload = payload;
  }

  -- The write: a temporary file, synced, renamed over the ledger file, and the directory synced.
  unfoldable pub replace_file : WriteIo → List Byte → Exec Disk StorageError ⊤
  replace_file sys encoded = do
    fail_if (not sys.new_temp) io
    fail_if (not sys.write_all) io
    fail_if (not sys.sync_temp) io
    fail_if (not sys.set_permissions) io
    fail_if (not sys.rename) io
    modify (λ _. some encoded)
    fail_if (not sys.sync_dir) io

  unfoldable pub write_ledger : WriteIo → LedgerSnapshot → Exec Disk StorageError ⊤
  write_ledger sys sn = do
    fail_if (not sys.has_parent) missing_parent_directory
    fail_if (not sys.create_dir_all) io
    payload ← ok_or (f.serialize_snapshot sn) encode
    encoded ← ok_or (f.serialize_envelope (envelope_for payload)) encode
    fail_if (ltb max_ledger_bytes (length encoded)) (too_large (length encoded) max_ledger_bytes)
    replace_file sys encoded

  unfoldable pub persist : WriteIo → LedgerSnapshot → Exec Disk StorageError ⊤
  persist sys sn = do
    fail_if (not (sn.chain_id == store.chain_id) || not (sn.state.chain_id == store.chain_id))
        (chain_mismatch store.chain_id sn.chain_id)
    if not store.has_path then pure tt else write_ledger sys sn
