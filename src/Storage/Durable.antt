-- ===== src/Storage/Durable.antt =====
-- crates/subhost-storage/src/lib.rs: what `persist` leaves on the disk, and what `load` makes of it.
use sub_host_demo.Base.{
  ◌≤◌, ◌≡◌, ◌⊎◌, ◌∙◌, inl, inr, refl, true, false, not, ◌||◌, some, List, arith, ◌==◌, nat_eq,
  list_eq, ltb, length, if◌then◌else◌, ok, err, Bool-cases, Option-cases,
}
use sub_host_demo.Core.{Byte}
use sub_host_demo.Storage.Chain.{
  StorageError, chain_mismatch, too_large, io, encode, missing_parent_directory,
}
use sub_host_demo.Storage.{
  LedgerStore, LedgerSnapshot, LedgerEnvelope, FileFormat, WriteIo, ReadIo, Disk, max_ledger_bytes,
  restore, read_ledger, load, envelope_for, replace_file, write_ledger, persist,
}

-- The decoders give back what the encoders wrote of this ledger.
pub record ReadsBack (f : FileFormat) (sn : LedgerSnapshot) : Type 0 where
  pub ledger :
      (payload : List Byte)
      → f.serialize_snapshot sn ≡ some payload
      → f.deserialize_snapshot payload ≡ some sn
  pub envelope :
      (e : LedgerEnvelope) (bytes : List Byte)
      → f.serialize_snapshot sn ≡ some e.payload
      → f.serialize_envelope e ≡ some bytes
      → f.deserialize_envelope bytes ≡ some e

module _ (f : FileFormat) (store : LedgerStore) (sys : WriteIo) where
  -- A file written in full.
  pub record IsWritten (sn : LedgerSnapshot) (bytes : List Byte) : Type 0 where
    pub payload : List Byte
    pub has_path : store.has_path ≡ true
    pub chain : sn.chain_id ≡ store.chain_id
    pub state_chain : sn.state.chain_id ≡ store.chain_id
    pub serialized : f.serialize_snapshot sn ≡ some payload
    pub encoded : f.serialize_envelope (envelope_for f store payload) ≡ some bytes
    pub fits : length bytes ≤ max_ledger_bytes

  -- How a call of `persist` ends: nothing to write, refused with the old file in place, or with the
  -- new file in place, where only the sync of the directory may still have failed.
  pub data Persisted (sn : LedgerSnapshot) (disk : Disk) : Type 0 where
    skipped :
        store.has_path ≡ false
        → sn.chain_id ≡ store.chain_id
        → sn.state.chain_id ≡ store.chain_id
        → persist f store sys sn disk ≡ (ok tt, disk)
        → Persisted sn disk
    failed : (e : StorageError) → persist f store sys sn disk ≡ (err e, disk) → Persisted sn disk
    written :
        (bytes : List Byte)
        → IsWritten sn bytes
        → persist f store sys sn disk ≡ ((if sys.sync_dir then ok tt else err io), some bytes)
        → Persisted sn disk

  replace_file_cases :
      (bytes : List Byte) (disk : Disk)
      → ((e : StorageError) × (replace_file f store sys bytes disk ≡ (err e, disk)))
        ⊎ (replace_file f store sys bytes disk
            ≡ ((if sys.sync_dir then ok tt else err io), some bytes))
  unfolding replace_file
  replace_file_cases bytes disk = elim (Bool-cases sys.new_temp) [
    | inr x ↦ inl (io, ground arith)
    | inl a ↦ elim (Bool-cases sys.write_all) [
      | inr x ↦ inl (io, ground arith)
      | inl b ↦ elim (Bool-cases sys.sync_temp) [
        | inr x ↦ inl (io, ground arith)
        | inl c ↦ elim (Bool-cases sys.set_permissions) [
          | inr x ↦ inl (io, ground arith)
          | inl d ↦ elim (Bool-cases sys.rename) [
            | inr x ↦ inl (io, ground arith)
            | inl e ↦ inr (ground arith)
          ]
        ]
      ]
    ]
  ]

  written_when :
      (sn : LedgerSnapshot) (disk : Disk) (payload bytes : List Byte)
      → sys.has_parent ≡ true
      → sys.create_dir_all ≡ true
      → f.serialize_snapshot sn ≡ some payload
      → f.serialize_envelope (envelope_for f store payload) ≡ some bytes
      → length bytes ≤ max_ledger_bytes
      → write_ledger f store sys sn disk ≡ replace_file f store sys bytes disk
  unfolding write_ledger
  written_when sn disk payload bytes a b c d e = rw a (rw b (rw c (rw d (rw (small e)))))
    where
      small : length bytes ≤ max_ledger_bytes → ltb max_ledger_bytes (length bytes) ≡ false
      small h = ground arith

  write_ledger_cases :
      (sn : LedgerSnapshot) (disk : Disk)
      → ((e : StorageError) × (write_ledger f store sys sn disk ≡ (err e, disk)))
        ⊎ ((payload : List Byte) × (bytes : List Byte) × (f.serialize_snapshot sn ≡ some payload)
            × (f.serialize_envelope (envelope_for f store payload) ≡ some bytes)
            × (length bytes ≤ max_ledger_bytes)
            × (write_ledger f store sys sn disk
                ≡ ((if sys.sync_dir then ok tt else err io), some bytes)))
  unfolding write_ledger
  write_ledger_cases sn disk = elim (Bool-cases sys.has_parent) [
    | inr x ↦ inl (missing_parent_directory, rw x)
    | inl a ↦ elim (Bool-cases sys.create_dir_all) [
      | inr x ↦ inl (io, rw a (rw x))
      | inl b ↦ elim (Option-cases (f.serialize_snapshot sn)) [
        | inl x ↦ inl (encode, rw a (rw b (rw x)))
        | inr (payload, c) ↦
            elim (Option-cases (f.serialize_envelope (envelope_for f store payload))) [
              | inl x ↦ inl (encode, rw a (rw b (rw c (rw x))))
              | inr (bytes, d) ↦ elim (Bool-cases (ltb max_ledger_bytes (length bytes))) [
                | inl x ↦
                    inl
                      (too_large (length bytes) max_ledger_bytes, rw a (rw b (rw c (rw d (rw x)))))
                | inr small ↦
                    let fits : length bytes ≤ max_ledger_bytes = ground arith in
                    let same = written_when sn disk payload bytes a b c d fits in
                    elim (replace_file_cases bytes disk) [
                      | inl (e, x) ↦ inl (e, same ∙ x)
                      | inr x ↦ inr (payload, bytes, c, d, fits, same ∙ x)
                    ]
              ]
            ]
      ]
    ]
  ]

  pub persist_cases : (sn : LedgerSnapshot) (disk : Disk) → Persisted sn disk
  unfolding persist
  persist_cases sn disk =
      elim (Bool-cases
        (not (sn.chain_id == store.chain_id) || not (sn.state.chain_id == store.chain_id))) [
          | inl foreign ↦ failed (chain_mismatch store.chain_id sn.chain_id) (rw foreign)
          | inr home ↦ elim (Bool-cases store.has_path) [
            | inr x ↦ skipped x (ground arith) (ground arith) (rw home (rw x))
            | inl durable ↦ elim (write_ledger_cases sn disk) [
              | inl (e, x) ↦ failed e (ground arith)
              | inr (payload, bytes, c, d, fits, x) ↦
                  written bytes
                    (record {
                      payload = payload;
                      has_path = durable;
                      chain = ground arith;
                      state_chain = ground arith;
                      serialized = c;
                      encoded = d;
                      fits = fits;
                    })
                    (ground arith)
            ]
          ]
        ]

read_written :
    (f : FileFormat) (store : LedgerStore) (sys : WriteIo) (sn : LedgerSnapshot) (bytes : List Byte)
    → IsWritten f store sys sn bytes
    → ReadsBack f sn
    → read_ledger f store bytes ≡ restore f store sn
unfolding read_ledger envelope_for
read_written f store sys sn bytes w back = ground (
  arith,
  back.envelope (envelope_for f store w.payload) bytes w.serialized w.encoded,
  back.ledger w.payload w.serialized,
)

-- A file that was written in full is read back as the ledger that it was written from.
pub load_written :
    (f : FileFormat) (store : LedgerStore) (sys : WriteIo) (reads : ReadIo) (sn : LedgerSnapshot)
    (bytes : List Byte)
    → IsWritten f store sys sn bytes
    → ReadsBack f sn
    → reads.metadata ≡ true
    → reads.read ≡ true
    → load f store reads (some bytes) ≡ restore f store sn
unfolding load
load_written f store sys reads sn bytes w back m r =
    ground (arith, w.has_path, m, r, w.fits, read_written f store sys sn bytes w back)

-- The file afterwards is as it was, or reads as the new ledger; and it does so after a success of a
-- durable store.
pub persist_loads :
    (f : FileFormat) (store : LedgerStore) (sys : WriteIo) (reads : ReadIo) (sn : LedgerSnapshot)
    (disk : Disk)
    → ReadsBack f sn
    → reads.metadata ≡ true
    → reads.read ≡ true
    → let (r, disk') = persist f store sys sn disk in
      ((disk' ≡ disk) ⊎ (load f store reads disk' ≡ restore f store sn))
      × (r ≡ ok tt → store.has_path ≡ true → load f store reads disk' ≡ restore f store sn)
persist_loads f store sys reads sn disk back m r = by_cases (persist_cases f store sys sn disk)
  where
    by_cases :
        Persisted f store sys sn disk
        → ((persist f store sys sn disk).1 ≡ disk
            ⊎ load f store reads (persist f store sys sn disk).1 ≡ restore f store sn)
          × ((persist f store sys sn disk).0 ≡ ok tt
              → store.has_path ≡ true
              → load f store reads (persist f store sys sn disk).1 ≡ restore f store sn)
    by_cases (skipped x _ _ e) = rw e (inl refl, λ _ y. cc (x, y))
    by_cases (failed _ e) = rw e (inl refl, λ y. cc y)
    by_cases (written bytes w e) =
        let same = load_written f store sys reads sn bytes w back m r in
        rw e (inr same, λ _ _. same)

-- Whatever happens while a ledger is written, one of three things holds afterwards: the store has no
-- file and nothing was written, or the call failed and the file is as it was, or the file reads as
-- the new ledger. It never reads as anything else.
pub persist_atomic :
    (f : FileFormat) (store : LedgerStore) (sys : WriteIo) (reads : ReadIo) (sn : LedgerSnapshot)
    (disk : Disk)
    → ReadsBack f sn
    → reads.metadata ≡ true
    → reads.read ≡ true
    → let (r, disk') = persist f store sys sn disk in
      ((store.has_path ≡ false) × (r ≡ ok tt) × (disk' ≡ disk))
      ⊎ (((e : StorageError) × (r ≡ err e)) × (disk' ≡ disk))
      ⊎ (load f store reads disk' ≡ restore f store sn)
persist_atomic f store sys reads sn disk back m r = elim (persist_cases f store sys sn disk) [
  | skipped x _ _ e ↦ rw e (inl (x, refl, refl))
  | failed x e ↦ rw e (inr (inl ((x, refl), refl)))
  | written bytes w e ↦ rw e (inr (inr (load_written f store sys reads sn bytes w back m r)))
]
