-- ===== src/Wallet/Keys.antt =====
-- crates/subhost-wallet/src/lib.rs: a key survives its file, and a file gives up no other key.
use mathlib.Core.Path.{subst}
use sub_host_demo.Base.{
  ◌≤◌, ◌≡◌, ◌∙◌, ap, refl, inl, inr, none, some, List, arith, ◌==◌, nat_eq, list_eq, length, Result,
  ok, Bool-cases, Option-cases, Result-cases,
}
use sub_host_demo.Core.{Byte}
use sub_host_demo.Rpc.Wire.{Text}
use sub_host_demo.Wallet.{
  Wallet, WalletError, Vault, SaveIo, File, EncryptedKey, default_kdf, wallet_version,
  max_wallet_file_bytes, salt_bytes, nonce_bytes, secret_key_bytes, validate_password, validate,
  derive_encryption_key, print_address, derive_address, encrypt_private_key, decrypt_private_key,
  from_secret, save, read, key_of, load,
}

module _ (v : Vault) where
  -- AES-GCM opens what it has sealed with one key, nonce and secret.
  abbrev pub Opens : List Byte → List Byte → Type 0
  Opens nonce secret =
      (key ciphertext : List Byte)
      → v.encrypt key nonce secret ≡ some ciphertext
      → v.decrypt key nonce ciphertext ≡ some secret

  -- JSON gives back the wallet that it wrote, and the file is not too large.
  record IsStored (w : Wallet) (content : List Byte) : Type 0 where
    decoded : v.from_json content ≡ some w
    fits : length content ≤ max_wallet_file_bytes

  -- A wallet as `from_secret` makes it.
  record IsMade (salt nonce secret : List Byte) (password : Text) (w : Wallet) : Type 0 where
    allowed : validate_password password ≡ ok tt
    key : List Byte
    derived : derive_encryption_key v password salt w.kdf ≡ ok key
    sealed : v.encrypt key nonce secret ≡ some w.encrypted_key
    salted : w.salt ≡ salt
    nonced : w.nonce ≡ nonce
    addressed : w.address ≡ print_address v (derive_address v secret)
    versioned : w.version ≡ wallet_version

  made :
      (salt nonce secret : List Byte) (password : Text) (w : Wallet)
      → from_secret v salt nonce secret password ≡ ok w
      → IsMade salt nonce secret password w
  unfolding from_secret encrypt_private_key
  made salt nonce secret password w h = elim (Result-cases (validate_password password)) [
    | inr (e, x) ↦ absurd (ground arith)
    | inl (u, x) ↦ elim (Result-cases (derive_encryption_key v password salt default_kdf)) [
      | inr (e, y) ↦ absurd (ground arith)
      | inl (key, y) ↦ elim (Option-cases (v.encrypt key nonce secret)) [
        | inl z ↦ absurd (ground arith)
        | inr (ciphertext, z) ↦
            subst (IsMade salt nonce secret password) (same ciphertext (ground (arith, x, y, z, h)))
              (record {
                allowed = x;
                key = key;
                derived = y;
                sealed = z;
                salted = refl;
                nonced = refl;
                addressed = refl;
                versioned = refl;
              })
      ]
    ]
  ]
    where
      whole : List Byte → Wallet
      whole ciphertext = record {
        address = print_address v (derive_address v secret);
        encrypted_key = ciphertext;
        salt = salt;
        nonce = nonce;
        version = wallet_version;
        kdf = default_kdf;
      }

      same :
          (ciphertext : List Byte)
          → ◌≡◌ {A = Result WalletError Wallet} (ok (whole ciphertext)) (ok w)
          → whole ciphertext ≡ w
      same ciphertext e = cc e

  decrypted :
      (nonce secret : List Byte) (password : Text) (salt : List Byte) (w : Wallet)
      → IsMade salt nonce secret password w
      → length salt ≡ salt_bytes
      → length nonce ≡ nonce_bytes
      → length secret ≡ secret_key_bytes
      → Opens nonce secret
      → decrypt_private_key v (key_of w) password ≡ ok secret
  unfolding decrypt_private_key
  decrypted nonce secret password salt w m a b c open_ =
      let salted : length w.salt ≡ salt_bytes = ap (λ x. length x) m.salted ∙ a in
      let nonced : length w.nonce ≡ nonce_bytes = ap (λ x. length x) m.nonced ∙ b in
      let key : derive_encryption_key v password w.salt w.kdf ≡ ok m.key =
        ap (λ x. derive_encryption_key v password x w.kdf) m.salted ∙ m.derived in
      let plain : v.decrypt m.key w.nonce w.encrypted_key ≡ some secret =
        ap (λ x. v.decrypt m.key x w.encrypted_key) m.nonced
        ∙ open_ m.key w.encrypted_key m.sealed in
      ground (arith, salted, nonced, key, plain, c)

  read_stored :
      (w : Wallet) (content : List Byte)
      → IsStored w content
      → w.version ≡ wallet_version
      → read v (some content) ≡ ok w
  unfolding read
  read_stored w content s e = ground (arith, s.decoded, s.fits, e)

  saved :
      (sys : SaveIo) (w : Wallet) (file file' : File)
      → save v sys w file ≡ (ok tt, file')
      → (content : List Byte) × (v.to_json w ≡ some content) × (file' ≡ some content)
  unfolding save
  saved sys w file file' h = elim (Option-cases (v.to_json w)) [
    | inl x ↦ absurd (ground arith)
    | inr (content, x) ↦ (content, x, ground arith)
  ]

  -- A wallet that is made from a 32-byte secret and saved is loaded with its password as the same wallet
  -- and the same secret, if AES-GCM opens what it has sealed and the JSON of the wallet reads back
  -- within the size limit.
  pub load-save :
      (sys : SaveIo) (salt nonce secret : List Byte) (password : Text) (w : Wallet)
      (file file' : File)
      → from_secret v salt nonce secret password ≡ ok w
      → save v sys w file ≡ (ok tt, file')
      → length salt ≡ salt_bytes
      → length nonce ≡ nonce_bytes
      → length secret ≡ secret_key_bytes
      → Opens nonce secret
      → ((content : List Byte)
          → v.to_json w ≡ some content
          → (v.from_json content ≡ some w) × (length content ≤ max_wallet_file_bytes))
      → load v file' password ≡ ok (w, secret)
  unfolding load
  load-save sys salt nonce secret password w file file' h k a b c open_ reads =
      let m = made salt nonce secret password w h in
      let (content, x, y) = saved sys w file file' k in
      let stored =
        read_stored w content (record { decoded = (reads content x).0; fits = (reads content x).1 })
          m.versioned in
      let there : read v file' ≡ ok w = ap (read v) y ∙ stored in
      let mine =
        (list_eq.beq_iff w.address (print_address v (derive_address v secret))).1 m.addressed in
      ground (arith, m.allowed, there, decrypted nonce secret password salt w m a b c open_, mine)

  decrypts :
      (e : EncryptedKey) (password : Text) (secret : List Byte)
      → decrypt_private_key v e password ≡ ok secret
      → (length secret ≡ secret_key_bytes) × (14 ≤ e.kdf.log_n)
  unfolding decrypt_private_key derive_encryption_key validate
  decrypts e password secret h = ground arith

  reads_version : (file : File) (w : Wallet) → read v file ≡ ok w → w.version ≡ wallet_version
  unfolding read
  reads_version none w h = absurd (cc h)
  reads_version (some content) w h = ground arith

  -- Whatever is in the file, a wallet that is loaded has the supported version, a key derivation that
  -- is not too cheap, and a secret of 32 bytes that controls the address that the file claims.
  pub load_sound :
      (file : File) (password : Text) (w : Wallet) (secret : List Byte)
      → load v file password ≡ ok (w, secret)
      → (w.address ≡ print_address v (derive_address v secret))
        × (length secret ≡ secret_key_bytes)
        × (14 ≤ w.kdf.log_n)
        × (w.version ≡ wallet_version)
  unfolding load
  load_sound file password w secret h = elim (Result-cases (validate_password password)) [
    | inr (e, x) ↦ absurd (ground arith)
    | inl (u, x) ↦ elim (Result-cases (read v file)) [
      | inr (e, y) ↦ absurd (ground arith)
      | inl (w', y) ↦ elim (Result-cases (decrypt_private_key v (key_of w') password)) [
        | inr (e, z) ↦ absurd (ground arith)
        | inl (s, z) ↦ elim (Bool-cases (w'.address == print_address v (derive_address v s))) [
          | inr other_one ↦ absurd (ground arith)
          | inl mine ↦
              let same : ◌≡◌ {A = Result WalletError (Wallet × List Byte)} (ok (w', s))
                  (ok (w, secret)) =
                ground arith in
              subst
                (λ q.
                  (q.0.address ≡ print_address v (derive_address v q.1))
                  × (length q.1 ≡ secret_key_bytes)
                  × (14 ≤ q.0.kdf.log_n)
                  × (q.0.version ≡ wallet_version))
                (pair same)
                (
                  (list_eq.beq_iff w'.address (print_address v (derive_address v s))).0 mine,
                  (decrypts (key_of w') password s z).0,
                  (decrypts (key_of w') password s z).1,
                  reads_version file w' y,
                )
        ]
      ]
    ]
  ]
    where
      pair :
          {a b : Wallet × List Byte}
          → ◌≡◌ {A = Result WalletError (Wallet × List Byte)} (ok a) (ok b)
          → a ≡ b
      pair e = cc e
