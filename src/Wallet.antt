-- ===== src/Wallet.antt =====
-- crates/subhost-wallet/src/lib.rs: encrypted key files. scrypt, AES-GCM, ed25519, hex and JSON are
-- parameters; the random salt and nonce are arguments; the disk is the content of the wallet file.
pub mod Keys
use sub_host_demo.Base.{
  ℕ, zero, suc, ◌+◌, ◌*◌, ◌/◌, ◌%◌, Bool, true, false, not, ◌||◌, Option, none, some, List, [], ◌∷◌,
  ◌++◌, ◌==◌, nat_eq, list_eq, ltb, leb, length, if◌then◌else◌, Exec, Result, ok, err, fail_if,
  ok_or, modify, pure, lift, ◌>>=◌, ◌>>◌, ⊤,
}
use sub_host_demo.Core.{Address, Byte, Digest}
use sub_host_demo.Rpc.Wire.{Text, strip_prefix, hex_prefix}
use sub_host_demo.Rpc.Server.{Crypto, from_hex, from_public_key}
use sub_host_demo.Faucet.{trim, to_ascii_lowercase}

abbrev pub wallet_version : ℕ
wallet_version = 1

abbrev pub max_wallet_file_bytes : ℕ
max_wallet_file_bytes = 1024 * 1024

abbrev pub min_password_chars : ℕ
min_password_chars = 8

abbrev pub salt_bytes : ℕ
salt_bytes = 32

abbrev pub nonce_bytes : ℕ
nonce_bytes = 12

abbrev pub secret_key_bytes : ℕ
secret_key_bytes = 32

pub record KdfParams : Type 0 where
  pub log_n : ℕ
  pub r : ℕ
  pub p : ℕ

-- `KdfParams::default`
abbrev pub default_kdf : KdfParams
default_kdf = record { log_n = 15; r = 8; p = 1 }

pub record EncryptedKey : Type 0 where
  pub ciphertext : List Byte
  pub salt : List Byte
  pub nonce : List Byte
  pub kdf : KdfParams

pub record Wallet : Type 0 where
  pub address : Text
  pub encrypted_key : List Byte
  pub salt : List Byte
  pub nonce : List Byte
  pub version : ℕ
  pub kdf : KdfParams

pub data WalletError : Type 0 where
  key_derivation_failed weak_kdf_parameters encryption_failed decryption_failed io serialization :
      WalletError
  invalid_private_key address_mismatch weak_password file_too_large : WalletError
  unsupported_version : ℕ → WalletError

-- What third-party code computes. `scrypt` is asked for the parameters that `is_cost` allows.
pub record Vault : Type 0 where
  pub digest : Digest
  pub crypto : Crypto
  pub is_cost : KdfParams → Bool
  pub scrypt : Text → List Byte → KdfParams → Option (List Byte)
  pub encrypt : List Byte → List Byte → List Byte → Option (List Byte)
  pub decrypt : List Byte → List Byte → List Byte → Option (List Byte)
  pub verifying_key : List Byte → List Byte
  pub hex_encode : List Byte → Text
  pub to_json : Wallet → Option (List Byte)
  pub from_json : List Byte → Option Wallet

-- Which calls of the operating system succeed while a wallet is saved.
pub record SaveIo : Type 0 where
  pub create_dir_all : Bool
  pub new_temp : Bool
  pub set_permissions : Bool
  pub write_all : Bool
  pub sync_temp : Bool
  pub rename : Bool
  pub sync_dir : Bool

abbrev pub File : Type 0
File = Option (List Byte)

-- The bytes of a number of a fixed width, big end first.
unfoldable pub to_bytes : ℕ → ℕ → List Byte
to_bytes zero n = []
to_bytes (suc k) n = to_bytes k (n / 256) ++ (n % 256) ∷ []

unfoldable pub validate_password : Text → Result WalletError ⊤
validate_password password =
    if ltb (length password) min_password_chars then err weak_password else ok tt

-- `trim_start_matches("0x")`: every leading copy goes.
unfoldable pub trim_start_matches : Text → Text
trim_start_matches [] = []
trim_start_matches (c ∷ []) = c ∷ []
trim_start_matches (c ∷ d ∷ cs) =
    let rest = trim_start_matches cs in
    if (c == b'0') then (if d == b'x' then rest else c ∷ d ∷ cs) else c ∷ d ∷ cs

abbrev pub key_of : Wallet → EncryptedKey
key_of w = record { ciphertext = w.encrypted_key; salt = w.salt; nonce = w.nonce; kdf = w.kdf }

module _ (v : Vault) where
  -- `KdfParams::validate`
  unfoldable pub validate : KdfParams → Result WalletError ⊤
  validate k =
      if ltb k.log_n 14
      then err weak_kdf_parameters
      else if v.is_cost k
      then ok tt
      else err key_derivation_failed

  -- `Address::to_string`
  unfoldable pub print_address : Address → Text
  print_address a = hex_prefix ++ v.hex_encode (to_bytes 20 a)

  unfoldable pub derive_address : List Byte → Address
  derive_address secret = from_public_key v.digest (v.verifying_key secret)

  unfoldable pub derive_encryption_key :
      Text → List Byte → KdfParams → Result WalletError (List Byte)
  derive_encryption_key password salt k = elim (validate k) [
    | err e ↦ err e
    | ok _ ↦ elim (v.scrypt password salt k) [
      | none ↦ err key_derivation_failed
      | some key ↦ ok key
    ]
  ]

  unfoldable pub encrypt_private_key :
      List Byte → List Byte → List Byte → Text → KdfParams → Result WalletError EncryptedKey
  encrypt_private_key salt nonce secret password k = elim (derive_encryption_key password salt k) [
    | err e ↦ err e
    | ok key ↦ elim (v.encrypt key nonce secret) [
      | none ↦ err encryption_failed
      | some ciphertext ↦
          ok (record { ciphertext = ciphertext; salt = salt; nonce = nonce; kdf = k })
    ]
  ]

  unfoldable pub decrypt_private_key : EncryptedKey → Text → Result WalletError (List Byte)
  decrypt_private_key e password =
      if not (length e.salt == salt_bytes) || not (length e.nonce == nonce_bytes)
      then err decryption_failed
      else elim (derive_encryption_key password e.salt e.kdf) [
        | err x ↦ err x
        | ok key ↦ elim (v.decrypt key e.nonce e.ciphertext) [
          | none ↦ err decryption_failed
          | some plaintext ↦
              if length plaintext == secret_key_bytes then ok plaintext else err decryption_failed
        ]
      ]

  unfoldable pub from_secret : List Byte → List Byte → List Byte → Text → Result WalletError Wallet
  from_secret salt nonce secret password = elim (validate_password password) [
    | err e ↦ err e
    | ok _ ↦ elim (encrypt_private_key salt nonce secret password default_kdf) [
      | err e ↦ err e
      | ok encrypted ↦ ok (record {
        address = print_address (derive_address secret);
        encrypted_key = encrypted.ciphertext;
        salt = encrypted.salt;
        nonce = encrypted.nonce;
        version = wallet_version;
        kdf = encrypted.kdf;
      })
    ]
  ]

  unfoldable pub from_private_key : List Byte → List Byte → Text → Text → Result WalletError Wallet
  from_private_key salt nonce digits password =
      elim (v.crypto.hex_decode (trim_start_matches (trim digits))) [
        | none ↦ err invalid_private_key
        | some bytes ↦
            if length bytes == secret_key_bytes
            then from_secret salt nonce bytes password
            else err invalid_private_key
      ]

  unfoldable pub save : SaveIo → Wallet → Exec File WalletError ⊤
  save sys w = do
    fail_if (not (w.version == wallet_version)) (unsupported_version w.version)
    fail_if (not sys.create_dir_all) io
    json ← ok_or (v.to_json w) serialization
    fail_if (not sys.new_temp) io
    fail_if (not sys.set_permissions) io
    fail_if (not sys.write_all) io
    fail_if (not sys.sync_temp) io
    fail_if (not sys.rename) io
    modify (λ _. some json)
    fail_if (not sys.sync_dir) io

  -- `Wallet::read`, on the content of the file; a file that is missing or cannot be read is `none`.
  unfoldable pub read : File → Result WalletError Wallet
  read none = err io
  read (some content) =
      if ltb max_wallet_file_bytes (length content)
      then err file_too_large
      else elim (v.from_json content) [
        | none ↦ err serialization
        | some w ↦
            if not (w.version == wallet_version) then err (unsupported_version w.version) else ok w
      ]

  unfoldable pub load : File → Text → Result WalletError (Wallet × List Byte)
  load file password = elim (validate_password password) [
    | err e ↦ err e
    | ok _ ↦ elim (read file) [
      | err e ↦ err e
      | ok w ↦ elim (decrypt_private_key (key_of w) password) [
        | err e ↦ err e
        | ok secret ↦
            if not (w.address == print_address (derive_address secret))
            then err address_mismatch
            else ok (w, secret)
      ]
    ]
  ]

  unfoldable pub parsed_address : Wallet → Result WalletError Address
  parsed_address w = elim (from_hex v.crypto 20 w.address) [
    | none ↦ err address_mismatch
    | some a ↦ ok a
  ]

  -- `eq_ignore_ascii_case`
  unfoldable pub matches : Address → Wallet → Bool
  matches a w = to_ascii_lowercase w.address == to_ascii_lowercase (print_address a)
