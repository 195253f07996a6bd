-- ===== src/Tests/Wallets.antt =====
-- A key file at concrete inputs.
use sub_host_demo.Base.{
  ◌≤◌, ◌≡◌, ap, refl, true, none, some, List, [], ◌∷◌, arith, nat_eq, list_eq, length, ok, sym,
}
use sub_host_demo.Core.{Byte}
use sub_host_demo.Core.Signature.{replicate}
use sub_host_demo.Rpc.Wire.{Text}
use sub_host_demo.Wallet as WalletCode
use sub_host_demo.Wallet.{
  Wallet, WalletError, Vault, SaveIo, File, default_kdf, wallet_version, print_address,
  derive_address, from_secret, save, load, max_wallet_file_bytes,
}
use sub_host_demo.Wallet.Keys.{load-save, load_sound}
use sub_host_demo.Tests.Fixtures.{digest}

abbrev secret : List Byte
secret = replicate 32 7

abbrev salt : List Byte
salt = replicate 32 1

abbrev nonce : List Byte
nonce = replicate 12 2

abbrev password : Text
password = replicate 8 b'p'

abbrev wallet : Wallet
wallet = record {
  address = b'0' ∷ b'x' ∷ [];
  encrypted_key = secret;
  salt = salt;
  nonce = nonce;
  version = 1;
  kdf = default_kdf;
}

-- The cipher keeps its text, and JSON holds one wallet.
abbrev vault : Vault
vault = record {
  digest = digest;
  crypto = record { hex_decode = λ t. some t; is_key = λ k. true; verify = λ k m s. true };
  is_cost = λ k. true;
  scrypt = λ p s k. some s;
  encrypt = λ key n plain. some plain;
  decrypt = λ key n cipher. some cipher;
  verifying_key = λ s. s;
  hex_encode = λ bytes. [];
  to_json = λ w. some (1 ∷ []);
  from_json = λ content. some wallet;
}

abbrev healthy : SaveIo
healthy = record {
  create_dir_all = true;
  new_temp = true;
  set_permissions = true;
  write_all = true;
  sync_temp = true;
  rename = true;
  sync_dir = true;
}

makes : from_secret vault salt nonce secret password ≡ ok wallet
unfolding from_secret WalletCode.validate_password WalletCode.encrypt_private_key
    WalletCode.derive_encryption_key WalletCode.validate print_address
makes = refl

saves : save vault healthy wallet none ≡ (ok tt, some (1 ∷ []))
unfolding save
saves = refl

reads :
    (content : List Byte)
    → vault.to_json wallet ≡ some content
    → (vault.from_json content ≡ some wallet) × (length content ≤ max_wallet_file_bytes)
reads content e = (refl, short (inside e))
  where
    inside : {x y : List Byte} → some x ≡ some y → x ≡ y
    inside h = cc h

    short : (1 ∷ []) ≡ content → length content ≤ max_wallet_file_bytes
    short h = omega (arith, ap (λ x. length x) h)

loads : load vault (some (1 ∷ [])) password ≡ ok (wallet, secret)
loads =
    load-save vault healthy salt nonce secret password wallet none (some (1 ∷ [])) makes saves refl
      refl refl (λ key ciphertext e. sym e) reads

load-save_example : load vault (some (1 ∷ [])) password ≡ ok (wallet, secret)
load-save_example =
    load-save vault healthy salt nonce secret password wallet none (some (1 ∷ [])) makes saves refl
      refl refl (λ key ciphertext e. sym e) reads

load_sound_example :
    (wallet.address ≡ print_address vault (derive_address vault secret))
    × (length secret ≡ 32)
    × (14 ≤ wallet.kdf.log_n)
    × (wallet.version ≡ wallet_version)
load_sound_example = load_sound vault (some (1 ∷ [])) password wallet secret loads
