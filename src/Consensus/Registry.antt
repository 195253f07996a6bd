-- ===== src/Consensus/Registry.antt =====
-- crates/subhost-consensus/src/lib.rs: `ValidatorRegistry`, the BLS keys of the validators.
-- What subhost-crypto does with the curve is an interface here.
use sub_host_demo.Base.{
  ℕ, ◌≡◌, ◌⊎◌, inl, inr, refl, Bool, true, false, not, Option, some, List, ◌==◌, nat_eq,
  if◌then◌else◌, Exec, ok, err, fail_if, gets, modify, ◌>>=◌, ◌>>◌, ⊤, length, Bool-cases,
}
use sub_host_demo.Core.{Address, Byte}
use sub_host_demo.Map
use sub_host_demo.Map.{Map, contains, get-insert}
use sub_host_demo.Consensus.{ConsensusError, duplicate_validator, invalid_proof_of_possession}

-- `BLSScheme` and the decoding of a compressed signature.
pub record Bls : Type 1 where
  pub PublicKey : Type 0
  pub Signature : Type 0
  pub deserialize : List Byte → Option Signature
  pub verify : PublicKey → List Byte → Signature → Bool
  pub verify_possession : PublicKey → Signature → Bool

module _ (b : Bls) where
  abbrev pub ValidatorRegistry : Type 0
  ValidatorRegistry = Map Address b.PublicKey

  -- The key is inserted before the test for a duplicate.
  unfoldable pub register :
      Address → b.PublicKey → b.Signature → Exec ValidatorRegistry ConsensusError ⊤
  register address public_key proof = do
    fail_if (not (b.verify_possession public_key proof)) (invalid_proof_of_possession address)
    replaced ← gets (contains address)
    modify (Map.insert address public_key)
    fail_if replaced (duplicate_validator address)

  unfoldable pub public_key : Address → ValidatorRegistry → Option b.PublicKey
  public_key a r = Map.get a r

  unfoldable pub registry_len : ValidatorRegistry → ℕ
  registry_len r = length r

  -- A registration without a valid proof of possession fails and changes nothing. With one, the
  -- new key stands at the address and no other key changes; the call succeeds if the address was
  -- free, and fails as a duplicate if it was not.
  pub register_exact :
      (a : Address) (k : b.PublicKey) (proof : b.Signature) (r : ValidatorRegistry)
      → ((b.verify_possession k proof ≡ false)
          × (register a k proof r ≡ (err (invalid_proof_of_possession a), r)))
        ⊎ ((b.verify_possession k proof ≡ true)
            × ((register a k proof r).0
                ≡ (if contains a r then err (duplicate_validator a) else ok tt))
            × ((c : Address)
                → public_key c (register a k proof r).1
                  ≡ (if a == c then some k else public_key c r)))
  unfolding register public_key
  register_exact a k proof r = elim (Bool-cases (b.verify_possession k proof)) [
    | inr bad ↦ inl (bad, rw bad refl)
    | inl good ↦ elim (Bool-cases (contains a r)) [
      | inl there ↦ inr (good, rw (good, there) refl, λ c. rw (good, there) (get-insert a c k r))
      | inr free ↦ inr (good, rw (good, free) refl, λ c. rw (good, free) (get-insert a c k r))
    ]
  ]
