-- ===== src/Crypto.antt =====
-- packages/crypto/deviceKeys.ts. `createPublicKey`, the fingerprint of a key and `verify` are
-- node:crypto's, and enter as the parameter `Crypto`.
use contactless_airlock_lab.Prelude.{
  Bool, not, Option, none, some, Text, text, ◌==◌, text_Eq, if◌then◌else◌, Result, ok, err,
}
use contactless_airlock_lab.Protocol.{
  SignedApproval, Error, unsupported_algorithm, key_does_not_match_profile, algorithm_mismatch,
}
use contactless_airlock_lab.Protocol.Canonical.{Fields, canonicalize_binding}

pub record Crypto : Type 0 where
  -- `createPublicKey` reads the key, and it is a public key on prime256v1
  pub is_p256_public : Text → Bool
  -- the base64url SHA-256 digest of the key's DER form
  pub digest : Text → Text
  -- `verify("sha256", payload, key, signature)` for the payload of an algorithm and a binding
  pub verify : Text → Fields → Text → Text → Bool

-- APPROVAL_ALGORITHM
abbrev pub approval_algorithm : Text
approval_algorithm = text "airlock.ecdsa-p256-sha256-der.v1"

module _ (crypto : Crypto) where
  -- The error of `validatePublicKeyProfile`, if any.
  unfoldable pub validate_public_key_profile : Text → Text → Option Error
  validate_public_key_profile key algorithm =
      if not (algorithm == approval_algorithm)
      then some unsupported_algorithm
      else (if crypto.is_p256_public key then none else some key_does_not_match_profile)

  verify_payload : SignedApproval → Text → Result Error Fields → Result Error Bool
  verify_payload approval key (err e) = err e
  verify_payload approval key (ok payload) =
      ok (crypto.verify approval.algorithm payload key approval.signature)

  unfoldable pub verify_approval : SignedApproval → Text → Text → Result Error Bool
  unfolding validate_public_key_profile verify_payload
  verify_approval approval key expected =
      if not (expected == approval_algorithm)
      then err unsupported_algorithm
      else (if not (approval.algorithm == expected)
          then err algorithm_mismatch
          else elim (validate_public_key_profile key expected) [
            | some e ↦ err e
            | none ↦ verify_payload approval key (canonicalize_binding approval.binding)
          ])

  -- publicKeyFingerprint of airlockEngine.ts
  unfoldable pub public_key_fingerprint : Text → Text → Result Error Text
  unfolding validate_public_key_profile
  public_key_fingerprint key algorithm = elim (validate_public_key_profile key algorithm) [
    | some e ↦ err e
    | none ↦ ok (crypto.digest key)
  ]
