-- ===== src/Trust/Signed.antt =====
-- What admin_signer.py signs, core/trust.py accepts.
use sentinelai_v.Prelude.{String, ◌≡◌, ◌↔◌, refl, ap, Option, none, some, Option-cases, inl, inr}
use mathlib.Core.Option.{some-injective}
use sentinelai_v.Siem.{SignatureCheck, valid_signature, bad_signature, unreadable_signature}
use sentinelai_v.Trust.{
  Files, intact, signed, Rsa, verify_policy_integrity, sign_policy, of_check, check_files,
}

module _ (rsa : Rsa) (sha256 : String → String) where
  -- The public key's file, where there is a private key, is of that key.
  abbrev pub IsPaired : Files → Type 0
  IsPaired files =
      (private_key : String)
      → files.private_pem ≡ some private_key
      → files.public_pem ≡ some (rsa.public_of private_key)

  -- The check passes exactly if the policies, the signature and the public key are there and the
  -- signature is good for the policies; what it returns is the hash of the policies.
  verify-intact_iff :
      (files : Files) (hash : String)
      → (verify_policy_integrity rsa sha256 files ≡ intact hash) ↔ (
          (payload : String) × (signature : String) × (public_key : String) × (files.policies_yaml
            ≡ some payload)
          × (files.policies_sig ≡ some signature)
          × (files.public_pem ≡ some public_key)
          × (rsa.verify public_key signature payload ≡ valid_signature)
          × (sha256 payload ≡ hash))
  unfolding verify_policy_integrity
  verify-intact_iff files hash = (
    by_files files.policies_yaml files.policies_sig files.public_pem refl refl refl,
    λ (payload, signature, public_key, there, with_sig, with_key, good, hashed).
        rw (there, with_sig, with_key, good) (ap intact hashed),
  )
    where
      by_check :
          (payload : String) (c : SignatureCheck)
          → of_check sha256 payload c ≡ intact hash
          → (c ≡ valid_signature) × (sha256 payload ≡ hash)
      by_check payload valid_signature h = (refl, cc h)
      by_check payload bad_signature h = absurd (cc h)
      by_check payload unreadable_signature h = absurd (cc h)

      by_files :
          (p s k : Option String)
          → files.policies_yaml ≡ p
          → files.policies_sig ≡ s
          → files.public_pem ≡ k
          → check_files rsa sha256 p s k ≡ intact hash
          → (payload : String) × (signature : String) × (public_key : String) × (files.policies_yaml
              ≡ some payload)
            × (files.policies_sig ≡ some signature)
            × (files.public_pem ≡ some public_key)
            × (rsa.verify public_key signature payload ≡ valid_signature)
            × (sha256 payload ≡ hash)
      by_files (some payload) (some signature) (some key) there with_sig with_key h =
          let (good, hashed) = by_check payload (rsa.verify key signature payload) h in
          (payload, signature, key, there, with_sig, with_key, good, hashed)
      by_files none s k there with_sig with_key h = absurd (cc h)
      by_files (some payload) none k there with_sig with_key h = absurd (cc h)
      by_files (some payload) (some signature) none there with_sig with_key h = absurd (cc h)

  -- Signing and then checking passes: if there are policies, and the files of the keys are a pair or
  -- there is no private key yet, `sign_policy` signs them, after making keys if it must, and the check
  -- returns the hash of the same policies. Of the library it is used that it accepts a signature that
  -- it has made itself.
  pub sign_policy-verified :
      ((private_key payload : String)
        → rsa.verify (rsa.public_of private_key) (rsa.sign private_key payload) payload
          ≡ valid_signature)
      → (files : Files) (fresh payload : String) → files.policies_yaml ≡ some payload
      → IsPaired files
      → let (ended, after) = sign_policy rsa fresh files in
        (ended ≡ signed)
        × (verify_policy_integrity rsa sha256 after ≡ intact (sha256 payload))
        × IsPaired after
  unfolding verify_policy_integrity sign_policy
  sign_policy-verified accepts files fresh payload there paired =
      elim (Option-cases files.private_pem) [
        | inl no_key ↦
            rw (no_key, there, accepts fresh payload)
              (refl, refl, λ k e. ap (λ x. some (rsa.public_of x)) (some-injective fresh k e))
        | inr (key, has_key) ↦
            rw (has_key, there, paired key has_key, accepts key payload)
              (refl, refl, λ k e. ap (λ x. some (rsa.public_of x)) (some-injective key k e))
      ]
