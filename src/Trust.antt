-- ===== src/Trust.antt =====
-- admin_signer.py, which signs core/policies.yaml, and core/trust.py, which checks the signature. The
-- contents of files are texts; RSA-PSS and SHA-256 are parameters.
pub mod Signed
mod Tests
use sentinelai_v.Prelude.{String, Option, none, some, ◌≡◌}
use sentinelai_v.Siem.{SignatureCheck, valid_signature, bad_signature, unreadable_signature}

-- The four files, where they exist.
pub record Files : Type 0 where
  pub policies_yaml : Option String
  pub policies_sig : Option String
  pub private_pem : Option String
  pub public_pem : Option String

-- How `verify_policy_integrity` ends: the hash of the policies, or SecurityTamperingException for a
-- missing file or a wrong signature, or another exception of the library.
pub data Integrity : Type 0 where
  intact : String → Integrity
  files_missing tampered unreadable : Integrity

-- How `sign_policy` ends.
pub data Signing : Type 0 where
  signed no_policies : Signing

-- The library: the public key of a private one, signing, and checking by a public key.
pub record Rsa : Type 0 where
  pub public_of : String → String
  pub sign : String → String → String
  pub verify : String → String → String → SignatureCheck

abbrev of_check : (String → String) → String → SignatureCheck → Integrity
of_check sha256 payload valid_signature = intact (sha256 payload)
of_check sha256 payload bad_signature = tampered
of_check sha256 payload unreadable_signature = unreadable

abbrev check_files :
    Rsa → (String → String) → Option String → Option String → Option String → Integrity
check_files rsa sha256 (some payload) (some signature) (some public_key) =
    of_check sha256 payload (rsa.verify public_key signature payload)
check_files rsa sha256 payload signature public_key = files_missing

unfoldable pub verify_policy_integrity : Rsa → (String → String) → Files → Integrity
verify_policy_integrity rsa sha256 files =
    check_files rsa sha256 files.policies_yaml files.policies_sig files.public_pem

-- `generate_keys`, with the private key that the library makes
abbrev pub generate_keys : Rsa → String → Files → Files
generate_keys rsa fresh files = record files {
  private_pem = some fresh;
  public_pem = some (rsa.public_of fresh);
}

abbrev key_files : Rsa → String → Option String → Files → String × Files
key_files rsa fresh none files = (fresh, generate_keys rsa fresh files)
key_files rsa fresh (some private_key) files = (private_key, files)

abbrev write_signature : Rsa → String → Option String → Files → Signing × Files
write_signature rsa private_key none files = (no_policies, files)
write_signature rsa private_key (some payload) files =
    (signed, record files { policies_sig = some (rsa.sign private_key payload) })

unfoldable pub sign_policy : Rsa → String → Files → Signing × Files
sign_policy rsa fresh files =
    let (private_key, keyed) = key_files rsa fresh files.private_pem files in
    write_signature rsa private_key keyed.policies_yaml keyed
