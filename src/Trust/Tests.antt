-- ===== src/Trust/Tests.antt =====
-- A toy RSA, in which a signature names the key and the text.
use sentinelai_v.Prelude.{String, ◌≡◌, refl, none, some, ◌==◌, if◌then◌else◌, arith, eq_iff}
use sentinelai_v.Siem.{valid_signature, bad_signature}
use sentinelai_v.Trust.{Files, intact, tampered, signed, Rsa, verify_policy_integrity, sign_policy}
use sentinelai_v.Trust.Signed.{IsPaired, sign_policy-verified}
use Prim.Native.String

abbrev toy : Rsa
toy = record {
  public_of = λ k. k;
  sign = λ k payload. String.◌++◌ k payload;
  verify = λ k signature payload.
      if signature == String.◌++◌ k payload then valid_signature else bad_signature;
}

abbrev digest : String → String
digest s = String.◌++◌ "#" s

abbrev files : Files
files = record {
  policies_yaml = some "deny all";
  policies_sig = none;
  private_pem = none;
  public_pem = none;
}

toy-accepts :
    (k payload : String)
    → toy.verify (toy.public_of k) (toy.sign k payload) payload ≡ valid_signature
toy-accepts k payload = ground (arith, eq_iff (String.◌++◌ k payload) (String.◌++◌ k payload))

unpaired : IsPaired toy digest files
unpaired k e = cc e

-- A change of the policies after signing is found.
change_found :
    verify_policy_integrity toy digest
      (record (sign_policy toy "key" files).1 { policies_yaml = some "allow all" })
    ≡ tampered
unfolding verify_policy_integrity sign_policy
change_found = refl

sign_policy-verified_example :
    let (ended, after) = sign_policy toy "key" files in
    (ended ≡ signed)
    × (verify_policy_integrity toy digest after ≡ intact (digest "deny all"))
    × IsPaired toy digest after
sign_policy-verified_example =
    sign_policy-verified toy digest toy-accepts files "key" "deny all" refl unpaired
