-- ===== src/RustCore/Tests.antt =====
-- Tests of the integrity check.
use sentinelai_v.Prelude.{String, ◌≡◌, refl, true, false, [], ◌∷◌}
use sentinelai_v.Prelude.Result.{ok}
use sentinelai_v.RustCore.{Core, lookup, audit_and_verify}
use sentinelai_v.RustCore.Pinning.{Check, after, answer, after_all, accepted_hash_unique}

abbrev start : Core
start = record { fail_safe = false; hashes = [] }

abbrev check : String → String → Check
check tx h = record {
  faults = record { get_fails = false; put_fails = false };
  tx_id = tx;
  current_hash = h;
}

accepts : (c : Check) → c ≡ check "t" "h" → answer start c ≡ ok true
unfolding audit_and_verify lookup
accepts c e = rw e

accepts_again :
    answer (after_all (after start (check "t" "h")) (check "u" "g" ∷ [])) (check "t" "h") ≡ ok true
unfolding audit_and_verify lookup
accepts_again = refl

accepted_hash_unique_example : (check "t" "h").current_hash ≡ "h"
accepted_hash_unique_example =
    accepted_hash_unique start (check "t" "h") (check "t" "h") (check "u" "g" ∷ []) refl
      (accepts (check "t" "h") refl) accepts_again
