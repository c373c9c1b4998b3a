-- ===== src/RustCore.antt =====
-- core/sentinel-core/src/lib.rs: `SentinelCore`, which the gateway calls on every transfer. The
-- flag FAIL_SAFE is of the process, and the hashes are those in RocksDB.
pub mod Pinning
mod Tests
use sentinelai_v.Prelude.{
  String, Bool, true, false, Option, none, some, List, [], ◌∷◌, ◌==◌, if◌then◌else◌,
}
use sentinelai_v.Prelude.Result.{Result, ok, err, runtime_error}

pub record Core : Type 0 where
  pub fail_safe : Bool
  pub hashes : List (String × String)

-- `db.get`
unfoldable pub lookup : String → List (String × String) → Option String
lookup key [] = none
lookup key ((k, v) ∷ rest) = if k == key then some v else lookup key rest

-- `db.put` of a key that is not there
abbrev pub put : String → String → Core → Core
put key value core = record core { hashes = (key, value) ∷ core.hashes }

abbrev pub is_frozen : Core → Bool
is_frozen core = core.fail_safe

abbrev pub trigger_local_freeze : Core → Core
trigger_local_freeze core = record core { fail_safe = true }

-- Which of the two calls of RocksDB fail.
pub record DiskFaults : Type 0 where
  pub get_fails : Bool
  pub put_fails : Bool

abbrev pub compare_hash : DiskFaults → String → String → Core → Option String → Result Bool × Core
compare_hash f tx_id current_hash core none =
    if f.put_fails then (err runtime_error, core) else (ok true, put tx_id current_hash core)
compare_hash f tx_id current_hash core (some stored_hash) =
    if stored_hash == current_hash then (ok true, core) else (ok false, trigger_local_freeze core)

unfoldable pub audit_and_verify : DiskFaults → String → String → Core → Result Bool × Core
audit_and_verify f tx_id current_hash core =
    if is_frozen core
    then (ok false, core)
    else if f.get_fails
    then (err runtime_error, core)
    else compare_hash f tx_id current_hash core (lookup tx_id core.hashes)
