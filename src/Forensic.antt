-- ===== src/Forensic.antt =====
-- core/app/stages.py: the buffer of audit hashes, which `ForensicAuditStage` fills and which it and
-- `periodic_flush` empty into tasks that run `flush_batch`. AUDIT_LOCK makes each of the two one step.
pub mod Order
mod Tests
use sentinelai_v.Prelude.{ℕ, String, Bool, Option, List, [], ◌∷◌, ◌++◌, length, leb, if◌then◌else◌}
use sentinelai_v.Prelude.Result.{Result, ok, err, runtime_error}

-- MAX_BUFFER_SIZE
abbrev pub max_buffer_size : ℕ
max_buffer_size = 10000

-- FLUSH_THRESHOLD
abbrev pub flush_threshold : ℕ
flush_threshold = 5

-- AUDIT_BUFFER, and the batches that tasks were created for, in the order of their creation.
pub record Auditor : Type 0 where
  pub buffer : List String
  pub spawned : List (List String)

-- `batch = list(AUDIT_BUFFER); AUDIT_BUFFER.clear(); create_task(flush_batch(batch))`
abbrev pub spawn_flush : Auditor → Auditor
spawn_flush a = record { buffer = []; spawned = a.spawned ++ a.buffer ∷ [] }

abbrev flush_if_long : Auditor → Auditor
flush_if_long a = if leb flush_threshold (length a.buffer) then spawn_flush a else a

-- What `ForensicAuditStage.process` does with the hash of its event.
unfoldable pub audit_event : String → Auditor → Result (Unit {0}) × Auditor
audit_event event_hash a =
    if leb max_buffer_size (length a.buffer)
    then (err runtime_error, a)
    else (ok tt, flush_if_long (record a { buffer = a.buffer ++ event_hash ∷ [] }))

abbrev flush_nonempty : List String → Auditor → Auditor
flush_nonempty [] a = a
flush_nonempty (x ∷ xs) a = spawn_flush a

-- The body of the loop of `periodic_flush`.
unfoldable pub flush_tick : Auditor → Auditor
flush_tick a = flush_nonempty a.buffer a

-- What the requests and the timer do, one after another.
pub data Action : Type 0 where
  event : String → Action
  tick : Action

abbrev act : Action → Auditor → Auditor
act (event h) a = (audit_event h a).1
act tick a = flush_tick a

unfoldable pub run : List Action → Auditor → Auditor
run [] a = a
run (x ∷ xs) a = run xs (act x a)
