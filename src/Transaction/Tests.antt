-- ===== src/Transaction/Tests.antt =====
-- Calls of `authorize_transfer` on a small ledger. The digest is the identity and JSON is a tag.
use sentinelai_v.Prelude.{String, ◌≡◌, refl, true, false, some, [], ◌∷◌, ◌⊎◌}
use sentinelai_v.Prelude.Result.{Result, ok, err, Exception, operational_error}
use sentinelai_v.Float.{of_ℕ}
use sentinelai_v.Database.{Db, authorizing, empty_db}
use sentinelai_v.AuditChain.{append_record, last_hash, next_seq_id, hash_taken}
use sentinelai_v.Connection.{Conn, begin, read, write, commit, rollback}
use sentinelai_v.Transaction.{
  Runtime, Payload, transfer_data, bank_data, created_data, result_data, Uuids, Transfer,
  insert_intent, insert_event, insert_audit, update_status, intent_taken, event_taken, find_intent,
  new_intent, create, record_result, recover, settle, append_outbox, append_audit,
  authorize_transfer,
}
use sentinelai_v.Transaction.Phases.{created, settled}
use sentinelai_v.Transaction.Outcome.{Outcome, authorize_transfer-Outcome}
use sentinelai_v.Transaction.Success.{idle}
use sentinelai_v.Transaction.Replay.{unsettled_stays}

abbrev tag : Payload → String
tag (transfer_data amount target) = "transfer"
tag bank_data = "bank"
tag (created_data user amount target) = "created"
tag (result_data status) = "result"

abbrev rt : Runtime
rt = record { sha256 = λ s. s; dumps = tag; dumps_sorted = tag }

abbrev ids : Uuids
ids = record { intent_id = "p1"; started_event_id = "e1"; result_event_id = "e2" }

abbrev ids' : Uuids
ids' = record { intent_id = "p2"; started_event_id = "e3"; result_event_id = "e4" }

abbrev transfer : Transfer
transfer = record { idempotency_key = "k1"; user_id = "ADMIN"; amount = of_ℕ 5; target = "ES12" }

-- The ledger after the first transaction.
abbrev half_way : Result (Unit {0} × Db)
half_way = created rt ids transfer empty_db

abbrev db_of : Result (Unit {0} × Db) → Db
db_of (ok (u, db)) = db
db_of (err e) = empty_db

abbrev mid : Db
mid = db_of half_way

abbrev fin : Db
fin = db_of (settled rt ids true mid)

mid-created : created rt ids transfer empty_db ≡ ok (tt, mid)
unfolding insert_intent insert_event insert_audit append_record intent_taken event_taken last_hash
    next_seq_id hash_taken
mid-created = refl

fin-settled : settled rt ids true mid ≡ ok (tt, fin)
unfolding insert_intent update_status insert_event insert_audit append_record intent_taken
    event_taken last_hash next_seq_id hash_taken
fin-settled = refl

-- The tenth statement, the UPDATE of the second transaction, fails.
abbrev late_fault : Conn
late_fault = record (idle empty_db) {
  faults = false ∷ false ∷ false ∷ false ∷ false ∷ false ∷ false ∷ true ∷ [];
}

late_fault_raises : (authorize_transfer rt ids transfer late_fault).0 ≡ err operational_error
unfolding authorize_transfer create settle record_result recover append_outbox append_audit begin
    read write commit rollback insert_intent update_status insert_event insert_audit append_record
    intent_taken event_taken last_hash next_seq_id hash_taken
late_fault_raises = refl

authorize_transfer-Outcome_example :
    Outcome rt ids transfer empty_db
      (authorize_transfer rt ids transfer late_fault).0
      (authorize_transfer rt ids transfer late_fault).1.committed
authorize_transfer-Outcome_example = authorize_transfer-Outcome rt ids transfer late_fault refl

mid-found : find_intent "k1" mid ≡ some (new_intent rt ids transfer)
unfolding find_intent insert_intent insert_event insert_audit append_record intent_taken event_taken
    last_hash next_seq_id hash_taken
mid-found = refl

unsettled_stays_example :
    let (r, d) = authorize_transfer rt ids' transfer (idle mid) in
    (d.committed ≡ mid)
    × ((r ≡ ok (record { id = "p1"; status = authorizing })) ⊎ ((e : Exception) × (r ≡ err e)))
unsettled_stays_example =
    unsettled_stays rt ids transfer ids' transfer empty_db (idle mid) mid-created refl refl
