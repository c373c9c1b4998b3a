-- ===== src/Ledger/Tests.antt =====
-- Two calls whose transactions interleave, with a mark between them. JSON is a tag, and the digest is the
-- identity.
use sentinelai_v.Prelude.{String, refl, true, []}
use sentinelai_v.Float.{of_ℕ}
use sentinelai_v.Database.{Db, empty_db, init_db}
use sentinelai_v.AuditChain.{append_record, last_hash, next_seq_id, hash_taken}
use sentinelai_v.Connection.{Conn, read, write, commit}
use sentinelai_v.Transaction.{
  Runtime, Payload, transfer_data, bank_data, created_data, result_data, Uuids, Transfer,
  insert_intent, insert_event, insert_audit, update_status, intent_taken, event_taken, create,
  record_result, append_outbox, append_audit,
}
use sentinelai_v.Transaction.Consistent.{IsConsistent}
use sentinelai_v.Relay.{mark_published}
use sentinelai_v.Ledger.{
  IsBegun, Step, payment_starts, bank_answers, relay_marks, gateway_starts, Reach, start, later,
}
use sentinelai_v.Ledger.Invariant.{Reach-IsConsistent}

abbrev tag : Payload → String
tag (transfer_data amount target) = "transfer"
tag bank_data = "bank"
tag (created_data user amount target) = "created"
tag (result_data status) = "result"

abbrev rt : Runtime
rt = record { sha256 = λ s. s; dumps = tag; dumps_sorted = tag }

abbrev ids : Uuids
ids = record { intent_id = "p1"; started_event_id = "e1"; result_event_id = "e2" }

abbrev other_ids : Uuids
other_ids = record { intent_id = "p2"; started_event_id = "e3"; result_event_id = "e4" }

abbrev transfer : Transfer
transfer = record { idempotency_key = "k1"; user_id = "ADMIN"; amount = of_ℕ 5; target = "ES12" }

abbrev other_transfer : Transfer
other_transfer = record transfer { idempotency_key = "k2" }

abbrev begun : Db → Conn
begun db = record { committed = db; working = db; in_transaction = true; faults = [] }

begun-IsBegun : (db : Db) → IsBegun db (begun db)
begun-IsBegun db = record { committed = refl; working = refl; open_tx = refl }

abbrev db1 : Db
db1 = init_db empty_db

abbrev db2 : Db
db2 = (create rt ids transfer (begun db1)).1.committed

abbrev db3 : Db
db3 = (create rt other_ids other_transfer (begun db2)).1.committed

abbrev db4 : Db
db4 = mark_published "e1" db3

abbrev db5 : Db
db5 = (record_result rt ids true (begun db4)).1.committed

first_starts : Step rt db1 db2
unfolding create init_db insert_intent insert_event insert_audit intent_taken event_taken
    append_outbox append_audit append_record last_hash next_seq_id hash_taken read write commit
first_starts =
    payment_starts ids transfer (begun db1) (create rt ids transfer (begun db1)).1
      (begun-IsBegun db1) refl

second_starts : Step rt db2 db3
unfolding create init_db insert_intent insert_event insert_audit intent_taken event_taken
    append_outbox append_audit append_record last_hash next_seq_id hash_taken read write commit
second_starts =
    payment_starts other_ids other_transfer (begun db2)
      (create rt other_ids other_transfer (begun db2)).1 (begun-IsBegun db2) refl

first_settles : Step rt db4 db5
unfolding create record_result init_db insert_intent insert_event insert_audit intent_taken
    event_taken append_outbox append_audit append_record last_hash next_seq_id hash_taken read write
    commit update_status mark_published
first_settles =
    bank_answers ids true (begun db4) (record_result rt ids true (begun db4)).1 (begun-IsBegun db4)
      refl

interleaved : Reach rt db5
interleaved =
    later
      (later (later (later (later start gateway_starts) first_starts) second_starts)
        (relay_marks "e1"))
      first_settles

Reach-IsConsistent_example : IsConsistent rt db5
Reach-IsConsistent_example = Reach-IsConsistent rt db5 interleaved
