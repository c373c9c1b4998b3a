-- ===== src/Transaction/Shape.antt =====
-- The tables after each of the two transactions.
use sentinelai_v.Prelude.{◌≡◌, Bool, false, [], ◌∷◌, ◌++◌, map, arith}
use sentinelai_v.Prelude.Result.{ok}
use sentinelai_v.Database.{Db, OutboxEvent}
use sentinelai_v.AuditChain.{append_record}
use sentinelai_v.Transaction.{
  Runtime, Uuids, Transfer, transfer_data, bank_data, created_data, result_data, insert_intent,
  insert_event, insert_audit, update_status, intent_taken, event_taken, new_intent, new_event,
  new_status, event_type, with_status,
}
use sentinelai_v.Transaction.Phases.{created, settled}

module _ (rt : Runtime) (ids : Uuids) where
  abbrev pub started_event : Transfer → OutboxEvent
  started_event t =
      new_event rt ids.started_event_id ids.intent_id "AUTH_STARTED"
        (transfer_data t.amount t.target)

  abbrev pub result_event : Bool → OutboxEvent
  result_event approved =
      new_event rt ids.result_event_id ids.intent_id (event_type approved) bank_data

  pub record CreatedShape (t : Transfer) (db after : Db) : Type 0 where
    pub new_payment : intent_taken (new_intent rt ids t) db.payment_intents ≡ false
    pub new_event_id : event_taken ids.started_event_id db.outbox_events ≡ false
    pub payments : after.payment_intents ≡ db.payment_intents ++ new_intent rt ids t ∷ []
    pub events : after.outbox_events ≡ db.outbox_events ++ started_event t ∷ []
    pub beneficiaries : after.approved_beneficiaries ≡ db.approved_beneficiaries
    pub audit :
        append_record rt.sha256 db.audit_ledger ids.intent_id "INTENT_CREATED"
          (rt.dumps_sorted (created_data t.user_id t.amount t.target))
        ≡ ok after.audit_ledger

  pub record SettledShape (approved : Bool) (db after : Db) : Type 0 where
    pub new_event_id : event_taken ids.result_event_id db.outbox_events ≡ false
    pub payments :
        after.payment_intents
        ≡ map (with_status ids.intent_id (new_status approved)) db.payment_intents
    pub events : after.outbox_events ≡ db.outbox_events ++ result_event approved ∷ []
    pub beneficiaries : after.approved_beneficiaries ≡ db.approved_beneficiaries
    pub audit :
        append_record rt.sha256 db.audit_ledger ids.intent_id
          (event_type approved)
          (rt.dumps_sorted (result_data (new_status approved)))
        ≡ ok after.audit_ledger

  pub created-Shape :
      (t : Transfer) (db after : Db)
      → created rt ids t db ≡ ok (tt, after)
      → CreatedShape t db after
  unfolding insert_intent insert_event insert_audit
  created-Shape t db after h = record {
    new_payment = ground arith;
    new_event_id = ground arith;
    payments = ground arith;
    events = ground arith;
    beneficiaries = ground arith;
    audit = ground arith;
  }

  pub settled-Shape :
      (approved : Bool) (db after : Db)
      → settled rt ids approved db ≡ ok (tt, after)
      → SettledShape approved db after
  unfolding update_status insert_event insert_audit
  settled-Shape approved db after h = record {
    new_event_id = ground arith;
    payments = ground arith;
    events = ground arith;
    beneficiaries = ground arith;
    audit = ground arith;
  }
