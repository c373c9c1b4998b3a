-- ===== src/Transaction/Fresh.antt =====
-- The rows that a call of `authorize_transfer` under unused identifiers adds to the ledger.
use sentinelai_v.Prelude.{
  String, ◌≡◌, ◌≢◌, refl, ap, true, false, List, [], ◌∷◌, ◌++◌, map, ◌==◌, eq_iff, arith,
}
use mathlib.Core.List.{append_assoc}
use sentinelai_v.Prelude.Result.{ok}
use sentinelai_v.Database.{Db, AuditRow, OutboxEvent, PaymentIntent, PaymentStatus, authorized}
use sentinelai_v.AuditChain.{append_record}
use sentinelai_v.Transaction.{
  Runtime, Uuids, Transfer, created_data, result_data, insert_intent, insert_event, insert_audit,
  update_status, is_null, intent_taken, event_taken, new_intent, with_status,
}
use sentinelai_v.Transaction.Phases.{created, settled}
use sentinelai_v.Transaction.Shape.{started_event, result_event}

event_taken-snoc :
    (id : String) (e : OutboxEvent) (es : List OutboxEvent)
    → event_taken id es ≡ false
    → e.id ≢ id
    → event_taken id (es ++ e ∷ []) ≡ false
unfolding event_taken
event_taken-snoc id e [] untaken differ = ground (arith, eq_iff e.id id)
event_taken-snoc id e (x ∷ es) untaken differ = ground (arith, event_taken-snoc id e es)

-- The update touches the new payment alone.
with_status-new :
    (status : PaymentStatus) (p : PaymentIntent) (ps : List PaymentIntent)
    → intent_taken p ps ≡ false
    → map (with_status p.id status) (ps ++ p ∷ []) ≡ ps ++ record p { status = status } ∷ []
unfolding intent_taken
with_status-new status p [] untaken = rw ((eq_iff p.id p.id).1 refl) refl
with_status-new status p (q ∷ ps) untaken =
    let other : (q.id == p.id) ≡ false = ground arith in
    let below : intent_taken p ps ≡ false = ground arith in
    rw (other, with_status-new status p ps below) refl

module _ (rt : Runtime) (ids : Uuids) (t : Transfer) where
  -- The amount is a number, nothing has the identifiers and the key, and the chain takes both records.
  pub record IsFresh (db : Db) (rows : List AuditRow) : Type 0 where
    pub not_null : is_null t.amount ≡ false
    pub new_payment : intent_taken (new_intent rt ids t) db.payment_intents ≡ false
    pub new_started : event_taken ids.started_event_id db.outbox_events ≡ false
    pub new_result : event_taken ids.result_event_id db.outbox_events ≡ false
    pub two_events : ids.started_event_id ≢ ids.result_event_id
    pub between : List AuditRow
    pub first_record :
        append_record rt.sha256 db.audit_ledger ids.intent_id "INTENT_CREATED"
          (rt.dumps_sorted (created_data t.user_id t.amount t.target))
        ≡ ok between
    pub second_record :
        append_record rt.sha256 between ids.intent_id "AUTH_APPROVED"
          (rt.dumps_sorted (result_data authorized))
        ≡ ok rows

  -- The ledger with the payment, authorized, its two events, and these rows of the audit.
  abbrev pub with_payment : Db → List AuditRow → Db
  with_payment db rows = record db {
    payment_intents =
        db.payment_intents ++ record (new_intent rt ids t) { status = authorized } ∷ [];
    outbox_events = db.outbox_events ++ started_event rt ids t ∷ result_event rt ids true ∷ [];
    audit_ledger = rows;
  }

  abbrev pub half_paid : Db → List AuditRow → Db
  half_paid db rows = record db {
    payment_intents = db.payment_intents ++ new_intent rt ids t ∷ [];
    outbox_events = db.outbox_events ++ started_event rt ids t ∷ [];
    audit_ledger = rows;
  }

  pub fresh-created :
      (db : Db) (rows : List AuditRow) (f : IsFresh db rows)
      → created rt ids t db ≡ ok (tt, half_paid db f.between)
  unfolding insert_intent insert_event insert_audit
  fresh-created db rows f = rw (f.not_null, f.new_payment, f.new_started, f.first_record) refl

  pub fresh-settled :
      (db : Db) (rows : List AuditRow) (f : IsFresh db rows)
      → settled rt ids true (half_paid db f.between) ≡ ok (tt, with_payment db rows)
  unfolding update_status insert_event insert_audit
  fresh-settled db rows f =
      rw
        (
          with_status-new authorized (new_intent rt ids t) db.payment_intents f.new_payment,
          event_taken-snoc ids.result_event_id (started_event rt ids t) db.outbox_events
              f.new_result f.two_events,
          f.second_record,
        )
        (ap (λ es. ok (tt, record (with_payment db rows) { outbox_events = es }))
          (append_assoc db.outbox_events (started_event rt ids t ∷ [])
            (result_event rt ids true ∷ [])))
