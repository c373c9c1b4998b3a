-- ===== src/Transaction.antt =====
-- core/transaction.py: `TransactionManager`.
pub mod Phases
pub mod Outcome
pub mod Recovery
pub mod Success
pub mod Fresh
pub mod Shape
pub mod Replay
pub mod Consistent
pub mod Keys
pub mod Growth
mod Tests
use sentinelai_v.Prelude.{
  String, Bool, true, false, ◌||◌, Option, none, some, List, [], ◌∷◌, ◌++◌, map, ◌==◌,
  if◌then◌else◌, find?,
}
use sentinelai_v.Prelude.Result.{Result, ok, err, Exception, integrity_error}
use sentinelai_v.Prelude.Result
use sentinelai_v.Float.{Float, nan}
use sentinelai_v.Database.{
  Db, PaymentIntent, PaymentStatus, authorizing, authorized, failed, OutboxEvent, EventStatus,
  pending, AuditRow,
}
use sentinelai_v.AuditChain.{append_record, last_hash}
use sentinelai_v.Connection.{
  Exec, pure, raise, ◌>>=◌, ◌>>◌, try_except, begin, write, read, commit, rollback,
}

-- The dictionaries that are stored as JSON.
pub data Payload : Type 0 where
  transfer_data : Float → String → Payload
  bank_data : Payload
  created_data : String → Float → String → Payload
  result_data : PaymentStatus → Payload

-- hashlib and json, which the program imports.
pub record Runtime : Type 0 where
  pub sha256 : String → String
  pub dumps : Payload → String
  pub dumps_sorted : Payload → String

-- The identifiers that `uuid4` yields during one call.
pub record Uuids : Type 0 where
  pub intent_id : String
  pub started_event_id : String
  pub result_event_id : String

-- The arguments of `authorize_transfer`.
pub record Transfer : Type 0 where
  pub idempotency_key : String
  pub user_id : String
  pub amount : Float
  pub target : String

-- The dictionary that `authorize_transfer` returns.
pub record Reply : Type 0 where
  pub id : String
  pub status : PaymentStatus

-- id is the primary key and idempotency_key is UNIQUE.
unfoldable pub intent_taken : PaymentIntent → List PaymentIntent → Bool
intent_taken p [] = false
intent_taken p (q ∷ qs) =
    (q.id == p.id || q.idempotency_key == p.idempotency_key) || intent_taken p qs

unfoldable pub event_taken : String → List OutboxEvent → Bool
event_taken id [] = false
event_taken id (e ∷ es) = e.id == id || event_taken id es

-- SQLite stores a NaN as NULL, and the amount is NOT NULL.
abbrev pub is_null : Float → Bool
is_null nan = true
is_null a = false

unfoldable pub insert_intent : PaymentIntent → Db → Result (Unit {0} × Db)
insert_intent p db =
    if is_null p.amount || intent_taken p db.payment_intents
    then err integrity_error
    else ok (tt, record db { payment_intents = db.payment_intents ++ p ∷ [] })

unfoldable pub insert_event : OutboxEvent → Db → Result (Unit {0} × Db)
insert_event e db =
    if event_taken e.id db.outbox_events
    then err integrity_error
    else ok (tt, record db { outbox_events = db.outbox_events ++ e ∷ [] })

abbrev pub with_status : String → PaymentStatus → PaymentIntent → PaymentIntent
with_status id status p = if p.id == id then record p { status = status } else p

-- UPDATE payment_intents SET status = ? WHERE id = ?
unfoldable pub update_status : String → PaymentStatus → Db → Result (Unit {0} × Db)
update_status id status db =
    ok (tt, record db { payment_intents = map (with_status id status) db.payment_intents })

unfoldable pub find_intent : String → Db → Option PaymentIntent
find_intent key db = find? (λ p. p.idempotency_key == key) db.payment_intents

abbrev pub bank_approved : Bool
bank_approved = true

abbrev pub new_status : Bool → PaymentStatus
new_status approved = if approved then authorized else failed

abbrev pub event_type : Bool → String
event_type approved = if approved then "AUTH_APPROVED" else "AUTH_FAILED"

abbrev pub existing_or_raise : Exception → Option PaymentIntent → Exec (Option Reply)
existing_or_raise e none = raise e
existing_or_raise e (some p) = pure (some (record { id = p.id; status = p.status }))

-- The first `except`.
unfoldable pub recover : String → Exception → Exec (Option Reply)
recover key e = do rollback; found ← read (find_intent key); existing_or_raise e found

module _ (rt : Runtime) where
  abbrev pub new_event : String → String → String → Payload → OutboxEvent
  new_event id aggregate_id event_type payload = record {
    id = id;
    aggregate_id = aggregate_id;
    event_type = event_type;
    payload = rt.dumps payload;
    status = pending;
  }

  -- `_append_outbox`
  unfoldable pub append_outbox : String → String → String → Payload → Exec (Unit {0})
  append_outbox id aggregate_id event_type payload =
      write (insert_event (new_event id aggregate_id event_type payload))

  abbrev pub with_audit : Db → Result (List AuditRow) → Result (Unit {0} × Db)
  with_audit db (ok rows) = ok (tt, record db { audit_ledger = rows })
  with_audit db (err e) = err e

  unfoldable pub insert_audit : String → String → Payload → Db → Result (Unit {0} × Db)
  insert_audit tx_id action payload db =
      with_audit db (append_record rt.sha256 db.audit_ledger tx_id action (rt.dumps_sorted payload))

  -- `CryptographicAuditChain(self.db).append_record`: a SELECT and an INSERT
  unfoldable pub append_audit : String → String → Payload → Exec (Unit {0})
  append_audit tx_id action payload = do
    head ← read (λ db. last_hash db.audit_ledger)
    write (insert_audit tx_id action payload)

  abbrev pub new_intent : Uuids → Transfer → PaymentIntent
  new_intent ids t = record {
    id = ids.intent_id;
    idempotency_key = t.idempotency_key;
    user_id = t.user_id;
    amount = t.amount;
    target = t.target;
    status = authorizing;
  }

  -- The body of the first `try`.
  unfoldable pub create : Uuids → Transfer → Exec (Unit {0})
  create ids t = do
    write (insert_intent (new_intent ids t))
    append_outbox ids.started_event_id ids.intent_id "AUTH_STARTED"
        (transfer_data t.amount t.target)
    append_audit ids.intent_id "INTENT_CREATED" (created_data t.user_id t.amount t.target)
    commit

  -- The body of the second `try`.
  unfoldable pub record_result : Uuids → Bool → Exec (Unit {0})
  record_result ids approved = do
    write (update_status ids.intent_id (new_status approved))
    append_outbox ids.result_event_id ids.intent_id (event_type approved) bank_data
    append_audit ids.intent_id (event_type approved) (result_data (new_status approved))
    commit

  -- The second transaction, after the bank has answered.
  unfoldable pub settle : Uuids → Bool → Exec Reply
  settle ids approved = do
    begin
    try_except (record_result ids approved) (λ e. do rollback; raise e)
    pure (record { id = ids.intent_id; status = new_status approved })

  abbrev pub reply_or_settle : Uuids → Option Reply → Exec Reply
  reply_or_settle ids none = settle ids bank_approved
  reply_or_settle ids (some reply) = pure reply

  unfoldable pub authorize_transfer : Uuids → Transfer → Exec Reply
  authorize_transfer ids t = do
    begin
    existing ← try_except (do create ids t; pure none) (recover t.idempotency_key)
    reply_or_settle ids existing
