-- ===== src/Relay.antt =====
-- core/relay.py: `outbox_relay_worker`. Its loop is a step relation: the worker polls, and between
-- two polls other connections commit payments, which SQLite lets them do only while the worker has
-- no transaction open.
pub mod Delivery
pub mod Lock
pub mod Progress
mod Tests
use sentinelai_v.Prelude.{
  ℕ, zero, suc, String, ◌≡◌, Bool, true, false, List, [], ◌∷◌, ◌++◌, map, ◌==◌, if◌then◌else◌, All,
}
use sentinelai_v.Prelude.Result.{Result, ok, err}
use sentinelai_v.Database.{Db, OutboxEvent, EventStatus, pending, published}
use sentinelai_v.Connection.{Conn, write, read, commit}

-- The worker's connection, and the events that it has published, each as it was read.
pub record Relay : Type 0 where
  pub conn : Conn
  pub sent : List OutboxEvent

abbrev pub is_pending : EventStatus → Bool
is_pending pending = true
is_pending published = false

-- The pending rows, at most so many.
unfoldable pub take_pending : ℕ → List OutboxEvent → List OutboxEvent
take_pending zero rows = []
take_pending (suc n) [] = []
take_pending (suc n) (e ∷ rows) =
    if is_pending e.status then e ∷ take_pending n rows else take_pending (suc n) rows

-- `LIMIT 10`
abbrev pub batch : Db → List OutboxEvent
batch db = take_pending 10 db.outbox_events

abbrev pub mark : String → OutboxEvent → OutboxEvent
mark id e = if e.id == id then record e { status = published } else e

-- UPDATE outbox_events SET status = 'PUBLISHED' WHERE id = ?
unfoldable pub mark_published : String → Db → Db
mark_published id db = record db { outbox_events = map (mark id) db.outbox_events }

-- One pass of the inner loop: the event is published, then marked.
unfoldable pub publish_event : OutboxEvent → Relay → Result (Unit {0}) × Relay
publish_event e r =
    let (result, c) = write (λ db. ok (tt, mark_published e.id db)) r.conn in
    (result, record { conn = c; sent = r.sent ++ e ∷ [] })

unfoldable pub publish_events : List OutboxEvent → Relay → Result (Unit {0}) × Relay
publish_events [] r = (ok tt, r)
publish_events (e ∷ es) r =
    let (result, s) = publish_event e r in
    elim result [ ok u ↦ publish_events es s | err x ↦ (err x, s) ]

-- `if events: await db.commit()`
unfoldable pub commit_if : List OutboxEvent → Relay → Relay
commit_if [] r = r
commit_if (e ∷ es) r = record r { conn = (commit r.conn).1 }

-- An exception is printed, and ends the pass: nothing is rolled back.
abbrev pub finish_poll : List OutboxEvent → Result (Unit {0}) × Relay → Relay
finish_poll events (ok u, r) = commit_if events r
finish_poll events (err x, r) = r

abbrev pub after_read : Relay → Result (List OutboxEvent) × Conn → Relay
after_read r (ok events, c) =
    let s : Relay = record r { conn = c } in finish_poll events (publish_events events s)
after_read r (err x, c) = record r { conn = c }

-- The body of `while True`.
unfoldable pub poll : Relay → Relay
poll r = after_read r (read batch r.conn)

-- What a payment that commits does to the outbox: it adds pending rows.
pub record IsExtended (old new : List OutboxEvent) : Type 0 where
  pub added : List OutboxEvent
  pub appended : new ≡ old ++ added
  pub unsent : All (λ e. e.status ≡ pending) added

pub data Step (r : Relay) : Relay → Type 0 where
  polls : Step r (poll r)
  pays_elsewhere :
      (db : Db)
      → r.conn.in_transaction ≡ false
      → IsExtended r.conn.committed.outbox_events db.outbox_events
      → Step r (record r { conn = record r.conn { committed = db; working = db } })

pub data Reach (r : Relay) : Relay → Type 0 where
  start : Reach r r
  after : {s t : Relay} → Reach r s → Step s t → Reach r t
