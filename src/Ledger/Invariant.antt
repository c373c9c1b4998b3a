-- ===== src/Ledger/Invariant.antt =====
-- What holds of data/ledger.db however its writers interleave.
use sentinelai_v.Prelude.{
  String, ◌≡◌, refl, subst, ◌∙◌, Bool-cases, inl, inr, List, map, ◌==◌, All-map, Member-map,
  DistinctBy-map,
}
use sentinelai_v.Prelude.Result.{Result, ok}
use sentinelai_v.Database.{Db, OutboxEvent, init_db}
use sentinelai_v.Database.Seed.{init_db-cases}
use sentinelai_v.Connection.{Conn}
use sentinelai_v.Connection.Effects.{Update, End}
use sentinelai_v.Transaction.{Runtime, create, record_result}
use sentinelai_v.Transaction.Phases.{created, settled, create-Commits, record_result-Commits}
use sentinelai_v.Transaction.Shape.{created-Shape, settled-Shape}
use sentinelai_v.Transaction.Consistent.{
  HasEvent, IsAnnounced, IsApproved, IsConsistent, created-IsConsistent, settled-IsConsistent,
  empty-IsConsistent,
}
use sentinelai_v.Relay.{mark, mark_published}
use sentinelai_v.Ledger.{
  IsBegun, Step, payment_starts, bank_answers, relay_marks, gateway_starts, Reach, start, later,
}

-- A mark changes the status of an event alone.
mark-fields :
    (id : String) (e : OutboxEvent)
    → ((mark id e).id ≡ e.id)
      × ((mark id e).aggregate_id ≡ e.aggregate_id)
      × ((mark id e).event_type ≡ e.event_type)
mark-fields id e = elim (Bool-cases (e.id == id)) [
  | inl own ↦ rw own (refl, refl, refl)
  | inr other ↦ rw other (refl, refl, refl)
]

mark-HasEvent :
    (mark_id event_type id : String) (events : List OutboxEvent)
    → HasEvent event_type id events
    → HasEvent event_type id (map (mark mark_id) events)
mark-HasEvent mark_id event_type id events (e, m, aggregate, kind) =
    let (same_id, same_aggregate, same_type) = mark-fields mark_id e in
    (
      mark mark_id e,
      Member-map (mark mark_id) e events m,
      same_aggregate ∙ aggregate,
      same_type ∙ kind,
    )

module _ (rt : Runtime) where
  mark_published-IsConsistent :
      (id : String) (db : Db) → IsConsistent rt db → IsConsistent rt (mark_published id db)
  unfolding mark_published
  mark_published-IsConsistent id db c = record {
    unique_ids = c.unique_ids;
    unique_keys = c.unique_keys;
    unique_events =
        DistinctBy-map (λ e. e.id) (mark id) db.outbox_events (λ e. (mark-fields id e).0)
          c.unique_events;
    announced =
        All-map (IsAnnounced db.outbox_events) (IsAnnounced (map (mark id) db.outbox_events))
          db.payment_intents (λ p. mark-HasEvent id "AUTH_STARTED" p.id db.outbox_events)
          c.announced;
    approved =
        All-map (IsApproved db.outbox_events) (IsApproved (map (mark id) db.outbox_events))
          db.payment_intents
          (λ p h is_paid. mark-HasEvent id "AUTH_APPROVED" p.id db.outbox_events (h is_paid))
          c.approved;
    audited = c.audited;
  }

  init_db-IsConsistent : (db : Db) → IsConsistent rt db → IsConsistent rt (init_db db)
  init_db-IsConsistent db c = elim (init_db-cases db) [
    | inl same ↦ rw same c
    | inr seeded ↦ rw seeded (record {
      unique_ids = c.unique_ids;
      unique_keys = c.unique_keys;
      unique_events = c.unique_events;
      announced = c.announced;
      approved = c.approved;
      audited = c.audited;
    })
  ]

  -- A transaction that committed did the update that it stands for.
  committed_update :
      (f : Update (Unit {0})) (db : Db) (c d : Conn) (out : Result (Unit {0}) × Conn)
      → IsBegun db c
      → out ≡ (ok tt, d)
      → End f c out
      → f db ≡ ok (tt, d.committed)
  committed_update f db c d out begun done h =
      let ended : End f c (ok tt, d) = subst (End f c) done h in
      subst (λ x. f x ≡ ok (tt, d.committed)) begun.working ended.0

  Step-IsConsistent : (db next : Db) → Step rt db next → IsConsistent rt db → IsConsistent rt next
  Step-IsConsistent db next (payment_starts ids t c d begun done) h =
      created-IsConsistent rt ids t db d.committed h (
        created-Shape rt ids t db d.committed (
          committed_update (created rt ids t) db c d (create rt ids t c) begun done
            ((create-Commits rt ids t).at c begun.open_tx)))
  Step-IsConsistent db next (bank_answers ids approved c d begun done) h =
      settled-IsConsistent rt ids approved db d.committed h (
        settled-Shape rt ids approved db d.committed (
          committed_update (settled rt ids approved) db c d (record_result rt ids approved c) begun
            done ((record_result-Commits rt ids approved).at c begun.open_tx)))
  Step-IsConsistent db next (relay_marks id) h = mark_published-IsConsistent id db h
  Step-IsConsistent db next gateway_starts h = init_db-IsConsistent db h

  -- From an empty database, however the transactions of payment calls, the relay's marks and restarts
  -- of the gateway interleave, and whatever the bank answers: the ledger is consistent. No idempotency
  -- key, payment identifier or event identifier stands twice, every payment has its AUTH_STARTED event
  -- and every authorized one its AUTH_APPROVED event, and the audit chain verifies.
  pub Reach-IsConsistent : (db : Db) → Reach rt db → IsConsistent rt db
  Reach-IsConsistent db start = empty-IsConsistent rt
  Reach-IsConsistent db (later reached step) =
      Step-IsConsistent _ db step (Reach-IsConsistent _ reached)
