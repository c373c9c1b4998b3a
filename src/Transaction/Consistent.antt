-- ===== src/Transaction/Consistent.antt =====
-- The invariant that ties the tables of the ledger together, kept by every call.
use sentinelai_v.Prelude.{
  String, ◌≡◌, refl, sym, Bool, true, false, List, [], ◌∷◌, ◌++◌, ◌==◌, eq_iff, Bool-cases, inl,
  inr, All, Member, DistinctBy, All-append, All-map, All-map_list, Member-append, Member-snoc,
  DistinctBy-snoc, DistinctBy-map,
}
use sentinelai_v.Database.{Db, PaymentIntent, OutboxEvent, authorized, empty_db}
use sentinelai_v.AuditChain.{verify_from}
use sentinelai_v.AuditChain.Intact.{IsVerified, append_record-IsVerified}
use sentinelai_v.Connection.{Conn}
use sentinelai_v.Transaction.{
  Runtime, Uuids, Transfer, new_intent, new_status, with_status, authorize_transfer,
}
use sentinelai_v.Transaction.Shape.{
  CreatedShape, SettledShape, created-Shape, settled-Shape, started_event, result_event,
}
use sentinelai_v.Transaction.Outcome.{
  paid, replayed, refused, unsettled, authorize_transfer-Outcome,
}
use sentinelai_v.Transaction.Keys.{
  untaken_ids, untaken_keys, untaken_events, with_status-id, with_status-key,
}

-- The outbox holds an event of this type for this payment.
abbrev pub HasEvent : String → String → List OutboxEvent → Type 0
HasEvent event_type id events =
    (e : OutboxEvent) × Member e events × (e.aggregate_id ≡ id) × (e.event_type ≡ event_type)

HasEvent-append :
    (event_type id : String) (xs ys : List OutboxEvent)
    → HasEvent event_type id xs
    → HasEvent event_type id (xs ++ ys)
HasEvent-append event_type id xs ys (e, m, a, k) = (e, Member-append e xs ys m, a, k)

abbrev pub IsAnnounced : List OutboxEvent → PaymentIntent → Type 0
IsAnnounced events p = HasEvent "AUTH_STARTED" p.id events

abbrev pub IsApproved : List OutboxEvent → PaymentIntent → Type 0
IsApproved events p = p.status ≡ authorized → HasEvent "AUTH_APPROVED" p.id events

pub record IsConsistent (rt : Runtime) (db : Db) : Type 0 where
  pub unique_ids : DistinctBy (λ p. p.id) db.payment_intents
  pub unique_keys : DistinctBy (λ p. p.idempotency_key) db.payment_intents
  pub unique_events : DistinctBy (λ e. e.id) db.outbox_events
  pub announced : All (IsAnnounced db.outbox_events) db.payment_intents
  pub approved : All (IsApproved db.outbox_events) db.payment_intents
  pub audited : IsVerified rt.sha256 db.audit_ledger

module _ (rt : Runtime) (ids : Uuids) where
  pub created-IsConsistent :
      (t : Transfer) (db after : Db)
      → IsConsistent rt db
      → CreatedShape rt ids t db after
      → IsConsistent rt after
  created-IsConsistent t db after c s = record {
    unique_ids = rw s.payments (
        DistinctBy-snoc _ db.payment_intents new c.unique_ids
          (untaken_ids new db.payment_intents s.new_payment));
    unique_keys = rw s.payments (
        DistinctBy-snoc _ db.payment_intents new c.unique_keys
          (untaken_keys new db.payment_intents s.new_payment));
    unique_events = rw s.events (
        DistinctBy-snoc _ db.outbox_events event c.unique_events
          (untaken_events ids.started_event_id db.outbox_events s.new_event_id));
    announced =
        rw (s.payments, s.events)
          (All-append _ db.payment_intents (new ∷ [])
            (All-map (IsAnnounced db.outbox_events) (IsAnnounced events) db.payment_intents
              (λ p. HasEvent-append "AUTH_STARTED" p.id db.outbox_events (event ∷ [])) c.announced)
            ((event, Member-snoc event db.outbox_events, refl, refl), tt));
    approved =
        rw (s.payments, s.events)
          (All-append _ db.payment_intents (new ∷ [])
            (All-map (IsApproved db.outbox_events) (IsApproved events) db.payment_intents
              (λ p h is_paid.
                HasEvent-append "AUTH_APPROVED" p.id db.outbox_events (event ∷ []) (h is_paid))
              c.approved)
            ((λ e. cc), tt));
    audited =
        append_record-IsVerified rt.sha256 db.audit_ledger after.audit_ledger _ _ _ c.audited
          s.audit;
  }
    where
      new : PaymentIntent
      new = new_intent rt ids t

      event : OutboxEvent
      event = started_event rt ids t

      events : List OutboxEvent
      events = db.outbox_events ++ event ∷ []

  -- The new status of a payment, with the event that goes with it.
  status-IsApproved :
      (approved : Bool) (events : List OutboxEvent) (p : PaymentIntent)
      → IsApproved events p
      → IsApproved
          (events ++ result_event rt ids approved ∷ [])
          (with_status ids.intent_id (new_status approved) p)
  status-IsApproved approved events p h = elim (Bool-cases (p.id == ids.intent_id)) [
    | inr other ↦ rw other (λ is_paid. HasEvent-append "AUTH_APPROVED" p.id events _ (h is_paid))
    | inl own ↦ rw own (own_event approved (sym ((eq_iff p.id ids.intent_id).0 own)))
  ]
    where
      own_event :
          (b : Bool)
          → ids.intent_id ≡ p.id
          → new_status b ≡ authorized
          → HasEvent "AUTH_APPROVED" p.id (events ++ result_event rt ids b ∷ [])
      own_event true same is_paid = (result_event rt ids true, Member-snoc _ events, same, refl)
      own_event false same is_paid = cc

  pub settled-IsConsistent :
      (approved : Bool) (db after : Db)
      → IsConsistent rt db
      → SettledShape rt ids approved db after
      → IsConsistent rt after
  settled-IsConsistent approved db after c s = record {
    unique_ids = rw s.payments (
        DistinctBy-map _ change db.payment_intents
          (λ p. with_status-id ids.intent_id (new_status approved) p) c.unique_ids);
    unique_keys = rw s.payments (
        DistinctBy-map _ change db.payment_intents
          (λ p. with_status-key ids.intent_id (new_status approved) p) c.unique_keys);
    unique_events = rw s.events (
        DistinctBy-snoc _ db.outbox_events event c.unique_events
          (untaken_events ids.result_event_id db.outbox_events s.new_event_id));
    announced =
        rw (s.payments, s.events)
          (All-map_list (IsAnnounced events) change db.payment_intents (
            All-map (IsAnnounced db.outbox_events) (λ p. IsAnnounced events (change p))
              db.payment_intents
              (λ p h.
                rw (with_status-id ids.intent_id (new_status approved) p)
                  (HasEvent-append "AUTH_STARTED" p.id db.outbox_events (event ∷ []) h))
              c.announced));
    approved =
        rw (s.payments, s.events)
          (All-map_list (IsApproved events) change db.payment_intents (
            All-map (IsApproved db.outbox_events) (λ p. IsApproved events (change p))
              db.payment_intents (λ p h. status-IsApproved approved db.outbox_events p h)
              c.approved));
    audited =
        append_record-IsVerified rt.sha256 db.audit_ledger after.audit_ledger _ _ _ c.audited
          s.audit;
  }
    where
      change : PaymentIntent → PaymentIntent
      change = with_status ids.intent_id (new_status approved)

      event : OutboxEvent
      event = result_event rt ids approved

      events : List OutboxEvent
      events = db.outbox_events ++ event ∷ []

  -- From a consistent ledger every call, made outside an open transaction, leads to a consistent
  -- one, whichever of its statements fail: payment identifiers, idempotency keys and event
  -- identifiers are unique, every payment has its AUTH_STARTED event and every authorized one its
  -- AUTH_APPROVED event, and the audit chain verifies.
  authorize_transfer-IsConsistent :
      (t : Transfer) (c : Conn)
      → c.in_transaction ≡ false
      → IsConsistent rt c.committed
      → IsConsistent rt (authorize_transfer rt ids t c).1.committed
  authorize_transfer-IsConsistent t c closed h =
      elim (authorize_transfer-Outcome rt ids t c closed) [
        | paid between made done r ↦
            settled-IsConsistent true between _
              (created-IsConsistent t c.committed between h
                (created-Shape rt ids t c.committed between made))
              (settled-Shape rt ids true between _ done)
        | replayed p found r same ↦ rw same h
        | refused e r same ↦ rw same h
        | unsettled e r made ↦
            created-IsConsistent t c.committed _ h (created-Shape rt ids t c.committed _ made)
      ]

pub empty-IsConsistent : (rt : Runtime) → IsConsistent rt empty_db
unfolding verify_from
empty-IsConsistent rt = record {
  unique_ids = tt;
  unique_keys = tt;
  unique_events = tt;
  announced = tt;
  approved = tt;
  audited = refl;
}
