-- ===== src/Transaction/Phases.antt =====
-- The two transactions of `authorize_transfer`, each against what it means on a database.
use sentinelai_v.Prelude.{String, Bool}
use sentinelai_v.AuditChain.{last_hash}
use sentinelai_v.Connection.{read}
use sentinelai_v.Connection.Effects.{
  Update, and_then, Implements, Implements-bind, Implements-read, Implements-write, effect_rules,
  Commits, done,
}
use sentinelai_v.Transaction.{
  Runtime, Uuids, Transfer, Payload, transfer_data, bank_data, created_data, result_data,
  new_intent, new_event, new_status, event_type, insert_intent, insert_event, insert_audit,
  update_status, append_outbox, append_audit, create, record_result,
}

module _ (rt : Runtime) (ids : Uuids) where
  -- The payment, its event and its audit record, written one after another.
  abbrev pub created : Transfer → Update (Unit {0})
  created t = and_then (insert_intent (new_intent rt ids t)) λ _.
      and_then
        (insert_event (
          new_event rt ids.started_event_id ids.intent_id "AUTH_STARTED"
            (transfer_data t.amount t.target)))
        λ _.
          and_then
            (insert_audit rt ids.intent_id "INTENT_CREATED"
              (created_data t.user_id t.amount t.target))
            λ _. done

  -- The status, its event and its audit record.
  abbrev pub settled : Bool → Update (Unit {0})
  settled approved = and_then (update_status ids.intent_id (new_status approved)) λ _.
      and_then
        (insert_event
          (new_event rt ids.result_event_id ids.intent_id (event_type approved) bank_data))
        λ _.
          and_then
            (insert_audit rt ids.intent_id (event_type approved)
              (result_data (new_status approved)))
            λ _. done

  append_outbox-Implements :
      (id aggregate_id event_type : String) (payload : Payload)
      → Implements
          (append_outbox rt id aggregate_id event_type payload)
          (insert_event (new_event rt id aggregate_id event_type payload))
  unfolding append_outbox
  append_outbox-Implements id aggregate_id event_type payload = search effect_rules

  append_audit-Implements :
      (tx_id action : String) (payload : Payload)
      → Implements (append_audit rt tx_id action payload) (insert_audit rt tx_id action payload)
  unfolding append_audit
  append_audit-Implements tx_id action payload =
      Implements-bind (read (λ db. last_hash db.audit_ledger)) _ _
        (λ _. insert_audit rt tx_id action payload)
        (Implements-read (λ db. last_hash db.audit_ledger))
        (λ _. Implements-write (insert_audit rt tx_id action payload))

  -- The first transaction commits the payment, the event and the audit record together, or nothing.
  pub create-Commits : (t : Transfer) → Commits (create rt ids t) (created t)
  unfolding create
  create-Commits t = search (effect_rules, append_outbox-Implements, append_audit-Implements)

  -- So does the second with the status, the event and the audit record.
  pub record_result-Commits :
      (approved : Bool) → Commits (record_result rt ids approved) (settled approved)
  unfolding record_result
  record_result-Commits approved =
      search (effect_rules, append_outbox-Implements, append_audit-Implements)
