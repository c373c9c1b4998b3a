-- ===== src/Relay/Tests.antt =====
-- The relay on an outbox of two events.
use sentinelai_v.Prelude.{◌≡◌, refl, Bool, true, false, List, [], ◌∷◌, ◌++◌, All, Member}
use sentinelai_v.Database.{Db, OutboxEvent, pending, published, empty_db}
use sentinelai_v.Connection.{write, read, commit}
use sentinelai_v.Relay.{
  Relay, take_pending, batch, mark_published, publish_event, publish_events, commit_if, poll, polls,
  start, after,
}
use sentinelai_v.Relay.Delivery.{IsHonest, Reach-IsHonest}
use sentinelai_v.Relay.Lock.{failed_commit_locks}
use sentinelai_v.Relay.Progress
use sentinelai_v.Relay.Progress.{IsMarked, pending_of, poll_publishes}

abbrev first : OutboxEvent
first = record {
  id = "e1";
  aggregate_id = "p1";
  event_type = "PAYMENT_STARTED";
  payload = "{}";
  status = pending;
}

abbrev second : OutboxEvent
second = record first { id = "e2"; event_type = "PAYMENT_AUTHORIZED" }

abbrev ledger : Db
ledger = record empty_db { outbox_events = first ∷ second ∷ [] }

abbrev relay : List Bool → Relay
relay faults = record {
  conn = record { committed = ledger; working = ledger; in_transaction = false; faults = faults };
  sent = [];
}

-- The read and both updates go through, and the commit fails.
abbrev commit_fails : List Bool
commit_fails = false ∷ false ∷ false ∷ true ∷ []

abbrev locked : Relay
locked = poll (relay commit_fails)

both_sent : (poll (relay [])).sent ≡ first ∷ second ∷ []
unfolding poll read take_pending publish_events publish_event write mark_published commit_if commit
both_sent = refl

-- The second update fails: the first mark stays open, and nothing is committed.
one_failed : (poll (relay (false ∷ false ∷ true ∷ []))).conn.committed ≡ ledger
unfolding poll read take_pending publish_events publish_event write mark_published commit_if commit
one_failed = refl

-- An event may be published twice: its mark fails, and the next poll reads it again.
twice : (poll (poll (relay (false ∷ true ∷ [])))).sent ≡ first ∷ first ∷ second ∷ []
unfolding poll read take_pending publish_events publish_event write mark_published commit_if commit
twice = refl

locked_open : locked.conn.in_transaction ≡ true
unfolding poll read take_pending publish_events publish_event write mark_published commit_if commit
locked_open = refl

locked_idle : batch locked.conn.working ≡ []
unfolding poll read take_pending publish_events publish_event write mark_published commit_if commit
locked_idle = refl

ledger-IsHonest : IsHonest (relay commit_fails)
ledger-IsHonest = record { durable = unmarked; seen = unmarked }
  where
    unmarked :
        All
          (λ e. e.status ≡ published → (m : OutboxEvent) × Member m [] × (m.id ≡ e.id))
          ledger.outbox_events
    unmarked = ((λ p. cc), ((λ p. cc), tt))

Reach-IsHonest_example : IsHonest (poll locked)
Reach-IsHonest_example =
    Reach-IsHonest (relay commit_fails) (poll locked) (after (after start polls) polls)
      ledger-IsHonest

failed_commit_locks_example :
    ((poll locked).conn.committed ≡ locked.conn.committed)
    × ((poll locked).conn.in_transaction ≡ true)
failed_commit_locks_example =
    failed_commit_locks locked (poll locked) locked_open locked_idle (after start polls)

poll_publishes_example :
    let es = Progress.first 10 (pending_of ledger.outbox_events) in
    ((poll (relay [])).sent ≡ [] ++ es)
    × All (λ e. IsMarked (poll (relay [])).conn.committed.outbox_events e.id) es
poll_publishes_example = poll_publishes (relay []) refl
