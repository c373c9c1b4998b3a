-- ===== src/Relay/Progress.antt =====
-- What a poll of core/relay.py does where no statement of it fails.
use sentinelai_v.Prelude.{
  ℕ, zero, suc, String, ◌≡◌, refl, sym, ap, subst, ◌∙◌, inl, inr, true, false, Bool-cases, List, [],
  ◌∷◌, ◌++◌, map, ◌==◌, if◌then◌else◌, eq_iff, All, arith,
}
use mathlib.Core.List.{append-nil, append_assoc}
use sentinelai_v.Prelude.Result.{Result, ok, err}
use sentinelai_v.Database.{OutboxEvent, EventStatus, pending, published}
use sentinelai_v.Connection.Statements.{write_sound, read_sound, commit_sound}
use sentinelai_v.Relay.{
  Relay, is_pending, take_pending, batch, mark, mark_published, publish_event, publish_events,
  commit_if, finish_poll, poll,
}

-- Every row of this id is marked.
abbrev pub IsMarked : List OutboxEvent → String → Type 0
IsMarked rows id = All (λ e. e.id ≡ id → e.status ≡ published) rows

abbrev mark_all : List OutboxEvent → List OutboxEvent → List OutboxEvent
mark_all [] rows = rows
mark_all (e ∷ es) rows = mark_all es (map (mark e.id) rows)

mark-IsMarked : (id : String) (rows : List OutboxEvent) → IsMarked (map (mark id) rows) id
mark-IsMarked id [] = tt
mark-IsMarked id (e ∷ rows) = (
  elim (Bool-cases (e.id == id)) [
    | inl same ↦ rw same (λ p. refl)
    | inr other ↦ λ p. ground (arith, other, p, eq_iff e.id id)
  ],
  mark-IsMarked id rows,
)

-- A mark is not taken back.
mark-keeps :
    (other id : String) (rows : List OutboxEvent)
    → IsMarked rows id
    → IsMarked (map (mark other) rows) id
mark-keeps other id [] h = tt
mark-keeps other id (e ∷ rows) h = (
  elim (Bool-cases (e.id == other)) [
    | inl same ↦ rw same (λ p. refl)
    | inr differs ↦ rw differs (h.0)
  ],
  mark-keeps other id rows h.1,
)

mark_all-keeps :
    (es : List OutboxEvent) (id : String) (rows : List OutboxEvent)
    → IsMarked rows id
    → IsMarked (mark_all es rows) id
mark_all-keeps [] id rows h = h
mark_all-keeps (e ∷ es) id rows h =
    mark_all-keeps es id (map (mark e.id) rows) (mark-keeps e.id id rows h)

mark_all-IsMarked :
    (es : List OutboxEvent) (rows : List OutboxEvent)
    → All (λ e. IsMarked (mark_all es rows) e.id) es
mark_all-IsMarked [] rows = tt
mark_all-IsMarked (e ∷ es) rows = (
  mark_all-keeps es e.id (map (mark e.id) rows) (mark-IsMarked e.id rows),
  mark_all-IsMarked es (map (mark e.id) rows),
)

-- How publishing a batch ends where nothing fails.
record IsPublished (es : List OutboxEvent) (r : Relay) (out : Result (Unit {0}) × Relay)
    : Type 0 where
  passed : out.0 ≡ ok tt
  sent : out.1.sent ≡ r.sent ++ es
  marked : out.1.conn.working.outbox_events ≡ mark_all es r.conn.working.outbox_events
  sound : out.1.conn.faults ≡ []

-- The worker after one event.
abbrev next : OutboxEvent → Relay → Relay
next e r = record {
  conn = record r.conn {
    working = mark_published e.id r.conn.working;
    in_transaction = true;
    faults = [];
  };
  sent = r.sent ++ e ∷ [];
}

publish_event_sound :
    (e : OutboxEvent) (r : Relay) → r.conn.faults ≡ [] → publish_event e r ≡ (ok tt, next e r)
unfolding publish_event
publish_event_sound e r none_left = rw (write_sound (mark_published e.id) r.conn none_left)

publish_events_sound :
    (e : OutboxEvent) (es : List OutboxEvent) (r : Relay)
    → r.conn.faults ≡ []
    → publish_events (e ∷ es) r ≡ publish_events es (next e r)
unfolding publish_events
publish_events_sound e es r none_left =
    ap
      (λ out. elim out.0 as (λ _. Result (Unit {0}) × Relay) [
        | ok u ↦ publish_events es out.1
        | err x ↦ (err x, out.1)
      ])
      (publish_event_sound e r none_left)

publish_events-IsPublished :
    (es : List OutboxEvent) (r : Relay)
    → r.conn.faults ≡ []
    → IsPublished es r (publish_events es r)
unfolding publish_events mark_published
publish_events-IsPublished [] r none_left = record {
  passed = refl;
  sent = sym (append-nil r.sent);
  marked = refl;
  sound = none_left;
}
publish_events-IsPublished (e ∷ es) r none_left =
    let h = publish_events-IsPublished es (next e r) refl in
    rw (publish_events_sound e es r none_left) (record {
      passed = h.passed;
      sent = h.sent ∙ append_assoc r.sent (e ∷ []) es;
      marked = h.marked;
      sound = h.sound;
    })

commit_if_sound :
    (e : OutboxEvent) (es : List OutboxEvent) (r : Relay)
    → r.conn.faults ≡ []
    → commit_if (e ∷ es) r ≡ record r {
      conn = record r.conn { committed = r.conn.working; in_transaction = false; faults = [] };
    }
unfolding commit_if
commit_if_sound e es r none_left = rw (commit_sound r.conn none_left)

commit_if-marks :
    (es : List OutboxEvent) (r : Relay)
    → r.conn.faults ≡ []
    → All (λ e. IsMarked r.conn.working.outbox_events e.id) es
    → ((commit_if es r).sent ≡ r.sent)
      × All (λ e. IsMarked (commit_if es r).conn.committed.outbox_events e.id) es
unfolding commit_if
commit_if-marks [] r none_left h = (refl, tt)
commit_if-marks (e ∷ es) r none_left h =
    subst
      (λ s. (s.sent ≡ r.sent) × All (λ x. IsMarked s.conn.committed.outbox_events x.id) (e ∷ es))
      (sym (commit_if_sound e es r none_left)) (refl, h)

finish_poll-marks :
    (es : List OutboxEvent) (r : Relay) (out : Result (Unit {0}) × Relay)
    → IsPublished es r out
    → ((finish_poll es out).sent ≡ r.sent ++ es)
      × All (λ e. IsMarked (finish_poll es out).conn.committed.outbox_events e.id) es
finish_poll-marks es r (ok u, s) h =
    let rows : All (λ e. IsMarked s.conn.working.outbox_events e.id) es =
      rw (h.marked) (mark_all-IsMarked es r.conn.working.outbox_events) in
    let (kept, marks) = commit_if-marks es s h.sound rows in (kept ∙ h.sent, marks)
finish_poll-marks es r (err x, s) h = cc (h.passed)

-- The rows that are still pending, and the first so many of a list.
abbrev pub by_status : EventStatus → OutboxEvent → List OutboxEvent → List OutboxEvent
by_status pending e es = e ∷ es
by_status published e es = es

abbrev pub pending_of : List OutboxEvent → List OutboxEvent
pending_of [] = []
pending_of (e ∷ rows) = by_status e.status e (pending_of rows)

abbrev pub first : ℕ → List OutboxEvent → List OutboxEvent
first zero es = []
first (suc n) [] = []
first (suc n) (e ∷ es) = e ∷ first n es

taken_head :
    (status : EventStatus) (e : OutboxEvent) (n : ℕ) (taken skipped rest : List OutboxEvent)
    → taken ≡ first n rest
    → skipped ≡ first (suc n) rest
    → (if is_pending status then e ∷ taken else skipped) ≡ first (suc n) (by_status status e rest)
taken_head pending e n taken skipped rest h k = ap (λ es. e ∷ es) h
taken_head published e n taken skipped rest h k = k

take_pending-first :
    (n : ℕ) (rows : List OutboxEvent) → take_pending n rows ≡ first n (pending_of rows)
unfolding take_pending
take_pending-first zero rows = refl
take_pending-first (suc n) [] = refl
take_pending-first (suc n) (e ∷ rows) =
    taken_head e.status e n (take_pending n rows) (take_pending (suc n) rows) (pending_of rows)
      (take_pending-first n rows) (take_pending-first (suc n) rows)

batch_published :
    (r : Relay)
    → r.conn.faults ≡ []
    → ((poll r).sent ≡ r.sent ++ batch r.conn.working)
      × All (λ e. IsMarked (poll r).conn.committed.outbox_events e.id) (batch r.conn.working)
unfolding poll
batch_published r none_left =
    let s : Relay = record r { conn = record r.conn { faults = [] } } in
    let es = batch r.conn.working in
    rw (read_sound batch r.conn none_left)
      (finish_poll-marks es s (publish_events es s) (publish_events-IsPublished es s refl))

-- A poll of which no statement fails publishes the first ten of the events that it sees as pending,
-- or all of them if they are fewer, in their order and after all that was published before, and
-- commits every row of their ids as published.
pub poll_publishes :
    (r : Relay)
    → r.conn.faults ≡ []
    → let es = first 10 (pending_of r.conn.working.outbox_events) in
      ((poll r).sent ≡ r.sent ++ es)
      × All (λ e. IsMarked (poll r).conn.committed.outbox_events e.id) es
poll_publishes r none_left =
    subst
      (λ es.
        ((poll r).sent ≡ r.sent ++ es)
        × All (λ e. IsMarked (poll r).conn.committed.outbox_events e.id) es)
      (take_pending-first 10 r.conn.working.outbox_events) (batch_published r none_left)
