-- ===== src/Relay/Delivery.antt =====
-- At least once: what core/relay.py marks as published has been published.
use sentinelai_v.Prelude.{
  ◌≡◌, sym, ◌∙◌, ◌≢◌, inl, inr, Bool-cases, List, [], ◌∷◌, ◌++◌, map, ◌==◌, eq_iff, All, All-map,
  All-append, Member, Member-append, Member-snoc,
}
use sentinelai_v.Prelude.Result.{Result, ok, err}
use sentinelai_v.Database.{Db, OutboxEvent, pending, published}
use sentinelai_v.Connection.{next_statement}
use sentinelai_v.Connection.Statements.{write-cases, read-cases, commit-cases}
use sentinelai_v.Relay.{
  Relay, batch, mark, mark_published, publish_event, publish_events, commit_if, finish_poll, poll,
  Step, polls, pays_elsewhere, Reach, start, after,
}

-- A row that is marked as published has the id of an event that was.
abbrev pub IsSent : List OutboxEvent → OutboxEvent → Type 0
IsSent sent e = e.status ≡ published → (m : OutboxEvent) × Member m sent × (m.id ≡ e.id)

abbrev AllSent : List OutboxEvent → Db → Type 0
AllSent sent db = All (IsSent sent) db.outbox_events

-- The marks are honest, in what is committed and in what the worker's own transaction sees.
pub record IsHonest (r : Relay) : Type 0 where
  pub durable : AllSent r.sent r.conn.committed
  pub seen : AllSent r.sent r.conn.working

more-IsSent :
    (sent : List OutboxEvent) (e : OutboxEvent) (rows : List OutboxEvent)
    → All (IsSent sent) rows
    → All (IsSent (sent ++ e ∷ [])) rows
more-IsSent sent e rows =
    All-map (IsSent sent) (IsSent (sent ++ e ∷ [])) rows
      (λ x h p. let (m, found, same) = h p in (m, Member-append m sent (e ∷ []) found, same))

-- Marking the rows of an event that has been published is honest.
mark-AllSent :
    (sent : List OutboxEvent) (e : OutboxEvent) (rows : List OutboxEvent)
    → Member e sent
    → All (IsSent sent) rows
    → All (IsSent sent) (map (mark e.id) rows)
mark-AllSent sent e [] m h = tt
mark-AllSent sent e (x ∷ rows) m h = (
  elim (Bool-cases (x.id == e.id)) [
    | inl same ↦ rw same (λ p. (e, m, sym ((eq_iff x.id e.id).0 same)))
    | inr other ↦ rw other (h.0)
  ],
  mark-AllSent sent e rows m h.1,
)

publish_event-IsHonest : (e : OutboxEvent) (r : Relay) → IsHonest r → IsHonest (publish_event e r).1
unfolding publish_event mark_published
publish_event-IsHonest e r h =
    let durable = more-IsSent r.sent e r.conn.committed.outbox_events h.durable in
    let seen = more-IsSent r.sent e r.conn.working.outbox_events h.seen in
    elim (write-cases (mark_published e.id) r.conn) [
      | inl failed ↦ rw failed (record { durable = durable; seen = seen })
      | inr marked ↦ rw marked (record {
        durable = durable;
        seen =
            mark-AllSent (r.sent ++ e ∷ []) e r.conn.working.outbox_events (Member-snoc e r.sent)
              seen;
      })
    ]

-- What a property needs that each published event keeps, to hold when the pass is over.
pub publish_events-induction {κ} :
    (P : Relay → Type κ)
    → ((e : OutboxEvent) (r : Relay) → P r → P (publish_event e r).1)
    → (es : List OutboxEvent) (r : Relay) → P r
    → P (publish_events es r).1
unfolding publish_events
publish_events-induction P keeps [] r h = h
publish_events-induction P keeps (e ∷ es) r h =
    next (publish_event e r).0 (publish_event e r).1 (keeps e r h)
      (λ s g. publish_events-induction P keeps es s g)
  where
    next :
        (result : Result (Unit {0})) (s : Relay)
        → P s
        → ((t : Relay) → P t → P (publish_events es t).1)
        → P
            (elim result as (λ _. Result (Unit {0}) × Relay) [
              | ok u ↦ publish_events es s
              | err x ↦ (err x, s)
            ]).1
    next (ok u) s g later = later s g
    next (err x) s g later = g

commit_if-IsHonest : (es : List OutboxEvent) (r : Relay) → IsHonest r → IsHonest (commit_if es r)
unfolding commit_if
commit_if-IsHonest [] r h = h
commit_if-IsHonest (e ∷ es) r h = elim (commit-cases r.conn) [
  | inl failed ↦ rw failed (record { durable = h.durable; seen = h.seen })
  | inr passed ↦ rw passed (record { durable = h.seen; seen = h.seen })
]

finish_poll-IsHonest :
    (es : List OutboxEvent) (result : Result (Unit {0})) (r : Relay)
    → IsHonest r
    → IsHonest (finish_poll es (result, r))
finish_poll-IsHonest es (ok u) r h = commit_if-IsHonest es r h
finish_poll-IsHonest es (err x) r h = h

poll-IsHonest : (r : Relay) → IsHonest r → IsHonest (poll r)
unfolding poll
poll-IsHonest r h = elim (read-cases batch r.conn) [
  | inl failed ↦ rw failed (record { durable = h.durable; seen = h.seen })
  | inr got ↦
      let es = batch r.conn.working in
      let s : Relay = record r { conn = next_statement r.conn } in
      let g : IsHonest s = record { durable = h.durable; seen = h.seen } in
      rw got (
        finish_poll-IsHonest es (publish_events es s).0 (publish_events es s).1
          (publish_events-induction IsHonest publish_event-IsHonest es s g))
]

pending-IsSent :
    (sent rows : List OutboxEvent) → All (λ e. e.status ≡ pending) rows → All (IsSent sent) rows
pending-IsSent sent rows = All-map _ (IsSent sent) rows (λ e h p. absurd (unequal (sym h ∙ p)))
  where
    unequal : pending ≢ published
    unequal = cc

Step-IsHonest : (r s : Relay) → Step r s → IsHonest r → IsHonest s
Step-IsHonest r s polls h = poll-IsHonest r h
Step-IsHonest r s (pays_elsewhere db closed more) h =
    let rows : AllSent r.sent db = rw more.appended (
      All-append (IsSent r.sent) r.conn.committed.outbox_events more.added h.durable
        (pending-IsSent r.sent more.added more.unsent)) in
    record { durable = rows; seen = rows }

-- At least once: whatever statements of the worker fail, and whatever payments commit between its
-- polls, a row that is marked as published, in the committed outbox or in the worker's open
-- transaction, is of an event that the worker has published, if that was so at the start.
pub Reach-IsHonest : (r s : Relay) → Reach r s → IsHonest r → IsHonest s
Reach-IsHonest r s start h = h
Reach-IsHonest r s (after reached step) h = Step-IsHonest _ s step (Reach-IsHonest r _ reached h)
