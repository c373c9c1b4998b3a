-- ===== src/Gateway/Once.antt =====
-- core/gateway.py: transfer requests under one idempotency key, with others and restarts in between.
use sentinelai_v.Prelude.{
  String, ◌≡◌, refl, sym, ap, subst, ◌∙◌, inl, inr, some, List, [], ◌∷◌, ◌==◌, eq_iff, find?-unique,
}
use sentinelai_v.Database.{Db, PaymentIntent, init_db}
use sentinelai_v.Database.Seed.{init_db-cases}
use sentinelai_v.Transaction.{Reply, find_intent}
use sentinelai_v.Transaction.Growth.{
  Holds, HasUniqueKeys, Grows, Grows-same, Grows-trans, Grows-Holds,
}
use sentinelai_v.Transaction.Recovery.{reply_of}
use sentinelai_v.RustCore.{Core}
use sentinelai_v.Gateway.{proceed, refuse, Gate, security_gate}
use sentinelai_v.Gateway.Handler.{Response, intervention, integrity_mismatch, success, server_error}
use sentinelai_v.Gateway.Responses.{Tells, handle_transfer-Tells}
use sentinelai_v.Gateway.Repeat.{key_of, Repeats, handle_transfer-Grows, handle_transfer-IsRepeat}
use sentinelai_v.Gateway.Serve.{
  Arrival, Answer, answered, connect, behind_gate, serve, Event, arrives, restarts, start_up, live,
}

serve-Grows : (a : Arrival) (db : Db) (core : Core) → Grows db (serve a db core).1
unfolding serve
serve-Grows a db core = by_gate (security_gate (some a.recovery) core "POST" a.random)
  where
    by_gate : (g : Gate) → Grows db (behind_gate g a db core).1
    by_gate proceed =
        handle_transfer-Grows a.env a.req a.headers (connect db a.faults) core refl refl
    by_gate (refuse status detail) = Grows-same db db refl

init_db-Grows : (db : Db) → Grows db (init_db db)
init_db-Grows db = elim (init_db-cases db) [
  | inl same ↦ Grows-same db _ (ap (λ (z : Db). z.payment_intents) same)
  | inr seeded ↦ Grows-same db _ (ap (λ (z : Db). z.payment_intents) seeded)
]

live-Grows : (events : List Event) (db : Db) (core : Core) → Grows db (live events db core).0
unfolding live start_up
live-Grows [] db core = Grows-same db db refl
live-Grows (arrives a ∷ rest) db core =
    Grows-trans db (serve a db core).1 _ (serve-Grows a db core) (live-Grows rest _ _)
live-Grows (restarts ∷ rest) db core =
    Grows-trans db (init_db db) _ (init_db-Grows db) (live-Grows rest _ _)

abbrev pub key_at : Arrival → String
key_at a = key_of a.req a.headers

-- An answer that reports a payment names this one.
abbrev pub Names : String → Answer → Type 0
Names id (answered (success trace reply)) = reply.id ≡ id
Names id x = Unit

-- The answer reports a payment, of this identifier.
abbrev pub Reports : String → Answer → Type 0
Reports id (answered (success trace reply)) = reply.id ≡ id
Reports id x = ⊥

-- A key under which a payment is held is found, where keys are unique.
held_found :
    (db : Db) (p : PaymentIntent)
    → HasUniqueKeys db
    → Holds db p
    → (q : PaymentIntent) × (find_intent p.idempotency_key db ≡ some q) × (q.id ≡ p.id)
unfolding find_intent
held_found db p unique (q, m, same_id, same_key) = (
  q,
  find?-unique (λ z. z.idempotency_key == p.idempotency_key) (λ z. z.idempotency_key)
      db.payment_intents q unique m ((eq_iff q.idempotency_key p.idempotency_key).1 same_key)
      (λ z hit. (eq_iff z.idempotency_key p.idempotency_key).0 hit ∙ sym same_key),
  same_id,
)

-- The answer of a request that reports a payment is backed by the ledger that it leaves.
reported_held :
    (a : Arrival) (db : Db) (core : Core) (id : String)
    → Reports id (serve a db core).0
    → (p : PaymentIntent) × Holds (serve a db core).1 p
      × (p.id ≡ id)
      × (p.idempotency_key ≡ key_at a)
unfolding serve
reported_held a db core id = by_gate (security_gate (some a.recovery) core "POST" a.random)
  where
    by_response :
        (r : Response) (after : Db)
        → Tells a.env a.req a.headers db r after
        → Reports id (answered r)
        → (p : PaymentIntent) × Holds after p × (p.id ≡ id) × (p.idempotency_key ≡ key_at a)
    by_response (success trace reply) after (traced, stored) h = (
      stored.payment,
      (stored.payment, stored.stored, refl, refl),
      sym (ap (λ (z : Reply). z.id) stored.reported) ∙ h,
      stored.keyed,
    )
    by_response (intervention reason) after told h = absurd h
    by_response integrity_mismatch after told h = absurd h
    by_response (server_error e) after told h = absurd h

    by_gate :
        (g : Gate)
        → Reports id (behind_gate g a db core).0
        → (p : PaymentIntent) × Holds (behind_gate g a db core).1 p
          × (p.id ≡ id)
          × (p.idempotency_key ≡ key_at a)
    by_gate proceed h =
        by_response _ _
          (handle_transfer-Tells a.env a.req a.headers (connect db a.faults) core refl refl) h
    by_gate (refuse status detail) h = absurd h

-- A request under a key that has a payment leaves the ledger as it is, and names that payment.
found-repeat :
    (a : Arrival) (db : Db) (core : Core) (q : PaymentIntent)
    → find_intent (key_at a) db ≡ some q
    → ((serve a db core).1 ≡ db) × Names q.id (serve a db core).0
unfolding serve
found-repeat a db core q found = by_gate (security_gate (some a.recovery) core "POST" a.random)
  where
    by_response :
        (r : Response) → Repeats a.env a.req a.headers (reply_of q) r → Names q.id (answered r)
    by_response (success trace reply) h = ap (λ (z : Reply). z.id) h
    by_response (intervention reason) h = tt
    by_response integrity_mismatch h = tt
    by_response (server_error e) h = tt

    by_gate :
        (g : Gate) → ((behind_gate g a db core).1 ≡ db) × Names q.id (behind_gate g a db core).0
    by_gate proceed =
        let (same, repeats) =
          handle_transfer-IsRepeat a.env a.req a.headers q (connect db a.faults) core refl refl
            found in
        (same, by_response _ repeats)
    by_gate (refuse status detail) = (refl, tt)

-- One key, one payment: if a transfer request is answered with a payment, then every later request
-- with its key, after any requests and restarts, leaves the ledger as it finds it, and where it is
-- answered with a payment, it is the same one. Keys are taken to be unique at the start, as the
-- table makes them.
pub one_payment_per_key :
    (a later : Arrival) (between : List Event) (db : Db) (core : Core) (id : String)
    → HasUniqueKeys db
    → Reports id (serve a db core).0
    → key_at later ≡ key_at a
    → let (db', core') = live between (serve a db core).1 (serve a db core).2 in
      let x = serve later db' core' in (x.1 ≡ db') × Names id x.0
one_payment_per_key a later between db core id unique reports same_key =
    let first = serve a db core in
    let then = live between first.1 first.2 in
    let (p, held, named, keyed) = reported_held a db core id reports in
    let grown = live-Grows between first.1 first.2 in
    let unique' = grown.unique ((serve-Grows a db core).unique unique) in
    let (q, found, as_p) = held_found then.0 p unique' (Grows-Holds first.1 then.0 p grown held) in
    let (same, names) =
      found-repeat later then.0 then.1 q
        (ap (λ k. find_intent k then.0) (same_key ∙ sym keyed) ∙ found) in
    (same, subst (λ i. Names i (serve later then.0 then.1).0) (as_p ∙ named) names)
