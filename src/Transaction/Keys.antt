-- ===== src/Transaction/Keys.antt =====
-- What the constraints of the tables of core/transaction.py say of the rows, and what a change of
-- status keeps.
use sentinelai_v.Prelude.{String, ◌≡◌, ◌≢◌, false, List, [], ◌∷◌, eq_iff, arith, All}
use sentinelai_v.Database.{PaymentIntent, OutboxEvent, PaymentStatus}
use sentinelai_v.Transaction.{intent_taken, event_taken, with_status}

pub untaken_ids :
    (new : PaymentIntent) (ps : List PaymentIntent)
    → intent_taken new ps ≡ false
    → All (λ p. p.id ≢ new.id) ps
unfolding intent_taken
untaken_ids new [] h = tt
untaken_ids new (p ∷ ps) h = (ground (arith, eq_iff p.id new.id), untaken_ids new ps (ground arith))

pub untaken_keys :
    (new : PaymentIntent) (ps : List PaymentIntent)
    → intent_taken new ps ≡ false
    → All (λ p. p.idempotency_key ≢ new.idempotency_key) ps
unfolding intent_taken
untaken_keys new [] h = tt
untaken_keys new (p ∷ ps) h = (
  ground (arith, eq_iff p.idempotency_key new.idempotency_key),
  untaken_keys new ps (ground arith),
)

pub untaken_events :
    (id : String) (es : List OutboxEvent) → event_taken id es ≡ false → All (λ e. e.id ≢ id) es
unfolding event_taken
untaken_events id [] h = tt
untaken_events id (e ∷ es) h = (ground (arith, eq_iff e.id id), untaken_events id es (ground arith))

pub with_status-id :
    (id : String) (status : PaymentStatus) (p : PaymentIntent) → (with_status id status p).id ≡ p.id
with_status-id id status p = ground arith

pub with_status-key :
    (id : String) (status : PaymentStatus) (p : PaymentIntent)
    → (with_status id status p).idempotency_key ≡ p.idempotency_key
with_status-key id status p = ground arith
