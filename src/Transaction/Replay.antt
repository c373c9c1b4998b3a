-- ===== src/Transaction/Replay.antt =====
-- A second call with an idempotency key that has a payment.
use sentinelai_v.Prelude.{
  ◌≡◌, ◌≢◌, refl, sym, ◌∙◌, ap, Bool, true, false, none, some, List, [], ◌∷◌, ◌++◌, ◌==◌, eq_refl,
  arith, find?, inl, inr, ◌⊎◌,
}
use mathlib.Core.Option.{some-injective}
use sentinelai_v.Prelude.Result.{ok, err, Exception, integrity_error}
use sentinelai_v.Database.{Db, PaymentIntent, authorizing}
use sentinelai_v.Connection.{Conn, begin, read, write, rollback}
use sentinelai_v.Transaction.{
  Runtime, Uuids, Transfer, find_intent, insert_intent, intent_taken, new_intent, create, recover,
  authorize_transfer,
}
use sentinelai_v.Transaction.Phases.{created}
use sentinelai_v.Transaction.Outcome.{
  paid, replayed, refused, unsettled, authorize_transfer-Outcome,
}
use sentinelai_v.Transaction.Recovery.{reply_of}
use sentinelai_v.Transaction.Shape.{created-Shape}
use sentinelai_v.Transaction.Success.{idle}

key_taken :
    (ps : List PaymentIntent) (new p : PaymentIntent)
    → find? (λ q. q.idempotency_key == new.idempotency_key) ps ≡ some p
    → intent_taken new ps ≡ true
unfolding intent_taken
key_taken [] new p h = cc
key_taken (q ∷ qs) new p h = ground (arith, key_taken qs new p)

module _ (rt : Runtime) (ids : Uuids) (t : Transfer) where
  existing_insert :
      (db : Db) (p : PaymentIntent)
      → find_intent t.idempotency_key db ≡ some p
      → insert_intent (new_intent rt ids t) db ≡ err integrity_error
  unfolding insert_intent find_intent
  existing_insert db p h = ground (arith, key_taken db.payment_intents (new_intent rt ids t) p h)

  not-created :
      (db after : Db) (p : PaymentIntent)
      → find_intent t.idempotency_key db ≡ some p
      → created rt ids t db ≢ ok (tt, after)
  not-created db after p h made = ground (arith, existing_insert db p h)

  -- A used key is never charged again: whichever statements fail, a call with it, outside an open
  -- transaction, commits nothing, and it returns the payment that has the key or raises.
  pub existing_key_commits_nothing :
      (c : Conn) (p : PaymentIntent)
      → c.in_transaction ≡ false
      → find_intent t.idempotency_key c.committed ≡ some p
      → let (r, d) = authorize_transfer rt ids t c in
        (d.committed ≡ c.committed) × ((r ≡ ok (reply_of p)) ⊎ ((e : Exception) × (r ≡ err e)))
  existing_key_commits_nothing c p closed found =
      elim (authorize_transfer-Outcome rt ids t c closed) [
        | paid between made done r ↦ absurd (not-created c.committed between p found made)
        | replayed q found' r same ↦
            (same, inl (r ∙ ap (λ x. ok (reply_of x)) (some-injective q p (sym found' ∙ found))))
        | refused e r same ↦ (same, inr (e, r))
        | unsettled e r made ↦ absurd (not-created c.committed _ p found made)
      ]

  -- When no statement fails, a call with a used key returns the payment that has the key, whoever
  -- asks and for whatever amount and target, and leaves the connection as it was.
  existing_key_reports :
      (db : Db) (p : PaymentIntent)
      → find_intent t.idempotency_key db ≡ some p
      → authorize_transfer rt ids t (idle db) ≡ (ok (reply_of p), idle db)
  unfolding authorize_transfer create recover begin read write rollback
  existing_key_reports db p found = ground (arith, existing_insert db p found)

find?-snoc :
    {A : Type 0} (p : A → Bool) (xs : List A) (a : A)
    → find? p xs ≡ none
    → p a ≡ true
    → find? p (xs ++ a ∷ []) ≡ some a
find?-snoc p [] a h k = rw k
find?-snoc p (x ∷ xs) a h k = ground (arith, find?-snoc p xs a)

untaken_key :
    (ps : List PaymentIntent) (new : PaymentIntent)
    → intent_taken new ps ≡ false
    → find? (λ q. q.idempotency_key == new.idempotency_key) ps ≡ none
unfolding intent_taken
untaken_key [] new h = refl
untaken_key (q ∷ qs) new h = ground (arith, untaken_key qs new)

module _ (rt : Runtime) (ids : Uuids) (t : Transfer) where
  created_found :
      (db after : Db)
      → created rt ids t db ≡ ok (tt, after)
      → find_intent t.idempotency_key after ≡ some (new_intent rt ids t)
  unfolding find_intent
  created_found db after h =
      let shape = created-Shape rt ids t db after h in
      rw shape.payments (
        find?-snoc _ db.payment_intents (new_intent rt ids t)
          (untaken_key db.payment_intents (new_intent rt ids t) shape.new_payment)
          (eq_refl t.idempotency_key))

  -- A call that committed its first transaction and then raised leaves a payment that no retry can
  -- finish: whichever statements of a later call with the key fail, it commits nothing, and it
  -- returns the payment as still authorizing or raises.
  pub unsettled_stays :
      (ids' : Uuids) (t' : Transfer) (db : Db) (c : Conn)
      → created rt ids t db ≡ ok (tt, c.committed)
      → c.in_transaction ≡ false
      → t'.idempotency_key ≡ t.idempotency_key
      → let (r, d) = authorize_transfer rt ids' t' c in
        (d.committed ≡ c.committed)
        × ((r ≡ ok (record { id = ids.intent_id; status = authorizing }))
            ⊎ ((e : Exception) × (r ≡ err e)))
  unsettled_stays ids' t' db c made closed same_key =
      existing_key_commits_nothing rt ids' t' c (new_intent rt ids t) closed
        (rw same_key (created_found db c.committed made))
