-- ===== src/Transaction/Growth.antt =====
-- What no call of core/transaction.py takes away: the payments with their identifiers and keys.
use sentinelai_v.Prelude.{
  ◌≡◌, refl, ◌∙◌, true, false, [], ◌∷◌, DistinctBy, DistinctBy-snoc, DistinctBy-map, Member,
  Member-append, Member-map, Bool,
}
use sentinelai_v.Database.{Db, PaymentIntent}
use sentinelai_v.Connection.{Conn}
use sentinelai_v.Transaction.{
  Runtime, Uuids, Transfer, new_intent, new_status, with_status, authorize_transfer,
}
use sentinelai_v.Transaction.Keys.{untaken_keys, with_status-id, with_status-key}
use sentinelai_v.Transaction.Shape.{CreatedShape, SettledShape, created-Shape, settled-Shape}
use sentinelai_v.Transaction.Outcome.{
  paid, replayed, refused, unsettled, authorize_transfer-Outcome,
}

-- A payment of this identifier and this key is there.
abbrev pub Holds : Db → PaymentIntent → Type 0
Holds db p =
    (q : PaymentIntent) × Member q db.payment_intents
    × (q.id ≡ p.id)
    × (q.idempotency_key ≡ p.idempotency_key)

abbrev pub HasUniqueKeys : Db → Type 0
HasUniqueKeys db = DistinctBy (λ p. p.idempotency_key) db.payment_intents

-- Keys stay unique, and payments stay.
pub record Grows (db after : Db) : Type 0 where
  pub unique : HasUniqueKeys db → HasUniqueKeys after
  pub kept : (p : PaymentIntent) → Member p db.payment_intents → Holds after p

pub Grows-same : (db after : Db) → after.payment_intents ≡ db.payment_intents → Grows db after
Grows-same db after same = record {
  unique = λ d. rw same d;
  kept = λ p m. (p, rw same m, refl, refl);
}

pub Grows-Holds : (db after : Db) (p : PaymentIntent) → Grows db after → Holds db p → Holds after p
Grows-Holds db after p g (q, m, same_id, same_key) =
    let (r, n, id', key') = g.kept q m in (r, n, id' ∙ same_id, key' ∙ same_key)

pub Grows-trans : (db between after : Db) → Grows db between → Grows between after → Grows db after
Grows-trans db between after g h = record {
  unique = λ d. h.unique (g.unique d);
  kept = λ p m. Grows-Holds between after p h (g.kept p m);
}

module _ (rt : Runtime) (ids : Uuids) where
  created-Grows : (t : Transfer) (db after : Db) → CreatedShape rt ids t db after → Grows db after
  created-Grows t db after s = record {
    unique = λ d. rw s.payments (
        DistinctBy-snoc (λ (p : PaymentIntent). p.idempotency_key) db.payment_intents
          (new_intent rt ids t) d
          (untaken_keys (new_intent rt ids t) db.payment_intents s.new_payment));
    kept = λ p m. (
      p,
      rw s.payments (Member-append p db.payment_intents (new_intent rt ids t ∷ []) m),
      refl,
      refl,
    );
  }

  settled-Grows : (b : Bool) (db after : Db) → SettledShape rt ids b db after → Grows db after
  settled-Grows b db after s = record {
    unique = λ d. rw s.payments (
        DistinctBy-map (λ (p : PaymentIntent). p.idempotency_key)
          (with_status ids.intent_id (new_status b)) db.payment_intents
          (with_status-key ids.intent_id (new_status b)) d);
    kept = λ p m. (
      with_status ids.intent_id (new_status b) p,
      rw s.payments (Member-map (with_status ids.intent_id (new_status b)) p db.payment_intents m),
      with_status-id ids.intent_id (new_status b) p,
      with_status-key ids.intent_id (new_status b) p,
    );
  }

  pub authorize_transfer-Grows :
      (t : Transfer) (c : Conn)
      → c.in_transaction ≡ false
      → Grows c.committed (authorize_transfer rt ids t c).1.committed
  authorize_transfer-Grows t c closed = elim (authorize_transfer-Outcome rt ids t c closed) [
    | paid between made done r ↦
        Grows-trans c.committed between _
          (created-Grows t c.committed between (created-Shape rt ids t c.committed between made))
          (settled-Grows true between _ (settled-Shape rt ids true between _ done))
    | replayed p found r same ↦ rw same (Grows-same c.committed c.committed refl)
    | refused e r same ↦ rw same (Grows-same c.committed c.committed refl)
    | unsettled e r made ↦ created-Grows t c.committed _ (created-Shape rt ids t c.committed _ made)
  ]
