-- ===== src/Gateway/Payments.antt =====
-- Backed payments: what `authorize_transfer` of core/transaction.py keeps of them when it is called
-- with a permitted context.
use sentinelai_v.Prelude.{
  String, ◌≡◌, Bool, true, false, Bool-cases, inl, inr, List, [], ◌∷◌, ◌==◌, All, Member,
  All-append, All-map, All-map_list,
}
use sentinelai_v.Database.{Db, Beneficiary, PaymentIntent, PaymentStatus}
use sentinelai_v.Enforcer.Decision.{InBounds}
use sentinelai_v.Enforcer.Compliance.{IsCompliant}
use sentinelai_v.Connection.{Conn}
use sentinelai_v.Transaction.{Runtime, Uuids, Transfer, with_status, new_intent, authorize_transfer}
use sentinelai_v.Transaction.Shape.{created-Shape, settled-Shape, CreatedShape, SettledShape}
use sentinelai_v.Transaction.Outcome.{
  paid, replayed, refused, unsettled, authorize_transfer-Outcome,
}

-- A payment goes to the IBAN of a beneficiary that its user has whitelisted and that meets the
-- compliance rules, and its amount is in bounds (or `nan`).
pub record HasBacking (rows : List Beneficiary) (p : PaymentIntent) : Type 0 where
  pub beneficiary : Beneficiary
  pub listed : Member beneficiary rows
  pub owned : beneficiary.owner_user_id ≡ p.user_id
  pub compliant : IsCompliant beneficiary
  pub account : p.target ≡ beneficiary.account_iban
  pub bounded : InBounds p.amount

abbrev pub IsBacked : Db → Type 0
IsBacked db = All (HasBacking db.approved_beneficiaries) db.payment_intents

-- What a permitted context asks the transaction manager for.
pub record IsSafe (rows : List Beneficiary) (t : Transfer) : Type 0 where
  pub beneficiary : Beneficiary
  pub listed : Member beneficiary rows
  pub owned : beneficiary.owner_user_id ≡ t.user_id
  pub compliant : IsCompliant beneficiary
  pub account : t.target ≡ beneficiary.account_iban
  pub bounded : InBounds t.amount

module _ (rt : Runtime) (ids : Uuids) where
  pub created-IsBacked :
      (t : Transfer) (db after : Db)
      → IsSafe db.approved_beneficiaries t
      → IsBacked db
      → CreatedShape rt ids t db after
      → IsBacked after
  created-IsBacked t db after safe h s =
      rw (s.beneficiaries, s.payments)
        (All-append _ db.payment_intents (new_intent rt ids t ∷ []) h (
          record {
            beneficiary = safe.beneficiary;
            listed = safe.listed;
            owned = safe.owned;
            compliant = safe.compliant;
            account = safe.account;
            bounded = safe.bounded;
          },
          tt,
        ))

  pub status-HasBacking :
      (rows : List Beneficiary) (id : String) (status : PaymentStatus) (p : PaymentIntent)
      → HasBacking rows p
      → HasBacking rows (with_status id status p)
  status-HasBacking rows id status p h = elim (Bool-cases (p.id == id)) [
    | inr other ↦ rw other h
    | inl own ↦ rw own (record {
      beneficiary = h.beneficiary;
      listed = h.listed;
      owned = h.owned;
      compliant = h.compliant;
      account = h.account;
      bounded = h.bounded;
    })
  ]

  pub settled-IsBacked :
      (b : Bool) (db after : Db) → IsBacked db → SettledShape rt ids b db after → IsBacked after
  settled-IsBacked b db after h s =
      rw (s.beneficiaries, s.payments)
        (All-map_list _ _ db.payment_intents (
          All-map (HasBacking db.approved_beneficiaries) _ db.payment_intents
            (λ p k. status-HasBacking db.approved_beneficiaries ids.intent_id _ p k) h))

  pub authorize-IsBacked :
      (t : Transfer) (c : Conn)
      → c.in_transaction ≡ false
      → IsSafe c.committed.approved_beneficiaries t
      → IsBacked c.committed
      → IsBacked (authorize_transfer rt ids t c).1.committed
  authorize-IsBacked t c closed safe h = elim (authorize_transfer-Outcome rt ids t c closed) [
    | paid between made done r ↦
        settled-IsBacked true between _
          (created-IsBacked t c.committed between safe h
            (created-Shape rt ids t c.committed between made))
          (settled-Shape rt ids true between _ done)
    | replayed p found r same ↦ rw same h
    | refused e r same ↦ rw same h
    | unsettled e r made ↦
        created-IsBacked t c.committed _ safe h (created-Shape rt ids t c.committed _ made)
  ]
