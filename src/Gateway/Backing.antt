-- ===== src/Gateway/Backing.antt =====
-- What stands behind a payment that the gateway has written.
use sentinelai_v.Prelude.{
  String, ◌≡◌, refl, ap, subst, ◌∙◌, Bool, true, false, Bool-cases, inl, inr, List, [], Member,
}
use sentinelai_v.Prelude.Result.{Result, ok, err}
use sentinelai_v.Database.{Db, Beneficiary}
use sentinelai_v.Enforcer.{
  AiPayload, SafeContext, reads_table, Verdict, approved, rejected, validate_transfer_intent,
}
use sentinelai_v.Enforcer.Decision.{IsPermitted, approved-IsPermitted}
use sentinelai_v.Connection.{Conn, read}
use sentinelai_v.Connection.Effects.{bind-induction, read-ok, read-err}
use sentinelai_v.RustCore.{Core}
use sentinelai_v.Gateway.Handler.{
  TransferRequest, Headers, Surroundings, payload_of, validate_intent, handle_transfer, transfer_of,
  after_core, after_verdict,
}
use sentinelai_v.Gateway.Payments.{IsBacked, IsSafe, authorize-IsBacked}

module _ (env : Surroundings) where
  -- What the enforcer hands on has been permitted by the whitelist of the committed ledger.
  abbrev pub Checked : String → AiPayload → Db → Result Verdict × Conn → Type 0
  Checked u p db (ok (approved ctx), d) =
      (d.committed ≡ db)
      × (d.in_transaction ≡ false)
      × IsPermitted env.parse_float db.approved_beneficiaries u p ctx
  Checked u p db (ok (rejected reason), d) = d.committed ≡ db
  Checked u p db (err e, d) = d.committed ≡ db

  verdict-Checked :
      (u : String) (p : AiPayload) (db : Db) (rows : List Beneficiary) (v : Result Verdict)
      (d : Conn)
      → validate_transfer_intent env.parse_float rows u p ≡ v
      → ((b : Beneficiary) → Member b rows → Member b db.approved_beneficiaries)
      → d.committed ≡ db
      → d.in_transaction ≡ false
      → Checked u p db (v, d)
  verdict-Checked u p db rows (err e) d h sub same closed = same
  verdict-Checked u p db rows (ok (rejected reason)) d h sub same closed = same
  verdict-Checked u p db rows (ok (approved ctx)) d h sub same closed =
      let ok_here = approved-IsPermitted env.parse_float rows u p ctx h in
      (
        same,
        closed,
        record {
          beneficiary = ok_here.beneficiary;
          listed = sub ok_here.beneficiary ok_here.listed;
          owned = ok_here.owned;
          named = ok_here.named;
          nonempty = ok_here.nonempty;
          compliant = ok_here.compliant;
          amount = ok_here.amount;
          given = ok_here.given;
          reads = ok_here.reads;
          bounded = ok_here.bounded;
          context = ok_here.context;
        },
      )

  pub validate_intent-Checked :
      (u : String) (p : AiPayload) (c : Conn)
      → c.working ≡ c.committed
      → c.in_transaction ≡ false
      → Checked u p c.committed (validate_intent env u p c)
  unfolding validate_intent
  validate_intent-Checked u p c fresh closed = elim (Bool-cases (reads_table env.parse_float p)) [
    | inr early ↦
        rw (early, validate_intent)
          (verdict-Checked u p c.committed [] _ c refl (λ b m. absurd m) refl closed)
    | inl late ↦
        rw (late, validate_intent)
          (bind-induction (Checked u p c.committed) (read (λ db. db.approved_beneficiaries))
            (λ rows d. (validate_transfer_intent env.parse_float rows u p, d)) c
            (λ rows d answer.
              let (value, after) = read-ok _ c rows d answer in
              verdict-Checked u p c.committed rows _ d refl
                (λ b m.
                  subst (Member b) (value ∙ ap (λ (z : Db). z.approved_beneficiaries) fresh) m)
                (ap (λ (z : Conn). z.committed) after)
                (ap (λ (z : Conn). z.in_transaction) after ∙ closed))
            (λ e d failed. ap (λ (z : Conn). z.committed) (read-err _ c e d failed)))
  ]

  module _ (req : TransferRequest) (headers : Headers) where
    permitted-IsSafe :
        (rows : List Beneficiary) (ctx : SafeContext)
        → IsPermitted env.parse_float rows req.role (payload_of req) ctx
        → IsSafe rows (transfer_of env req headers ctx)
    permitted-IsSafe rows ctx h = record {
      beneficiary = h.beneficiary;
      listed = h.listed;
      owned = rw h.context h.owned;
      compliant = h.compliant;
      account = rw h.context;
      bounded = rw h.context h.bounded;
    }

    after_core-IsBacked :
        (ctx : SafeContext) (d : Conn) (y : Result Bool × Core)
        → d.in_transaction ≡ false
        → IsSafe d.committed.approved_beneficiaries (transfer_of env req headers ctx)
        → IsBacked d.committed
        → IsBacked (after_core env req headers ctx d y).1.committed
    after_core-IsBacked ctx d (err e, core) closed safe h = h
    after_core-IsBacked ctx d (ok false, core) closed safe h = h
    after_core-IsBacked ctx d (ok true, core) closed safe h =
        authorize-IsBacked env.runtime env.uuids (transfer_of env req headers ctx) d closed safe h

    after_verdict-IsBacked :
        (db : Db) (core : Core) (x : Result Verdict × Conn)
        → Checked req.role (payload_of req) db x
        → IsBacked db
        → IsBacked (after_verdict env req headers core x).1.committed
    after_verdict-IsBacked db core (err e, d) same h = rw same h
    after_verdict-IsBacked db core (ok (rejected reason), d) same h = rw same h
    after_verdict-IsBacked db core (ok (approved ctx), d) (same, closed, permitted) h =
        after_core-IsBacked ctx d _ closed
          (permitted-IsSafe d.committed.approved_beneficiaries ctx (rw same permitted)) (rw same h)

    -- The gateway writes no unbacked payment: if every payment of the ledger goes to the IBAN of a
    -- compliant beneficiary that its user has whitelisted, with an amount in bounds or `nan`, so
    -- does every payment after a transfer request on a fresh connection, whatever the request
    -- holds and whichever statements fail.
    pub handle_transfer-IsBacked :
        (c : Conn) (core : Core)
        → c.working ≡ c.committed
        → c.in_transaction ≡ false
        → IsBacked c.committed
        → IsBacked (handle_transfer env req headers c core).1.committed
    unfolding handle_transfer
    handle_transfer-IsBacked c core fresh closed h =
        after_verdict-IsBacked c.committed core (validate_intent env req.role (payload_of req) c)
          (validate_intent-Checked req.role (payload_of req) c fresh closed) h
