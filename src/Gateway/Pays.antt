-- ===== src/Gateway/Pays.antt =====
-- The transfer that core/gateway.py carries out.
use sentinelai_v.Prelude.{List, some, String, ◌≡◌, refl, DistinctBy, eq_iff, Bool, true, [], arith}
use sentinelai_v.Prelude.Result.{Result, ok}
use sentinelai_v.Database.{Db, AuditRow, authorized}
use sentinelai_v.Enforcer.{SafeContext, approved, reads_table}
use sentinelai_v.Enforcer.Decision.{IsPermitted, tests-InBounds, validate-approved_iff}
use sentinelai_v.Connection.{read}
use sentinelai_v.Transaction.Phases.{created, settled}
use sentinelai_v.Transaction.Fresh.{IsFresh, with_payment, fresh-created, fresh-settled}
use sentinelai_v.Transaction.Success.{idle, fresh_key_pays}
use sentinelai_v.RustCore.{Core, audit_and_verify}
use sentinelai_v.Gateway.{proceed, security_gate}
use sentinelai_v.Gateway.Handler.{
  TransferRequest, Headers, success, Surroundings, payload_of, or_default, validate_intent,
  handle_transfer, transfer_of, after_core,
}
use sentinelai_v.Gateway.Serve.{Arrival, answered, serve}

-- The answer of the Rust core, and the core afterwards.
abbrev pub verified : Arrival → Core → Result Bool × Core
verified a core = audit_and_verify a.env.disk a.req.tx_id a.req.tx_hash core

module _ (env : Surroundings) (req : TransferRequest) (headers : Headers) where
  permitted-reads_table :
      (db : Db) (ctx : SafeContext)
      → IsPermitted env.parse_float db.approved_beneficiaries req.role (payload_of req) ctx
      → reads_table env.parse_float (payload_of req) ≡ true
  unfolding reads_table
  permitted-reads_table db ctx h =
      ground (arith, tests-InBounds h.amount h.bounded, eq_iff h.beneficiary.id "")

  intent_approved :
      (db : Db) (ctx : SafeContext)
      → DistinctBy (λ r. r.id) db.approved_beneficiaries
      → IsPermitted env.parse_float db.approved_beneficiaries req.role (payload_of req) ctx
      → validate_intent env req.role (payload_of req) (idle db) ≡ (ok (approved ctx), idle db)
  unfolding validate_intent read
  intent_approved db ctx unique permitted =
      let safe =
        (validate-approved_iff env.parse_float db.approved_beneficiaries req.role (payload_of req)
            ctx unique).1
          permitted in
      rw (permitted-reads_table db ctx permitted, safe) refl

  abbrev trace : String
  trace = or_default "unknown" headers.correlation_id

  core_pays :
      (db mid after : Db) (ctx : SafeContext) (y : Result Bool × Core)
      → y.0 ≡ ok true
      → created env.runtime env.uuids (transfer_of env req headers ctx) db ≡ ok (tt, mid)
      → settled env.runtime env.uuids true mid ≡ ok (tt, after)
      → after_core env req headers ctx (idle db) y ≡ (
        success trace (record { id = env.uuids.intent_id; status = authorized }),
        idle after,
        y.1,
      )
  core_pays db mid after ctx (r, core) accepted made done =
      rw
        (
          accepted,
          fresh_key_pays env.runtime env.uuids (transfer_of env req headers ctx) db mid after made
              done,
        )
        refl

  handle_pays :
      (db mid after : Db) (core : Core) (ctx : SafeContext)
      → DistinctBy (λ r. r.id) db.approved_beneficiaries
      → IsPermitted env.parse_float db.approved_beneficiaries req.role (payload_of req) ctx
      → let y = audit_and_verify env.disk req.tx_id req.tx_hash core in
        y.0 ≡ ok true
        → created env.runtime env.uuids (transfer_of env req headers ctx) db ≡ ok (tt, mid)
        → settled env.runtime env.uuids true mid ≡ ok (tt, after)
        → handle_transfer env req headers (idle db) core ≡ (
          success trace (record { id = env.uuids.intent_id; status = authorized }),
          idle after,
          y.1,
        )
  unfolding handle_transfer
  handle_pays db mid after core ctx unique permitted accepted made done =
      rw (intent_approved db ctx unique permitted) (
        core_pays db mid after ctx (audit_and_verify env.disk req.tx_id req.tx_hash core) accepted
          made done)

-- A legitimate transfer is paid: on a ledger whose beneficiaries have distinct identifiers, if the
-- gate lets the request through, its user has whitelisted its target as a compliant beneficiary and
-- its amount is in bounds and not `nan`, the Rust core accepts its hash, its key and the new
-- identifiers are unused, the audit chain takes both records, and no statement fails, then it is
-- answered with the payment as authorized. The ledger then has, besides what it had, exactly that
-- payment, authorized, for the amount and the IBAN of the whitelist, its two events, and those
-- records.
pub permitted_request_pays :
    (a : Arrival) (db : Db) (rows : List AuditRow) (core : Core) (ctx : SafeContext)
    → a.faults ≡ []
    → security_gate (some a.recovery) core "POST" a.random ≡ proceed
    → DistinctBy (λ r. r.id) db.approved_beneficiaries
    → IsPermitted a.env.parse_float db.approved_beneficiaries a.req.role (payload_of a.req) ctx
    → (verified a core).0 ≡ ok true
    → let t = transfer_of a.env a.req a.headers ctx in
      IsFresh a.env.runtime a.env.uuids t db rows
      → serve a db core ≡ (
        answered (
            success
              (or_default "unknown" a.headers.correlation_id)
              (record { id = a.env.uuids.intent_id; status = authorized })),
        with_payment a.env.runtime a.env.uuids t db rows,
        (verified a core).1,
      )
unfolding serve
permitted_request_pays a db rows core ctx sound admitted unique permitted accepted fresh =
    let t = transfer_of a.env a.req a.headers ctx in
    rw
      (
        admitted,
        sound,
        handle_pays a.env a.req a.headers db _ _ core ctx unique permitted accepted
            (fresh-created a.env.runtime a.env.uuids t db rows fresh)
            (fresh-settled a.env.runtime a.env.uuids t db rows fresh),
      )
      refl
