-- ===== src/Gateway/Handler.antt =====
-- `handle_transfer` of core/gateway.py: the enforcer, the Rust core and the transaction manager, on
-- one connection that is closed at the end.
use sentinelai_v.Prelude.{String, Bool, true, false, Option, none, some, [], if◌then◌else◌}
use sentinelai_v.Prelude.Result.{Result, ok, err, Exception}
use sentinelai_v.Float.{Float}
use sentinelai_v.Enforcer.{
  AiPayload, number, SafeContext, Reason, Verdict, approved, rejected, reads_table,
  validate_transfer_intent,
}
use sentinelai_v.Connection.{Conn, Exec, ◌>>=◌, read}
use sentinelai_v.Transaction.{Runtime, Uuids, Transfer, Reply, authorize_transfer}
use sentinelai_v.RustCore.{Core, DiskFaults, audit_and_verify}

-- The body of the request, as pydantic hands it over.
pub record TransferRequest : Type 0 where
  pub tx_id : String
  pub tx_hash : String
  pub role : String
  pub amount : Float
  pub target : String

-- The two headers that are read.
pub record Headers : Type 0 where
  pub correlation_id : Option String
  pub idempotency_key : Option String

pub data Response : Type 0 where
  -- 403 SECURITY_INTERVENTION
  intervention : Reason → Response
  -- 400 INTEGRITY_MISMATCH
  integrity_mismatch : Response
  -- 200, with the trace and the payment
  success : String → Reply → Response
  -- an exception that reaches the framework
  server_error : Exception → Response

-- What the program imports or meets while it handles a request.
pub record Surroundings : Type 0 where
  pub runtime : Runtime
  pub parse_float : String → Option Float
  pub uuids : Uuids
  pub disk : DiskFaults

-- `headers.get(name, default)`
abbrev pub or_default : String → Option String → String
or_default d none = d
or_default d (some v) = v

abbrev pub payload_of : TransferRequest → AiPayload
payload_of req = record { target_beneficiary_id = some req.target; amount = number req.amount }

abbrev lift : {A : Type 0} → Result A → Exec A
lift r c = (r, c)

-- `close()` drops what was not committed.
abbrev pub close : Conn → Conn
close c = record c { working = c.committed; in_transaction = false }

module _ (env : Surroundings) where
  -- `validate_transfer_intent` on the connection: one `SELECT`, if the checks before it pass.
  unfoldable pub validate_intent : String → AiPayload → Exec Verdict
  validate_intent user_id payload c =
      if reads_table env.parse_float payload
      then (do
        rows ← read (λ db. db.approved_beneficiaries)
        lift (validate_transfer_intent env.parse_float rows user_id payload))
          c
      else (validate_transfer_intent env.parse_float [] user_id payload, c)

  module _ (req : TransferRequest) (headers : Headers) where
    abbrev pub transfer_of : SafeContext → Transfer
    transfer_of context = record {
      idempotency_key = or_default req.tx_id headers.idempotency_key;
      user_id = context.user_id;
      amount = context.amount;
      target = context.target_iban;
    }

    abbrev pub paid_response : Result Reply → Response
    paid_response (ok payment) = success (or_default "unknown" headers.correlation_id) payment
    paid_response (err e) = server_error e

    -- From the answer of the Rust core on.
    abbrev pub after_core : SafeContext → Conn → Result Bool × Core → Response × Conn × Core
    after_core context c (err e, core) = (server_error e, close c, core)
    after_core context c (ok false, core) = (integrity_mismatch, close c, core)
    after_core context c (ok true, core) =
        let (payment, d) = authorize_transfer env.runtime env.uuids (transfer_of context) c in
        (paid_response payment, close d, core)

    -- From the verdict of the enforcer on.
    abbrev pub after_verdict : Core → Result Verdict × Conn → Response × Conn × Core
    after_verdict core (err e, c) = (server_error e, close c, core)
    after_verdict core (ok (rejected reason), c) = (intervention reason, close c, core)
    after_verdict core (ok (approved context), c) =
        after_core context c (audit_and_verify env.disk req.tx_id req.tx_hash core)

    unfoldable pub handle_transfer : Conn → Core → Response × Conn × Core
    handle_transfer c core = after_verdict core (validate_intent req.role (payload_of req) c)
