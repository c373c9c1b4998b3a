-- ===== src/Pipeline.antt =====
-- core/app/context.py, pipeline.py and the stages of stages.py: a request's context, and the stages that
-- it passes through. `sentinel_core.fast_evaluate` is a parameter: lib.rs does not export it.
pub mod Decided
pub mod Explained
mod Tests
use sentinelai_v.Prelude.{
  ℕ, String, ◌≡◌, Bool, true, false, ◌&&◌, ◌*◌, ◌^◌, Option, none, some, List, [], ◌∷◌, ◌++◌, ◌==◌,
  if◌then◌else◌,
}
use sentinelai_v.Prelude.Int.{pos}
use sentinelai_v.Prelude.Result.{Result, ok, err, type_error, value_error, ◌>>=◌}
use sentinelai_v.Float.{Float, finite, of_ℕ, zero_float}
use sentinelai_v.Engine.{
  PolicyValue, float, str, bool, ExecutionMode, enforce, shadow, Decision, allow, EvaluationTrace,
  EvaluationResult,
}
use sentinelai_v.Forensic.{Auditor, audit_event}
use Prim.Native.String

-- A value of the JSON body; a list or an object by whether it has any element.
pub data Json : Type 0 where
  null : Json
  number : Float → Json
  boolean : Bool → Json
  text : String → Json
  container : Bool → Json

pub record Context : Type 0 where
  pub tx_id : String
  pub timestamp : String
  pub raw_payload : List (String × Json)
  pub domain_data : List (String × PolicyValue)
  pub decision : Option String
  pub policy_id : Option String
  pub version : String
  pub traces : List EvaluationTrace
  pub errors : List String
  pub reasons : List String

-- `payload.get(key, default)`
unfoldable pub get_or : String → Json → List (String × Json) → Json
get_or key default [] = default
get_or key default ((k, v) ∷ rest) = if k == key then v else get_or key default rest

-- `d[key] = value`
unfoldable pub set_value :
    String → PolicyValue → List (String × PolicyValue) → List (String × PolicyValue)
set_value key value [] = (key, value) ∷ []
set_value key value ((k, v) ∷ rest) =
    let others = set_value key value rest in if k == key then (k, value) ∷ rest else (k, v) ∷ others

-- 0.6 as a binary64 number
abbrev default_risk : Float
default_risk = finite (pos (5404319552844595 * 2 ^ 1021))

abbrev is_new_tier : Json → Bool
is_new_tier (text s) = s == "new"
is_new_tier v = false

-- Python's `float` of a text and `str` of a value
module _ (parse_float : String → Option Float) (str_of : Json → String) where
  abbrev parsed : Option Float → Result Float
  parsed none = err value_error
  parsed (some a) = ok a

  abbrev pub float_of : Json → Result Float
  float_of null = err type_error
  float_of (number a) = ok a
  float_of (boolean b) = ok (of_ℕ (if b then 1 else 0))
  float_of (text s) = parsed (parse_float s)
  float_of (container full) = err type_error

  -- `ContextFactory.from_http`, with the new identifier and the time
  unfoldable pub from_http : String → String → List (String × Json) → Result Context
  from_http tx_id timestamp payload =
      float_of (get_or "amount" (number zero_float) payload) >>= (λ amount.
        float_of (get_or "risk" (number default_risk) payload) >>= (λ risk. ok (record {
          tx_id = tx_id;
          timestamp = timestamp;
          raw_payload = payload;
          domain_data =
              ("amount", float amount)
              ∷ ("country", str (str_of (get_or "country" (text "unknown") payload)))
              ∷ ("risk_score", float risk)
              ∷ ("is_new", bool (is_new_tier (get_or "user_tier" null payload)))
              ∷ [];
          decision = none;
          policy_id = none;
          version = "unknown";
          traces = [];
          errors = [];
          reasons = [];
        })))

-- The profile of a tier: its "kyc_status" and "account_age_days".
abbrev profile_of : String → String × Float
profile_of tier =
    if tier == "standard"
    then ("verified", of_ℕ 365)
    else if tier == "unverified"
    then ("pending", of_ℕ 2)
    else ("none", zero_float)

-- `mock_db.get(tier, ...)`, which raises for a key that cannot be hashed
abbrev pub find_profile : Json → Result (String × Float)
find_profile (text tier) = ok (profile_of tier)
find_profile (container full) = err type_error
find_profile tier = ok ("none", zero_float)

-- `EnrichmentStage.process`
unfoldable pub enrich : Context → Result Context
enrich ctx = find_profile (get_or "user_tier" (text "unverified") ctx.raw_payload) >>= (λ profile.
    ok (record ctx {
      domain_data =
          set_value "account_age_days" (float profile.1)
            (set_value "kyc_status" (str profile.0) ctx.domain_data);
    }))

abbrev pub decision_text : Decision → String
decision_text allow = "SUCCESS"
decision_text d = "DENIED"

abbrev pub with_result : Context → EvaluationResult → Context
with_result ctx res = record ctx {
  decision = some (decision_text res.decision);
  policy_id = some res.policy_id;
  traces = res.traces;
}

-- `"Enforce" in str(t.mode)`
abbrev pub is_enforce : ExecutionMode → Bool
is_enforce enforce = true
is_enforce shadow = false

abbrev pub block_reason : String → String
block_reason policy_id = Prim.Native.String.◌++◌ "Block by policy: " policy_id

-- The loop of `ExplainStage.process`
unfoldable pub block_reasons : List EvaluationTrace → List String
block_reasons [] = []
block_reasons (t ∷ rest) =
    let others = block_reasons rest in
    if t.matched && is_enforce t.mode then block_reason t.policy_id ∷ others else others

abbrev pub is_denied : Option String → Bool
is_denied none = false
is_denied (some d) = d == "DENIED"

unfoldable pub explain : Context → Context
explain ctx =
    if is_denied ctx.decision
    then record ctx { reasons = ctx.reasons ++ block_reasons ctx.traces }
    else ctx

pub data Stage : Type 0 where
  enrichment rust_evaluation explanation forensic_audit : Stage

-- What the stages import: the engine, SHA-256, and the JSON of an audit event.
pub record Imports : Type 0 where
  pub fast_evaluate : String → List (String × PolicyValue) → Result EvaluationResult
  pub sha256 : String → String
  pub dumps_event : String → Option String → Option String → String

module _ (lib : Imports) where
  abbrev pub event_hash : Context → String
  event_hash ctx = lib.sha256 (lib.dumps_event ctx.tx_id ctx.decision ctx.policy_id)

  abbrev pub audited : Context → Result (Unit {0}) × Auditor → Result Context × Auditor
  audited ctx (ok u, a) = (ok ctx, a)
  audited ctx (err e, a) = (err e, a)

  -- `stage.process(ctx)`
  abbrev pub process : Stage → Context → Auditor → Result Context × Auditor
  process enrichment ctx a = (enrich ctx, a)
  process rust_evaluation ctx a =
      (lib.fast_evaluate "transfer_funds" ctx.domain_data >>= (λ res. ok (with_result ctx res)), a)
  process explanation ctx a = (ok (explain ctx), a)
  process forensic_audit ctx a = audited ctx (audit_event (event_hash ctx) a)

  abbrev pub is_empty : List String → Bool
  is_empty [] = true
  is_empty (e ∷ es) = false

  -- `SentinelPipeline.execute`: it stops at the first stage that raises or that leaves errors.
  unfoldable pub execute : List Stage → Context → Auditor → Result Context × Auditor
  execute [] ctx a = (ok ctx, a)
  execute (stage ∷ stages) ctx a =
      let (result, b) = process stage ctx a in
      elim result [
        | ok next ↦ if is_empty next.errors then execute stages next b else (ok next, b)
        | err e ↦ (err e, b)
      ]
