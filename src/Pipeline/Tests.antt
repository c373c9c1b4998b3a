-- ===== src/Pipeline/Tests.antt =====
-- A transfer by a standard user through the four stages, with the engine of core/sentinel-core and one
-- enforced policy. The digest is the identity.
use sentinelai_v.Prelude.{String, ◌≡◌, refl, Option, none, some, List, [], ◌∷◌, arith}
use sentinelai_v.Prelude.Result.{ok, err, type_error}
use sentinelai_v.Float.{Float, of_ℕ, lt_float, unit}
use sentinelai_v.Engine.{
  PolicyValue, float, condition, no_list, no_not, enforce, Policy, ToolEntry, evaluate,
  get_policies, run_policies, check_condition, check_atom, get_value,
}
use sentinelai_v.Forensic.{audit_event}
use sentinelai_v.Forensic.Order.{empty_auditor}
use sentinelai_v.Pipeline.{
  Json, null, number, text, Context, from_http, enrich, explain, with_result, block_reasons,
  Imports, execute, get_or, set_value,
}
use sentinelai_v.Pipeline.Decided.{all_stages, EndsAs, pipeline-EndsAs}
use sentinelai_v.Pipeline.Explained.{reasons_for, policies_of, explain-reasons}
use Prim.Native.String

abbrev block : Policy
block = record {
  id = "block_large";
  tool_name = "transfer_funds";
  mode = enforce;
  condition =
      condition (some (record { attr_key = "amount"; operator = "gt"; value = float (of_ℕ 5000) }))
        no_list no_list no_not;
}

abbrev by_tool : List ToolEntry
by_tool = record { tool = "transfer_funds"; policies = block ∷ [] } ∷ []

abbrev or_empty : Option String → String
or_empty none = ""
or_empty (some s) = s

abbrev lib : Imports
lib = record {
  fast_evaluate = λ tool context. ok (evaluate by_tool "1" tool context);
  sha256 = λ s. s;
  dumps_event = λ tx_id decision policy_id. String.◌++◌ tx_id (or_empty decision);
}

abbrev payload : List (String × Json)
payload = ("amount", number (of_ℕ 6000)) ∷ ("user_tier", text "standard") ∷ []

abbrev start : Context
start = record {
  tx_id = "t1";
  timestamp = "now";
  raw_payload = payload;
  domain_data = ("amount", float (of_ℕ 6000)) ∷ [];
  decision = none;
  policy_id = none;
  version = "unknown";
  traces = [];
  errors = [];
  reasons = [];
}

abbrev enriched : Context
enriched = record start {
  domain_data =
      ("amount", float (of_ℕ 6000))
      ∷ ("kyc_status", PolicyValue.str "verified")
      ∷ ("account_age_days", float (of_ℕ 365))
      ∷ [];
}

enrichment_of_tier : enrich start ≡ ok enriched
unfolding enrich get_or set_value
enrichment_of_tier = refl

denied_with_reason : (execute lib all_stages start empty_auditor).1.buffer ≡ "t1DENIED" ∷ []
unfolding execute enrich get_or set_value explain block_reasons evaluate get_policies run_policies
    check_condition check_atom get_value lt_float unit audit_event
denied_with_reason = refl

abbrev no_parse : String → Option Float
no_parse s = none

abbrev always : Json → String
always v = "ES"

-- A null amount raises.
null_amount : from_http no_parse always "t1" "now" (("amount", null) ∷ []) ≡ err type_error
unfolding from_http get_or
null_amount = refl

pipeline-EndsAs_example :
    EndsAs lib "t1" empty_auditor
      (ok (evaluate by_tool "1" "transfer_funds" enriched.domain_data))
      (execute lib all_stages start empty_auditor)
pipeline-EndsAs_example =
    pipeline-EndsAs lib start enriched empty_auditor (record { short = omega arith; batches = tt })
      enrichment_of_tier refl

explain-reasons_example :
    (explain
      (with_result enriched (evaluate by_tool "1" "transfer_funds" enriched.domain_data))).reasons
    ≡ reasons_for enriched.domain_data (policies_of (get_policies "transfer_funds" by_tool))
explain-reasons_example = explain-reasons enriched.domain_data by_tool "1" "transfer_funds" enriched
