-- ===== src/Engine/Tests.antt =====
-- Two enforced policies and a shadow one on transfers.
use sentinelai_v.Prelude.{String, ◌≡◌, refl, none, some, List, [], ◌∷◌, length}
use sentinelai_v.Prelude.Result.{ok, err, value_error}
use sentinelai_v.Float.{of_ℕ, lt_float, unit}
use sentinelai_v.Engine.{
  PolicyValue, float, str, list, no_values, value_then, Condition, condition, no_list, list_of,
  no_conditions, condition_then, no_not, enforce, shadow, allow, deny, Policy, PolicyConfig,
  ToolEntry, check_atom, check_condition, get_value, contains_value, same_value, run_policies,
  get_policies, evaluate, load_from_file,
}
use sentinelai_v.Engine.Verdict.{evaluate-verdict, judged_if_any}
use sentinelai_v.Engine.Loading.{for_tool, some_if_any, load_from_file-groups}

abbrev atom : String → String → PolicyValue → Condition
atom key operator value =
    condition (some (record { attr_key = key; operator = operator; value = value })) no_list no_list
      no_not

-- country not in [ES, FR] or amount > 5000
abbrev abroad_or_large : Condition
abroad_or_large =
    condition none no_list
      (list_of (
        condition_then
          (atom "country" "not_in" (list (value_then (str "ES") (value_then (str "FR") no_values))))
          (condition_then (atom "amount" "gt" (float (of_ℕ 5000))) no_conditions)))
      no_not

abbrev block : Policy
block = record {
  id = "block_large";
  tool_name = "transfer_funds";
  mode = enforce;
  condition = abroad_or_large;
}

abbrev watch : Policy
watch = record block { id = "watch"; mode = shadow; condition = atom "country" "eq" (str "ES") }

abbrev config : PolicyConfig
config = record { version = "1"; policies = block ∷ watch ∷ [] }

abbrev by_tool : List ToolEntry
by_tool = record { tool = "transfer_funds"; policies = block ∷ watch ∷ [] } ∷ []

abbrev small : List (String × PolicyValue)
small = ("country", str "ES") ∷ ("amount", float (of_ℕ 10)) ∷ []

abbrev large : List (String × PolicyValue)
large = ("country", str "ES") ∷ ("amount", float (of_ℕ 6000)) ∷ []

small_allowed : (evaluate by_tool "1" "transfer_funds" small).decision ≡ allow
unfolding evaluate get_policies run_policies check_condition check_atom get_value contains_value
    same_value lt_float unit
small_allowed = refl

small_watched : (evaluate by_tool "1" "transfer_funds" small).shadow_policy_id ≡ "watch"
unfolding evaluate get_policies run_policies check_condition check_atom get_value contains_value
    same_value lt_float unit
small_watched = refl

large_denied : (evaluate by_tool "1" "transfer_funds" large).decision ≡ deny
unfolding evaluate get_policies run_policies check_condition check_atom get_value contains_value
    same_value lt_float unit
large_denied = refl

evaluate-verdict_example :
    evaluate by_tool "1" "transfer_funds" large
    ≡ judged_if_any large "1" (get_policies "transfer_funds" by_tool)
evaluate-verdict_example = evaluate-verdict large by_tool "1" "transfer_funds"

load_from_file-groups_example :
    ((load_from_file (ok config) []).0 ≡ ok (length config.policies))
    × (get_policies "transfer_funds" (load_from_file (ok config) []).1
        ≡ some_if_any (for_tool "transfer_funds" config.policies))
    × (load_from_file (err value_error) [] ≡ (err value_error, []))
load_from_file-groups_example = load_from_file-groups config value_error "transfer_funds" []
