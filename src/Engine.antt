-- ===== src/Engine.antt =====
-- core/sentinel-core/src/models.rs and engine.rs: policies with nested conditions and their
-- evaluation; store.rs: loading them. Numbers are floats that are only compared.
pub mod Verdict
pub mod Loading
mod Tests
use sentinelai_v.Prelude.{
  ℕ, suc, String, Bool, true, false, ◌&&◌, ◌||◌, not, Option, none, some, List, [], ◌∷◌, ◌++◌, map,
  ◌==◌, if◌then◌else◌, length,
}
use sentinelai_v.Prelude.Result.{Result, ok, err}
use sentinelai_v.Float.{Float, lt_float, le_float}
use text.Mathlib.Text

mutual
  pub data PolicyValue : Type 0 where
    float : Float → PolicyValue
    str : String → PolicyValue
    bool : Bool → PolicyValue
    list : Values → PolicyValue

  -- Vec<PolicyValue>
  pub data Values : Type 0 where
    no_values : Values
    value_then : PolicyValue → Values → Values

pub record AtomCondition : Type 0 where
  pub attr_key : String
  pub operator : String
  pub value : PolicyValue

-- The fields `atom`, `and`, `or` and `not` of a condition, in this order; each may be absent.
mutual
  pub data Condition : Type 0 where
    condition : Option AtomCondition → OptionalList → OptionalList → OptionalNot → Condition

  -- Option<Vec<Condition>>
  pub data OptionalList : Type 0 where
    no_list : OptionalList
    list_of : Conditions → OptionalList

  pub data Conditions : Type 0 where
    no_conditions : Conditions
    condition_then : Condition → Conditions → Conditions

  -- Option<Box<Condition>>
  pub data OptionalNot : Type 0 where
    no_not : OptionalNot
    not_of : Condition → OptionalNot

pub data ExecutionMode : Type 0 where
  enforce shadow : ExecutionMode

pub data Decision : Type 0 where
  allow deny abstain : Decision

pub record EvaluationTrace : Type 0 where
  pub policy_id : String
  pub matched : Bool
  pub mode : ExecutionMode

pub record EvaluationResult : Type 0 where
  pub decision : Decision
  pub policy_id : String
  pub shadow_decision : Decision
  pub shadow_policy_id : String
  pub reason : String
  pub version : String
  pub traces : List EvaluationTrace

pub record Policy : Type 0 where
  pub id : String
  pub tool_name : String
  pub mode : ExecutionMode
  pub condition : Condition

pub record PolicyConfig : Type 0 where
  pub version : String
  pub policies : List Policy

-- An entry of the map from tools to their policies; a map has one entry for a key.
pub record ToolEntry : Type 0 where
  pub tool : String
  pub policies : List Policy

-- The derived equality; a NaN differs from itself.
unfoldable mutual
  pub same_value : PolicyValue → PolicyValue → Bool
  same_value (float a) (float b) = le_float a b && le_float b a
  same_value (str a) (str b) = a == b
  same_value (bool a) (bool b) = (a && b) || (not a && not b)
  same_value (list a) (list b) = same_values a b
  same_value a b = false

  pub same_values : Values → Values → Bool
  same_values no_values no_values = true
  same_values (value_then a xs) (value_then b ys) = same_value a b && same_values xs ys
  same_values xs ys = false

-- `list.contains(val)`
unfoldable pub contains_value : PolicyValue → Values → Bool
contains_value val no_values = false
contains_value val (value_then x xs) = same_value x val || contains_value val xs

-- `context.get(key)`
unfoldable pub get_value : String → List (String × PolicyValue) → Option PolicyValue
get_value key [] = none
get_value key ((k, v) ∷ rest) = if k == key then some v else get_value key rest

abbrev is_found : Option ℕ → Bool
is_found none = false
is_found (some n) = true

-- `a.contains(b)`
abbrev pub contains_text : String → String → Bool
contains_text a b = is_found (text.Mathlib.Text.find? a b)

unfoldable pub check_atom : Option PolicyValue → PolicyValue → String → Bool
check_atom (some (float a)) (float b) operator =
    if operator == "gt" then lt_float b a else if operator == "lt" then lt_float a b else false
check_atom (some (str a)) (str b) operator =
    if operator == "eq" then a == b else if operator == "contains" then contains_text a b else false
check_atom (some val) (list values) operator =
    if operator == "in"
    then contains_value val values
    else if operator == "not_in"
    then not (contains_value val values)
    else false
check_atom actual value operator = false

module _ (context : List (String × PolicyValue)) where
  unfoldable mutual
    pub check_condition : Condition → Bool
    check_condition (condition (some atom) ands ors negated) =
        check_atom (get_value atom.attr_key context) atom.value atom.operator
    check_condition (condition none (list_of conditions) ors negated) = check_all conditions
    check_condition (condition none no_list (list_of conditions) negated) = check_any conditions
    check_condition (condition none no_list no_list (not_of c)) = not (check_condition c)
    check_condition (condition none no_list no_list no_not) = false

    pub check_all : Conditions → Bool
    check_all no_conditions = true
    check_all (condition_then c cs) = check_condition c && check_all cs

    pub check_any : Conditions → Bool
    check_any no_conditions = false
    check_any (condition_then c cs) = check_condition c || check_any cs

-- Where the loop over the policies stands: the decision of each mode with the policy that it comes
-- from, and the traces.
pub record Progress : Type 0 where
  pub enforce_state : Decision × String
  pub shadow_state : Decision × String
  pub traces : List EvaluationTrace

abbrev is_deny : Decision → Bool
is_deny deny = true
is_deny d = false

-- A denial stays; anything else is replaced by the decision of the policy.
abbrev pub next_state : Bool → String → Decision × String → Decision × String
next_state is_match id (d, from) =
    if is_deny d then (d, from) else ((if is_match then deny else allow), id)

abbrev pub trace_of : Bool → Policy → EvaluationTrace
trace_of is_match p = record { policy_id = p.id; matched = is_match; mode = p.mode }

abbrev with_state : ExecutionMode → Bool → String → Progress → Progress
with_state enforce is_match id g = record g {
  enforce_state = next_state is_match id g.enforce_state;
}
with_state shadow is_match id g = record g { shadow_state = next_state is_match id g.shadow_state }

module _ (context : List (String × PolicyValue)) where
  -- The body of the loop.
  abbrev pub step_policy : Policy → Progress → Progress
  step_policy p g =
      let is_match = check_condition context p.condition in
      with_state p.mode is_match p.id (record g { traces = g.traces ++ trace_of is_match p ∷ [] })

  unfoldable pub run_policies : List Policy → Progress → Progress
  run_policies [] g = g
  run_policies (p ∷ ps) g = run_policies ps (step_policy p g)

abbrev pub initial : Progress
initial = record {
  enforce_state = (abstain, "default");
  shadow_state = (abstain, "default");
  traces = [];
}

abbrev pub default_deny : String → String → EvaluationResult
default_deny version reason = record {
  decision = deny;
  policy_id = "system";
  shadow_decision = deny;
  shadow_policy_id = "system";
  reason = reason;
  version = version;
  traces = [];
}

abbrev pub result_of : String → Progress → EvaluationResult
result_of version g = record {
  decision = g.enforce_state.0;
  policy_id = g.enforce_state.1;
  shadow_decision = g.shadow_state.0;
  shadow_policy_id = g.shadow_state.1;
  reason = "Tree evaluation complete";
  version = version;
  traces = g.traces;
}

-- `by_tool.get(tool_name)`
unfoldable pub get_policies : String → List ToolEntry → Option (List Policy)
get_policies tool [] = none
get_policies tool (e ∷ rest) = if e.tool == tool then some e.policies else get_policies tool rest

abbrev evaluate_found :
    String → List (String × PolicyValue) → Option (List Policy) → EvaluationResult
evaluate_found version context none = default_deny version "No policies found"
evaluate_found version context (some policies) =
    result_of version (run_policies context policies initial)

-- `EvaluationEngine::evaluate`
unfoldable pub evaluate :
    List ToolEntry → String → String → List (String × PolicyValue) → EvaluationResult
evaluate by_tool version tool_name context =
    evaluate_found version context (get_policies tool_name by_tool)

-- `map.entry(policy.tool_name.clone()).or_insert_with(Vec::new).push(policy)`
unfoldable pub push_policy : Policy → List ToolEntry → List ToolEntry
push_policy p [] = record { tool = p.tool_name; policies = p ∷ [] } ∷ []
push_policy p (e ∷ rest) =
    let others = push_policy p rest in
    if e.tool == p.tool_name
    then record e { policies = e.policies ++ p ∷ [] } ∷ rest
    else e ∷ others

-- The loop of `load_from_file`.
unfoldable pub collect : List Policy → List ToolEntry → List ToolEntry
collect [] by_tool = by_tool
collect (p ∷ ps) by_tool = collect ps (push_policy p by_tool)

-- `PolicyStore::load_from_file`, from what reading and parsing the file gives: the number of policies
-- and the store's new map, or an error and the map as it was.
unfoldable pub load_from_file : Result PolicyConfig → List ToolEntry → Result ℕ × List ToolEntry
load_from_file (ok config) policies = (ok (length config.policies), collect config.policies [])
load_from_file (err e) policies = (err e, policies)
