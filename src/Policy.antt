-- ===== src/Policy.antt =====
-- execution/policy_engine.py: `PolicyEngine` and the schema of its policies.
pub mod Evaluation
mod Tests
use sentinelai_v.Prelude.{
  String, Bool, true, false, not, Option, none, some, List, [], ◌∷◌, ◌==◌, if◌then◌else◌, find?,
}
use sentinelai_v.Prelude.Result.{Result, ok, err, type_error, ◌>>=◌}
use sentinelai_v.Float.{Float, lt_float, truthy_float}
use sentinelai_v.Enforcer.{AmountValue, missing, number}
use text.Mathlib.Text.{starts_with}

pub record ActionLimits : Type 0 where
  pub max_amount_usd : Option Float

pub record ActionRestrictions : Type 0 where
  pub blocked_prefixes : Option (List String)
  pub require_mfa_over : Option Float

pub record ActionPolicy : Type 0 where
  pub allowed_roles : List String
  pub limits : ActionLimits
  pub restrictions : ActionRestrictions

-- An entry of the dictionary `actions`
pub record ActionEntry : Type 0 where
  pub action : String
  pub policy : ActionPolicy

pub record SecurityPolicy : Type 0 where
  pub version : String
  pub description : String
  pub actions : List ActionEntry

-- `self._policy`
pub record PolicyEngine : Type 0 where
  pub policy : Option SecurityPolicy

-- `context`, at the two keys that are read. A target is given by its `str`.
pub record Context : Type 0 where
  pub amount : AmountValue
  pub target : Option String

-- The reasons, each with what its text names.
pub data Reason : Type 0 where
  policies_not_loaded : Reason
  action_not_defined : String → Reason
  role_not_allowed : String → Reason
  limit_exceeded : Float → Reason
  target_blocked : String → Reason
  allowed : Reason

-- Reading the file and building the schema from it is what `loaded` stands for.
abbrev pub reload_policies : Result SecurityPolicy → PolicyEngine → Result (Unit {0}) × PolicyEngine
reload_policies (ok policy) engine = (ok tt, record engine { policy = some policy })
reload_policies (err e) engine = (err e, engine)

-- `PolicyEngine(policy_path)`, which raises what the reading raises
abbrev pub new_engine : Result SecurityPolicy → Result PolicyEngine
new_engine (ok policy) = ok (reload_policies (ok policy) (record { policy = none })).1
new_engine (err e) = err e

-- `role in allowed_roles`
unfoldable pub is_in : String → List String → Bool
is_in s [] = false
is_in s (x ∷ xs) = if x == s then true else is_in s xs

unfoldable pub get_action : String → List ActionEntry → Option ActionEntry
get_action action actions = find? (λ e. e.action == action) actions

-- `amount > limit`, which raises for what is not a number
abbrev pub exceeds : AmountValue → Float → Result Bool
exceeds (number a) limit = ok (lt_float limit a)
exceeds a limit = err type_error

-- The limit that the amount exceeds. A limit of zero counts as none.
unfoldable pub check_limits : AmountValue → Option Float → Result (Option Float)
check_limits missing limit = ok none
check_limits a none = ok none
check_limits a (some limit) =
    if truthy_float limit
    then exceeds a limit >>= (λ over. ok (if over then some limit else none))
    else ok none

-- The first prefix that the target starts with.
unfoldable pub first_blocked : String → List String → Option String
first_blocked target [] = none
first_blocked target (prefix ∷ rest) =
    if starts_with target prefix then some prefix else first_blocked target rest

-- The loop over the prefixes, which raises for a null in their place.
abbrev pub check_restrictions : String → Option (List String) → Result (Option String)
check_restrictions target none = err type_error
check_restrictions target (some prefixes) = ok (first_blocked target prefixes)

-- `context.get("target", "")`
abbrev pub target_of : Option String → String
target_of none = ""
target_of (some target) = target

abbrev blocked_or_allowed : Option String → Bool × Reason
blocked_or_allowed none = (true, allowed)
blocked_or_allowed (some prefix) = (false, target_blocked prefix)

abbrev after_limits : ActionPolicy → Context → Option Float → Result (Bool × Reason)
after_limits p c (some limit) = ok (false, limit_exceeded limit)
after_limits p c none =
    check_restrictions (target_of c.target) p.restrictions.blocked_prefixes
    >>= (λ b. ok (blocked_or_allowed b))

unfoldable pub evaluate_action : ActionPolicy → String → Context → Result (Bool × Reason)
evaluate_action p role c =
    if not (is_in role p.allowed_roles)
    then ok (false, role_not_allowed role)
    else check_limits c.amount p.limits.max_amount_usd >>= (λ over. after_limits p c over)

abbrev evaluate_entry : String → String → Context → Option ActionEntry → Result (Bool × Reason)
evaluate_entry action role c none = ok (false, action_not_defined action)
evaluate_entry action role c (some e) = evaluate_action e.policy role c

abbrev evaluate_loaded : Option SecurityPolicy → String → String → Context → Result (Bool × Reason)
evaluate_loaded none action role c = ok (false, policies_not_loaded)
evaluate_loaded (some p) action role c = evaluate_entry action role c (get_action action p.actions)

unfoldable pub evaluate : PolicyEngine → String → String → Context → Result (Bool × Reason)
evaluate engine action role c = evaluate_loaded engine.policy action role c
