-- ===== src/Policy/Tests.antt =====
-- The rules of config/policies.yaml, run.
use sentinelai_v.Prelude.{String, ◌≡◌, refl, true, false, none, some, [], ◌∷◌, eq_iff, arith}
use sentinelai_v.Prelude.Result.{ok}
use sentinelai_v.Float.{Float, of_ℕ, unit, lt_float, truthy_float}
use sentinelai_v.Enforcer.{number}
use sentinelai_v.Policy.{
  ActionPolicy, SecurityPolicy, PolicyEngine, Context, allowed, role_not_allowed, limit_exceeded,
  target_blocked, is_in, get_action, check_limits, first_blocked, evaluate_action, evaluate,
}
use mathlib.Core.Option.{some-injective}
use sentinelai_v.Prelude.{◌↔◌, subst, DistinctBy, ◌≢◌}
use sentinelai_v.Policy.Evaluation.{Permits, evaluate-allowed_iff}

abbrev transfer_funds : ActionPolicy
transfer_funds = record {
  allowed_roles = "USER" ∷ "SERVICE" ∷ "ADMIN" ∷ [];
  limits = record { max_amount_usd = some (of_ℕ 5000) };
  restrictions = record {
    blocked_prefixes = some ("CRYPTO_" ∷ "DARK_" ∷ "MIXER_" ∷ []);
    require_mfa_over = some (of_ℕ 1000);
  };
}

abbrev system_reboot : ActionPolicy
system_reboot = record {
  allowed_roles = "ADMIN" ∷ [];
  limits = record { max_amount_usd = none };
  restrictions = record { blocked_prefixes = some []; require_mfa_over = none };
}

abbrev policies : SecurityPolicy
policies = record {
  version = "1.0.0";
  description = "Core Sentinel Access Policies";
  actions =
      record { action = "transfer_funds"; policy = transfer_funds }
      ∷ record { action = "system_reboot"; policy = system_reboot }
      ∷ [];
}

abbrev engine : PolicyEngine
engine = record { policy = some policies }

abbrev context : Float → String → Context
context amount target = record { amount = number amount; target = some target }

in_limit : evaluate engine "transfer_funds" "USER" (context (of_ℕ 4999) "Bank") ≡ ok (true, allowed)
unfolding evaluate evaluate_action get_action is_in check_limits first_blocked lt_float truthy_float
    unit
in_limit = refl

over_limit :
    evaluate engine "transfer_funds" "USER" (context (of_ℕ 6000) "Bank")
    ≡ ok (false, limit_exceeded (of_ℕ 5000))
unfolding evaluate evaluate_action get_action is_in check_limits first_blocked lt_float truthy_float
    unit
over_limit = refl

blocked :
    evaluate engine "transfer_funds" "USER" (context (of_ℕ 100) "CRYPTO_WALLET")
    ≡ ok (false, target_blocked "CRYPTO_")
unfolding evaluate evaluate_action get_action is_in check_limits first_blocked lt_float truthy_float
    unit
blocked = refl

hacker :
    evaluate engine "transfer_funds" "HACKER" (context (of_ℕ 100) "Bank")
    ≡ ok (false, role_not_allowed "HACKER")
unfolding evaluate evaluate_action get_action is_in
hacker = refl

abbrev reboot : String
reboot = "system_reboot"

other_action : reboot ≢ "transfer_funds"
other_action e = ground (arith, eq_iff reboot "transfer_funds")

loaded_distinct :
    (p : SecurityPolicy) → engine.policy ≡ some p → DistinctBy (λ e. e.action) p.actions
loaded_distinct p loaded =
    subst (λ (q : SecurityPolicy). DistinctBy (λ e. e.action) q.actions)
      (some-injective policies p loaded) ((other_action, tt), (tt, tt))

evaluate-allowed_iff_example :
    (evaluate engine "transfer_funds" "USER" (context (of_ℕ 4999) "Bank") ≡ ok (true, allowed)) ↔ (
      (policy : SecurityPolicy) × (engine.policy ≡ some policy)
      × Permits policy "transfer_funds" "USER" (context (of_ℕ 4999) "Bank"))
evaluate-allowed_iff_example =
    evaluate-allowed_iff engine "transfer_funds" "USER" (context (of_ℕ 4999) "Bank") loaded_distinct
