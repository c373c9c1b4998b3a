-- ===== src/Policy/Evaluation.antt =====
-- What `PolicyEngine.evaluate` of execution/policy_engine.py allows.
use sentinelai_v.Prelude.{
  String, ◌≡◌, refl, sym, ◌∙◌, ◌↔◌, ◌⊎◌, inl, inr, true, false, Bool-cases, Option, none, some,
  Option-cases, List, [], ◌∷◌, ◌==◌, eq_iff, eq_refl, All, Member, DistinctBy, find?-Member,
  find?-unique, arith,
}
use sentinelai_v.Prelude.Result.{ok, Result-cases}
use sentinelai_v.Float.{Float, lt_float, truthy_float, zero_float}
use sentinelai_v.Enforcer.{AmountValue, missing, number, container}
use sentinelai_v.Policy.{
  ActionPolicy, ActionEntry, SecurityPolicy, PolicyEngine, Context, allowed, policies_not_loaded,
  is_in, get_action, check_limits, first_blocked, target_of, evaluate_action, evaluate,
}
use text.Mathlib.Text.{starts_with}

-- What an amount must satisfy under a limit: there is none, or it is zero, or it is a number that
-- is not over it.
abbrev pub IsWithin : AmountValue → Option Float → Type 0
IsWithin missing limit = Unit
IsWithin a none = Unit
IsWithin (number x) (some limit) = (truthy_float limit ≡ false) ⊎ (lt_float limit x ≡ false)
IsWithin a (some limit) = truthy_float limit ≡ false

-- What the policy of an action permits.
pub record IsAllowed (p : ActionPolicy) (role : String) (c : Context) : Type 0 where
  pub has_role : Member role p.allowed_roles
  pub within : IsWithin c.amount p.limits.max_amount_usd
  pub prefixes : List String
  pub listed : p.restrictions.blocked_prefixes ≡ some prefixes
  pub free : All (λ prefix. starts_with (target_of c.target) prefix ≡ false) prefixes

is_in-Member : (s : String) (xs : List String) → (is_in s xs ≡ true) ↔ Member s xs
unfolding is_in
is_in-Member s [] = ((λ h. cc), (λ m. absurd m))
is_in-Member s (x ∷ xs) = elim (Bool-cases (x == s)) [
  | inl hit ↦ ((λ h. inl (sym ((eq_iff x s).0 hit))), (λ m. rw hit))
  | inr miss ↦ (
    (λ h. inr ((is_in-Member s xs).0 (rw miss at h))),
    λ m. elim m [
      | inl e ↦ absurd (ground (arith, e, eq_iff x s))
      | inr later ↦ rw miss ((is_in-Member s xs).1 later)
    ],
  )
]

first_blocked-All :
    (target : String) (prefixes : List String)
    → (first_blocked target prefixes ≡ none)
      ↔ All (λ prefix. starts_with target prefix ≡ false) prefixes
unfolding first_blocked
first_blocked-All target [] = ((λ h. tt), (λ h. refl))
first_blocked-All target (prefix ∷ rest) = elim (Bool-cases (starts_with target prefix)) [
  | inl hit ↦ ((λ h. ground arith), (λ h. ground arith))
  | inr miss ↦ (
    (λ h. (miss, (first_blocked-All target rest).0 (rw miss at h))),
    (λ h. rw miss ((first_blocked-All target rest).1 h.1)),
  )
]

check_limits-IsWithin :
    (a : AmountValue) (limit : Option Float) → (check_limits a limit ≡ ok none) ↔ IsWithin a limit
unfolding check_limits
check_limits-IsWithin missing limit = ((λ h. tt), (λ h. refl))
check_limits-IsWithin (number x) none = ((λ h. tt), (λ h. refl))
check_limits-IsWithin (AmountValue.text s) none = ((λ h. tt), (λ h. refl))
check_limits-IsWithin (container b) none = ((λ h. tt), (λ h. refl))
check_limits-IsWithin (number x) (some limit) = elim (Bool-cases (truthy_float limit)) [
  | inr zero_limit ↦ ((λ h. inl zero_limit), (λ h. rw zero_limit))
  | inl counts ↦ elim (Bool-cases (lt_float limit x)) [
    | inl over ↦ ((λ h. ground arith), (λ h. ground arith))
    | inr within ↦ ((λ h. inr within), (λ h. rw (counts, within)))
  ]
]
check_limits-IsWithin (AmountValue.text s) (some limit) = ((λ h. ground arith), (λ h. rw h))
check_limits-IsWithin (container b) (some limit) = ((λ h. ground arith), (λ h. rw h))

-- `some` of the entry of an action, where no two entries have one action.
get_action-Member :
    (actions : List ActionEntry) (e : ActionEntry)
    → DistinctBy (λ x. x.action) actions
    → Member e actions
    → get_action e.action actions ≡ some e
unfolding get_action
get_action-Member actions e unique m =
    find?-unique (λ x. x.action == e.action) (λ x. x.action) actions e unique m (eq_refl e.action)
      (λ y h. (eq_iff y.action e.action).0 h)

get_action-found :
    (actions : List ActionEntry) (action : String) (e : ActionEntry)
    → get_action action actions ≡ some e
    → Member e actions × (e.action ≡ action)
unfolding get_action
get_action-found actions action e found =
    let (m, same) = find?-Member (λ x. x.action == action) actions found in
    (m, (eq_iff e.action action).0 same)

check_limits-zero : (a : AmountValue) → check_limits a (some zero_float) ≡ ok none
unfolding check_limits truthy_float
check_limits-zero missing = refl
check_limits-zero (number x) = refl
check_limits-zero (AmountValue.text s) = refl
check_limits-zero (container b) = refl

check_limits-none : (a : AmountValue) → check_limits a none ≡ ok none
unfolding check_limits
check_limits-none missing = refl
check_limits-none (number x) = refl
check_limits-none (AmountValue.text s) = refl
check_limits-none (container b) = refl

module _ (p : ActionPolicy) (role : String) (c : Context) where
  allowed-IsAllowed : evaluate_action p role c ≡ ok (true, allowed) → IsAllowed p role c
  unfolding evaluate_action
  allowed-IsAllowed h = elim (Bool-cases (is_in role p.allowed_roles)) [
    | inr stranger ↦ ground arith
    | inl known ↦ elim (Result-cases (check_limits c.amount p.limits.max_amount_usd)) [
      | inr (e, raised) ↦ ground arith
      | inl (none, within) ↦ elim (Option-cases p.restrictions.blocked_prefixes) [
        | inl null ↦ ground arith
        | inr (prefixes, listed) ↦
            elim (Option-cases (first_blocked (target_of c.target) prefixes)) [
              | inr (prefix, blocked) ↦ ground arith
              | inl free ↦ record {
                has_role = (is_in-Member role p.allowed_roles).0 known;
                within = (check_limits-IsWithin c.amount p.limits.max_amount_usd).0 within;
                prefixes = prefixes;
                listed = listed;
                free = (first_blocked-All (target_of c.target) prefixes).0 free;
              }
            ]
      ]
      | inl (some limit, over) ↦ ground arith
    ]
  ]

  IsAllowed-allowed : IsAllowed p role c → evaluate_action p role c ≡ ok (true, allowed)
  unfolding evaluate_action
  IsAllowed-allowed h = rw (
    (is_in-Member role p.allowed_roles).1 h.has_role,
    (check_limits-IsWithin c.amount p.limits.max_amount_usd).1 h.within,
    h.listed,
    (first_blocked-All (target_of c.target) h.prefixes).1 h.free,
  )

-- What a loaded policy permits: it has an entry for the action, which permits it.
abbrev pub Permits : SecurityPolicy → String → String → Context → Type 0
Permits policy action role c =
    (e : ActionEntry) × Member e policy.actions × (e.action ≡ action) × IsAllowed e.policy role c

loaded-allowed_iff :
    (engine : PolicyEngine) (policy : SecurityPolicy) (action role : String) (c : Context)
    → engine.policy ≡ some policy
    → DistinctBy (λ e. e.action) policy.actions
    → (evaluate engine action role c ≡ ok (true, allowed)) ↔ Permits policy action role c
unfolding evaluate
loaded-allowed_iff engine policy action role c loaded unique = (
  (λ h. elim (Option-cases (get_action action policy.actions)) [
    | inl undefined ↦ ground (arith, loaded)
    | inr (e, found) ↦
        let h' : evaluate_action e.policy role c ≡ ok (true, allowed) = rw (loaded, found) at h in
        let (m, same) = get_action-found policy.actions action e found in
        (e, m, same, allowed-IsAllowed e.policy role c h')
  ]),
  λ (e, m, same, permitted). rw (
    loaded,
    ← same,
    get_action-Member policy.actions e unique m,
    IsAllowed-allowed e.policy role c permitted,
  ),
)

unloaded_refuses :
    (engine : PolicyEngine) (action role : String) (c : Context)
    → engine.policy ≡ none
    → evaluate engine action role c ≡ ok (false, policies_not_loaded)
unfolding evaluate
unloaded_refuses engine action role c unloaded = rw unloaded refl

-- Exactly when does an engine answer that an action is allowed: policies are loaded, they have an
-- entry for the action, the role is one of its roles, the amount is missing, or the policy has no
-- limit or one of zero, or the amount is a number that is not over the limit, and the list of
-- prefixes is not null and the target starts with none of them. The actions of a loaded policy are
-- taken to be distinct, as a dictionary's keys are.
pub evaluate-allowed_iff :
    (engine : PolicyEngine) (action role : String) (c : Context)
    → ((p : SecurityPolicy) → engine.policy ≡ some p → DistinctBy (λ e. e.action) p.actions)
    → (evaluate engine action role c ≡ ok (true, allowed))
      ↔ ((policy : SecurityPolicy) × (engine.policy ≡ some policy) × Permits policy action role c)
evaluate-allowed_iff engine action role c unique = elim (Option-cases engine.policy) [
  | inl unloaded ↦ (
    (λ h.
        let bad : ok (false, policies_not_loaded) ≡ ok (true, allowed) =
          sym (unloaded_refuses engine action role c unloaded) ∙ h in
        ground (arith, bad)),
    λ (policy, loaded, permits). (let bad : none ≡ some policy = sym unloaded ∙ loaded in cc bad),
  )
  | inr (policy, loaded) ↦ (
    (λ h. (
      policy,
      loaded,
      (loaded-allowed_iff engine policy action role c loaded (unique policy loaded)).0 h,
    )),
    λ (policy', loaded', permits).
        (loaded-allowed_iff engine policy' action role c loaded' (unique policy' loaded')).1
          permits,
  )
]

-- A limit of zero is no limit: the answer for any role, amount and target is the one that the
-- policy without a limit gives.
zero_limit_ignored :
    (p : ActionPolicy) (role : String) (c : Context)
    → p.limits.max_amount_usd ≡ some zero_float
    → evaluate_action p role c
      ≡ evaluate_action (record p { limits = record { max_amount_usd = none } }) role c
unfolding evaluate_action
zero_limit_ignored p role c h = rw (h, check_limits-zero c.amount, check_limits-none c.amount)
