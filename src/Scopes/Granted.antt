-- ===== src/Scopes/Granted.antt =====
-- Which scopes `resolve_agent_scopes` of identity/scopes.py gives.
use sentinelai_v.Prelude.{
  String, ◌≡◌, ◌↔◌, ◌⊎◌, refl, sym, ◌∙◌, ap, subst, inl, inr, Bool-cases, none, some, Option-cases,
  List, [], ◌∷◌, ◌++◌, map, ◌==◌, eq_iff, Member, Member-append, arith,
}
use mathlib.Core.Option.{some-injective}
use sentinelai_v.Scopes.{
  AgentScope, read_balance, read_history, transfer_funds, AgentRole, basic_assistant,
  wealth_manager, scope_value, role_value, role_permissions, agent_role, permissions_of,
  allowed_scopes, resolve_agent_scopes,
}

-- One of the roles gives the scope.
abbrev pub IsGranted : List String → AgentScope → Type 0
IsGranted roles scope =
    (role : AgentRole) × Member (role_value role) roles × Member scope (role_permissions role)

agent_role-value : (role : AgentRole) → agent_role (role_value role) ≡ some role
unfolding agent_role
agent_role-value basic_assistant = refl
agent_role-value wealth_manager = refl

agent_role-known : (s : String) (role : AgentRole) → agent_role s ≡ some role → role_value role ≡ s
unfolding agent_role
agent_role-known s role h = elim (Bool-cases (role_value basic_assistant == s)) [
  | inl basic ↦
      let same : basic_assistant ≡ role = some-injective _ _ (rw basic at h) in
      ap role_value (sym same) ∙ (eq_iff (role_value basic_assistant) s).0 basic
  | inr other ↦ elim (Bool-cases (role_value wealth_manager == s)) [
    | inl manager ↦
        let same : wealth_manager ≡ role = some-injective _ _ (rw (other, manager) at h) in
        ap role_value (sym same) ∙ (eq_iff (role_value wealth_manager) s).0 manager
    | inr unknown ↦ (let bad : none ≡ some role = rw (other, unknown) at h in cc bad)
  ]
]

Member-split :
    (a : AgentScope) (xs ys : List AgentScope) → Member a (xs ++ ys) → Member a xs ⊎ Member a ys
Member-split a [] ys m = inr m
Member-split a (x ∷ xs) ys (inl e) = inl (inl e)
Member-split a (x ∷ xs) ys (inr m) = elim (Member-split a xs ys m) [
  | inl left ↦ inl (inr left)
  | inr right ↦ inr right
]

Member-later : (a : AgentScope) (xs ys : List AgentScope) → Member a ys → Member a (xs ++ ys)
Member-later a [] ys m = m
Member-later a (x ∷ xs) ys m = inr (Member-later a xs ys m)

permissions_of-role :
    (scope : AgentScope) (s : String)
    → Member scope (permissions_of (agent_role s))
    → (role : AgentRole) × (role_value role ≡ s) × Member scope (role_permissions role)
permissions_of-role scope s m = elim (Option-cases (agent_role s)) [
  | inl unknown ↦ absurd (subst (λ r. Member scope (permissions_of r)) unknown m)
  | inr (role, known) ↦
      (role, agent_role-known s role known, subst (λ r. Member scope (permissions_of r)) known m)
]

allowed-IsGranted :
    (scope : AgentScope) (roles : List String)
    → Member scope (allowed_scopes roles)
    → IsGranted roles scope
unfolding allowed_scopes
allowed-IsGranted scope [] m = absurd m
allowed-IsGranted scope (s ∷ roles) m =
    elim (Member-split scope (permissions_of (agent_role s)) (allowed_scopes roles) m) [
      | inl here ↦
          let (role, same, gives) = permissions_of-role scope s here in (role, inl same, gives)
      | inr later ↦
          let (role, listed, gives) = allowed-IsGranted scope roles later in
          (role, inr listed, gives)
    ]

IsGranted-allowed :
    (scope : AgentScope) (roles : List String)
    → IsGranted roles scope
    → Member scope (allowed_scopes roles)
unfolding allowed_scopes
IsGranted-allowed scope [] (role, m, gives) = absurd m
IsGranted-allowed scope (s ∷ roles) (role, inl same, gives) =
    Member-append scope (permissions_of (agent_role s)) (allowed_scopes roles) (
      subst (λ r. Member scope (permissions_of r))
        (sym (agent_role-value role) ∙ ap agent_role same) gives)
IsGranted-allowed scope (s ∷ roles) (role, inr listed, gives) =
    Member-later scope (permissions_of (agent_role s)) (allowed_scopes roles)
      (IsGranted-allowed scope roles (role, listed, gives))

Member-map_inv :
    (s : String) (xs : List AgentScope)
    → Member s (map scope_value xs)
    → (scope : AgentScope) × (s ≡ scope_value scope) × Member scope xs
Member-map_inv s [] m = absurd m
Member-map_inv s (x ∷ xs) (inl e) = (x, e, inl refl)
Member-map_inv s (x ∷ xs) (inr m) =
    let (scope, same, listed) = Member-map_inv s xs m in (scope, same, inr listed)

Member-values :
    (scope : AgentScope) (xs : List AgentScope)
    → Member scope xs
    → Member (scope_value scope) (map scope_value xs)
Member-values scope [] m = absurd m
Member-values scope (x ∷ xs) (inl e) = inl (ap scope_value e)
Member-values scope (x ∷ xs) (inr m) = inr (Member-values scope xs m)

-- The resolved set holds a text exactly if it is the value of a scope that the permissions of one
-- of the given roles hold. A text that names no role gives nothing.
resolve-Member_iff :
    (s : String) (roles : List String)
    → Member s (resolve_agent_scopes roles)
      ↔ ((scope : AgentScope) × (s ≡ scope_value scope) × IsGranted roles scope)
unfolding resolve_agent_scopes
resolve-Member_iff s roles = (
  (λ m.
      let (scope, same, listed) = Member-map_inv s (allowed_scopes roles) m in
      (scope, same, allowed-IsGranted scope roles listed)),
  λ (scope, same, granted).
      subst (λ t. Member t (map scope_value (allowed_scopes roles))) (sym same)
        (Member-values scope (allowed_scopes roles) (IsGranted-allowed scope roles granted)),
)

transfer_only :
    (scope : AgentScope) → scope_value transfer_funds ≡ scope_value scope → scope ≡ transfer_funds
transfer_only read_balance e =
    ground (arith, eq_iff (scope_value transfer_funds) (scope_value read_balance))
transfer_only read_history e =
    ground (arith, eq_iff (scope_value transfer_funds) (scope_value read_history))
transfer_only transfer_funds e = refl

basic_no_transfer : Member transfer_funds (role_permissions basic_assistant) → ⊥
basic_no_transfer (inl e) = cc
basic_no_transfer (inr (inl e)) = cc
basic_no_transfer (inr (inr m)) = absurd m

-- An agent may transfer funds exactly if it has the role of a wealth manager.
transfer_needs_manager :
    (roles : List String)
    → Member "payment:transfer_funds" (resolve_agent_scopes roles)
      ↔ Member "role:wealth_manager" roles
transfer_needs_manager roles = (
  (λ m.
      let (scope, same, granted) = (resolve-Member_iff "payment:transfer_funds" roles).0 m in
      by_manager (subst (IsGranted roles) (transfer_only scope same) granted)),
  λ m.
      (resolve-Member_iff "payment:transfer_funds" roles).1
        (transfer_funds, refl, (wealth_manager, m, inr (inr (inl refl)))),
)
  where
    by_manager : IsGranted roles transfer_funds → Member "role:wealth_manager" roles
    by_manager (basic_assistant, m, gives) = absurd (basic_no_transfer gives)
    by_manager (wealth_manager, m, gives) = m
