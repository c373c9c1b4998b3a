-- ===== src/Scopes/Tests.antt =====
-- The roles of identity/scopes.py, resolved.
use sentinelai_v.Prelude.{String, ◌≡◌, refl, List, [], ◌∷◌}
use sentinelai_v.Scopes.{agent_role, allowed_scopes, resolve_agent_scopes}

abbrev roles : List String
roles = "role:intruder" ∷ "role:wealth_manager" ∷ []

manager_scopes :
    resolve_agent_scopes roles
    ≡ "account:read_balance" ∷ "account:read_history" ∷ "payment:transfer_funds" ∷ []
unfolding resolve_agent_scopes allowed_scopes agent_role
manager_scopes = refl
