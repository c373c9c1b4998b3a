-- ===== src/Scopes.antt =====
-- identity/scopes.py: the scopes that the roles of an agent give it.
pub mod Granted
mod Tests
use sentinelai_v.Prelude.{
  String, Bool, true, false, Option, none, some, List, [], ◌∷◌, ◌++◌, map, ◌==◌, if◌then◌else◌,
}

pub data AgentScope : Type 0 where
  read_balance read_history transfer_funds : AgentScope

pub data AgentRole : Type 0 where
  basic_assistant wealth_manager : AgentRole

-- `scope.value`
abbrev pub scope_value : AgentScope → String
scope_value read_balance = "account:read_balance"
scope_value read_history = "account:read_history"
scope_value transfer_funds = "payment:transfer_funds"

abbrev pub role_value : AgentRole → String
role_value basic_assistant = "role:basic_assistant"
role_value wealth_manager = "role:wealth_manager"

-- ROLE_PERMISSIONS
abbrev pub role_permissions : AgentRole → List AgentScope
role_permissions basic_assistant = read_balance ∷ read_history ∷ []
role_permissions wealth_manager = read_balance ∷ read_history ∷ transfer_funds ∷ []

-- `AgentRole(role_str)`, where `none` is the `ValueError`
unfoldable pub agent_role : String → Option AgentRole
agent_role role_str =
    if role_value basic_assistant == role_str
    then some basic_assistant
    else if role_value wealth_manager == role_str
    then some wealth_manager
    else none

abbrev pub permissions_of : Option AgentRole → List AgentScope
permissions_of none = []
permissions_of (some role) = role_permissions role

-- A set is the list of its elements, in which an element may stand more than once.
unfoldable pub allowed_scopes : List String → List AgentScope
allowed_scopes [] = []
allowed_scopes (role_str ∷ roles) = permissions_of (agent_role role_str) ++ allowed_scopes roles

unfoldable pub resolve_agent_scopes : List String → List String
resolve_agent_scopes roles = map scope_value (allowed_scopes roles)
