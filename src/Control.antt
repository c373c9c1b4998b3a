-- ===== src/Control.antt =====
-- main.py: the agent control plane; core/sub_manager.py, which imports a function once and keeps it;
-- security/pii_scrub.py, which the control plane imports through it. `re`, the importer and the
-- firewall are parameters.
pub mod Tools
pub mod Answers
pub mod Shield
mod Tests
use sentinelai_v.Prelude.{
  String, Bool, true, false, Option, none, some, List, [], ◌∷◌, ◌==◌, map, if◌then◌else◌,
}
use sentinelai_v.Prelude.Result.{Result, ok, err, Exception}
use Prim.Native.String

-- COMPILED_PATTERNS: the labels and what is compiled for them
abbrev pub compiled_patterns : List (String × String)
compiled_patterns =
    ("IBAN", "[A-Z]{2}\\d{2}[A-Z0-9]{11,30}")
    ∷ ("CARD", "\\b(?:\\d[ -]?){13,16}\\b")
    ∷ ("EMAIL", "[\\w\\.-]+@[\\w\\.-]+\\.[a-z]{2,}")
    ∷ []

-- `f"[{label}_REDACTED]"`
abbrev pub redaction : String → String
redaction label = String.◌++◌ "[" (String.◌++◌ label "_REDACTED]")

-- The loop of `scrub_pii`. `sub pattern replacement text` is `re.compile(pattern).sub(...)`.
unfoldable pub mask : (String → String → String → String) → List (String × String) → String → String
mask sub [] t = t
mask sub ((label, pattern) ∷ rest) t = mask sub rest (sub pattern (redaction label) t)

unfoldable pub scrub_pii : (String → String → String → String) → String → String
scrub_pii sub t = if t == "" then t else mask sub compiled_patterns t

-- A function that a module exports; it may raise.
abbrev pub Function : Type 0
Function = String → Result String

-- `cls._cache`
abbrev pub Cache : Type 0
Cache = List (String × Function)

unfoldable pub cached : String → Cache → Option Function
cached key [] = none
cached key ((k, f) ∷ rest) = if k == key then some f else cached key rest

abbrev pub cache_key : String → String → String
cache_key module_path function_name = String.◌++◌ module_path (String.◌++◌ "." function_name)

module _ (import : String → String → Result Function) where
  abbrev pub call_imported : Result Function → String → String → Cache → Result String × Cache
  call_imported (err e) key data_ cache = (err e, cache)
  call_imported (ok f) key data_ cache = (f data_, (key, f) ∷ cache)

  -- From what the cache holds under the key on.
  abbrev pub call_cached :
      Option Function → String → String → String → Cache → Result String × Cache
  call_cached (some f) module_path function_name data_ cache = (f data_, cache)
  call_cached none module_path function_name data_ cache =
      call_imported (import module_path function_name) (cache_key module_path function_name) data_
        cache

  unfoldable pub run_task_async : String → String → String → Cache → Result String × Cache
  run_task_async module_path function_name data_ cache =
      call_cached (cached (cache_key module_path function_name) cache) module_path function_name
        data_ cache

-- A tool's arguments are of a type that the program does not look into.
pub record ToolCall (Arguments : Type 0) : Type 0 where
  pub name : String
  pub arguments : Arguments

pub record AgentRequest (Arguments : Type 0) : Type 0 where
  pub prompt : String
  pub tool_calls : List (ToolCall Arguments)

pub record AgentIdentity : Type 0 where
  pub id : String
  pub permissions : List String

-- `none` for status 401
unfoldable pub get_current_agent : String → Option AgentIdentity
get_current_agent x_agent_token =
    if x_agent_token == "valid_secret_token"
    then some (record { id = "bot_01"; permissions = "read_balance" ∷ "transfer_funds" ∷ [] })
    else none

-- What the firewall's answer holds under "decision" and "reason".
pub record AuthStatus : Type 0 where
  pub decision : Option String
  pub reason : Option String

pub data Response : Type 0 where
  -- 401
  invalid_token : Response
  -- 500, "Shield layer failure."
  shield_failure : Response
  -- 403, with the reason and the tool
  forbidden : Option String → String → Response
  -- an exception that reaches the framework
  server_error : Exception → Response
  -- 200, with the scrubbed prompt and the tools
  success : String → List String → Response

abbrev pub is_denied : Option String → Bool
is_denied none = false
is_denied (some decision) = decision == "DENIED"

-- An `ActionFirewall` that has been made for an agent: its `validate_action`.
abbrev pub Firewall : Type 0 → Type 0
Firewall Arguments = ToolCall Arguments → Result AuthStatus

module _ {Arguments : Type 0} where
  abbrev pub checked : ToolCall Arguments → Result AuthStatus → Response → Response
  checked tool (err e) rest = server_error e
  checked tool (ok auth_status) rest =
      if is_denied auth_status.decision then forbidden auth_status.reason tool.name else rest

  -- The loop over the tool calls; `done` is the answer past its end.
  unfoldable pub check_tools : Firewall Arguments → List (ToolCall Arguments) → Response → Response
  check_tools validate_action [] done = done
  check_tools validate_action (tool ∷ rest) done =
      checked tool (validate_action tool) (check_tools validate_action rest done)

  abbrev pub with_firewall :
      Result (Firewall Arguments) → AgentRequest Arguments → String → Response
  with_firewall (err e) payload clean_prompt = server_error e
  with_firewall (ok validate_action) payload clean_prompt =
      check_tools validate_action payload.tool_calls
        (success clean_prompt (map (λ t. t.name) payload.tool_calls))

  -- The class, or what it raises when it is called.
  module _ (action_firewall : AgentIdentity → Result (Firewall Arguments)) where
    abbrev pub after_shield :
        AgentIdentity → AgentRequest Arguments → Result String × Cache → Response × Cache
    after_shield agent payload (err e, cache) = (shield_failure, cache)
    after_shield agent payload (ok clean_prompt, cache) =
        (with_firewall (action_firewall agent) payload clean_prompt, cache)

    abbrev pub for_agent :
        (String → String → Result Function)
        → Option AgentIdentity
        → AgentRequest Arguments
        → Cache
        → Response × Cache
    for_agent import none payload cache = (invalid_token, cache)
    for_agent import (some agent) payload cache =
        after_shield agent payload
          (run_task_async import "security.pii_scrub" "scrub_pii" payload.prompt cache)

    unfoldable pub handle_agent_request :
        (String → String → Result Function)
        → String
        → AgentRequest Arguments
        → Cache
        → Response × Cache
    handle_agent_request import x_agent_token payload cache =
        for_agent import (get_current_agent x_agent_token) payload cache
