-- ===== src/Gateway.antt =====
-- core/gateway.py and admin_panel.py: the operating mode, and the gate before every request.
pub mod Admission
pub mod Handler
pub mod Backing
pub mod Payments
pub mod Responses
pub mod Serve
pub mod Freeze
pub mod Runs
pub mod Repeat
pub mod Once
pub mod Plane
pub mod Command
pub mod Stack
pub mod Frame
pub mod Done
pub mod Final
pub mod Alone
pub mod Refines
pub mod Pays
pub mod Day
pub mod OneKey
mod Tests
use sentinelai_v.Prelude.{
  ℕ, String, Bool, true, false, not, ◌&&◌, ◌||◌, Option, none, some, List, [], ◌∷◌, ◌==◌,
  if◌then◌else◌,
}
use sentinelai_v.Prelude.Result.{Result, ok, err}
use sentinelai_v.Float.{Float, of_ℕ, lt_float}
use sentinelai_v.RustCore.{Core, is_frozen}

pub data SystemMode : Type 0 where
  normal frozen read_only ramp_up : SystemMode

pub record RecoveryState : Type 0 where
  pub mode : SystemMode
  pub rate_limit : Float

-- `RecoveryState()`
abbrev pub initial_state : RecoveryState
initial_state = record { mode = normal; rate_limit = of_ℕ 1 }

-- `SystemMode(value)`, `none` for its `ValueError`
unfoldable pub parse_mode : String → Option SystemMode
parse_mode s =
    if s == "NORMAL"
    then some normal
    else if s == "FROZEN"
    then some frozen
    else if s == "READ_ONLY"
    then some read_only
    else if s == "RAMP_UP"
    then some ramp_up
    else none

-- A value that Redis gives, or that the call raised.
abbrev Reading : Type 0
Reading = Result (Option String)

abbrev with_mode : Option SystemMode → RecoveryState → RecoveryState
with_mode none state = state
with_mode (some m) state = record state { mode = m }

abbrev with_rate : Option Float → RecoveryState → RecoveryState
with_rate none state = state
with_rate (some r) state = record state { rate_limit = r }

-- `if mode_val: try: state.mode = ... except ValueError: pass`
abbrev pub sync_mode : Option String → RecoveryState → RecoveryState
sync_mode none state = state
sync_mode (some s) state = if s == "" then state else with_mode (parse_mode s) state

module _ (parse_float : String → Option Float) where
  -- `if rate_val: state.rate_limit = float(rate_val)`; the loop swallows the `ValueError`.
  abbrev pub sync_rate : Option String → RecoveryState → RecoveryState
  sync_rate none state = state
  sync_rate (some s) state = if s == "" then state else with_rate (parse_float s) state

  -- One round of `sync_with_redis`. The second `get` is made if the first one returns.
  unfoldable pub sync_once : Reading → Reading → RecoveryState → RecoveryState
  sync_once (err e) rate_val state = state
  sync_once (ok mode_val) (err e) state = state
  sync_once (ok mode_val) (ok rate_val) state = sync_rate rate_val (sync_mode mode_val state)

-- The two keys of the control plane in Redis.
pub record ControlKeys : Type 0 where
  pub mode_key : Option String
  pub rate_key : Option String

abbrev is_mode_name : String → Bool
is_mode_name s = s == "NORMAL" || s == "FROZEN" || s == "READ_ONLY" || s == "RAMP_UP"

-- admin_panel.py; `print_float` is `str` on a float.
unfoldable pub set_mode : (Float → String) → String → Float → ControlKeys → ControlKeys
set_mode print_float mode rate keys =
    if not (is_mode_name mode)
    then keys
    else record { mode_key = some mode; rate_key = some (print_float rate) }

-- What the gate does with a request: hand it to `call_next`, or answer it.
pub data Gate : Type 0 where
  proceed : Gate
  refuse : ℕ → String → Gate

abbrev is_mode : SystemMode → SystemMode → Bool
is_mode normal normal = true
is_mode frozen frozen = true
is_mode read_only read_only = true
is_mode ramp_up ramp_up = true
is_mode _ _ = false

-- `random` is what `random.random()` would give; `none` for the state is an application that has
-- not set it up.
unfoldable pub security_gate : Option RecoveryState → Core → String → Float → Gate
security_gate none core method random = proceed
security_gate (some state) core method random =
    if is_frozen core || is_mode state.mode frozen
    then refuse 503 "SYSTEM_FROZEN"
    else if is_mode state.mode read_only && not (method == "GET")
    then refuse 403 "SYSTEM_READ_ONLY"
    else if is_mode state.mode ramp_up && lt_float state.rate_limit random
    then refuse 429 "RECOVERY_RAMP_UP"
    else proceed
