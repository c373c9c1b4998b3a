-- ===== src/Gateway/Admission.antt =====
-- Which requests the gate admits, and how an operator's command reaches it.
use sentinelai_v.Prelude.{
  String, ◌≡◌, ◌≢◌, ◌↔◌, refl, ap, Bool-cases, true, false, Option, none, some, ◌==◌, eq_iff, arith,
  inl, inr,
}
use sentinelai_v.Prelude.Result.{ok}
use sentinelai_v.Float.{Float, lt_float}
use sentinelai_v.RustCore.{Core}
use sentinelai_v.Gateway.{
  SystemMode, normal, frozen, read_only, ramp_up, RecoveryState, parse_mode, sync_once, ControlKeys,
  set_mode, is_mode_name, proceed, security_gate,
}

-- The requests that the operating mode is meant to admit.
abbrev pub Admits : SystemMode → Float → String → Float → Type 0
Admits normal rate method random = Unit
Admits frozen rate method random = ⊥
Admits read_only rate method random = method ≡ "GET"
Admits ramp_up rate method random = lt_float rate random ≡ false

Admits-gate :
    (m : SystemMode) (rate : Float) (core : Core) (method : String) (random : Float)
    → (security_gate (some (record { mode = m; rate_limit = rate })) core method random ≡ proceed)
      ↔ ((core.fail_safe ≡ false) × Admits m rate method random)
unfolding security_gate
Admits-gate normal rate core method random = (λ h. ground arith, λ h. ground arith)
Admits-gate frozen rate core method random = (λ h. ground arith, λ h. absurd h.1)
Admits-gate read_only rate core method random =
    (λ h. ground (arith, eq_iff method "GET"), λ h. ground (arith, eq_iff method "GET"))
Admits-gate ramp_up rate core method random = (λ h. ground arith, λ h. ground arith)

-- A request goes on exactly when the Rust core is not frozen and the mode admits it: never under
-- FROZEN, only GET under READ_ONLY, and under RAMP_UP unless the random number exceeds the rate.
pub security_gate-proceed_iff :
    (state : RecoveryState) (core : Core) (method : String) (random : Float)
    → (security_gate (some state) core method random ≡ proceed)
      ↔ ((core.fail_safe ≡ false) × Admits state.mode state.rate_limit method random)
security_gate-proceed_iff state = Admits-gate state.mode state.rate_limit

parse_mode-empty : parse_mode "" ≡ none
unfolding parse_mode
parse_mode-empty = refl

known_nonempty : (name : String) (m : SystemMode) → parse_mode name ≡ some m → (name == "") ≡ false
known_nonempty name m h = elim (Bool-cases (name == "")) [
  | inr nonempty ↦ nonempty
  | inl empty ↦ absurd (cc (h, ap parse_mode ((eq_iff name "").0 empty), parse_mode-empty))
]

known_is_name :
    (name : String) (m : SystemMode) → parse_mode name ≡ some m → is_mode_name name ≡ true
unfolding parse_mode
known_is_name name m h = ground arith

-- What an operator sets with a mode that the gateway knows is what its next round of
-- synchronisation takes over, mode and rate, whatever stood in Redis and in the gateway before. The
-- printed rate is taken to read back.
set_mode-sync_once :
    (print_float : Float → String) (parse_float : String → Option Float) (name : String)
    (m : SystemMode) (rate : Float) (keys : ControlKeys) (state : RecoveryState)
    → parse_mode name ≡ some m
    → parse_float (print_float rate) ≡ some rate
    → print_float rate ≢ ""
    → let keys' = set_mode print_float name rate keys in
      sync_once parse_float (ok keys'.mode_key) (ok keys'.rate_key) state
      ≡ record { mode = m; rate_limit = rate }
unfolding set_mode sync_once
set_mode-sync_once print_float parse_float name m rate keys state known reads printed =
    ground
      (arith, known_is_name name m known, known_nonempty name m known, eq_iff (print_float rate) "")
