-- ===== src/Gateway/Plane.antt =====
-- The control plane around core/gateway.py: the operator at admin_panel.py, the two keys in Redis, the
-- rounds of `sync_with_redis`, and the requests that the gate sees in between.
use sentinelai_v.Prelude.{String, Option, none, some, List, [], ◌∷◌, Bool, if◌then◌else◌}
use sentinelai_v.Prelude.Result.{Result, ok, err, runtime_error, value_error}
use sentinelai_v.Float.{Float, of_ℕ}
use sentinelai_v.Database.{Db}
use sentinelai_v.RustCore.{Core}
use sentinelai_v.Gateway.{RecoveryState, sync_once, ControlKeys, set_mode}
use sentinelai_v.Gateway.Serve.{Arrival, Answer, serve, start_up}

-- Python's `str` and `float` on floats, and `str.upper`
pub record Text : Type 0 where
  pub print_float : Float → String
  pub parse_float : String → Option Float
  pub upper : String → String

pub record Plane : Type 0 where
  pub keys : ControlKeys
  pub state : RecoveryState
  pub db : Db
  pub core : Core

pub data Happening : Type 0 where
  -- `python admin_panel.py mode rate`
  commands : List String → Happening
  -- a round of the synchronisation, and whether each of its two reads raises
  syncs : Bool → Bool → Happening
  -- a transfer request; the mode is the plane's
  requests : Arrival → Happening
  -- the gateway in a new process
  restarts : Happening

module _ (py : Text) where
  abbrev set_parsed : String → Option Float → ControlKeys → Result (Unit {0}) × ControlKeys
  set_parsed mode none keys = (err value_error, keys)
  set_parsed mode (some rate) keys = (ok tt, set_mode py.print_float mode rate keys)

  -- The `__main__` of admin_panel.py, on the arguments after the script's name.
  unfoldable pub command_line : List String → ControlKeys → Result (Unit {0}) × ControlKeys
  command_line [] keys = (ok tt, keys)
  command_line (mode ∷ []) keys = (ok tt, set_mode py.print_float (py.upper mode) (of_ℕ 1) keys)
  command_line (mode ∷ rate ∷ rest) keys = set_parsed (py.upper mode) (py.parse_float rate) keys

  abbrev pub reading : Bool → Option String → Result (Option String)
  reading fails value = if fails then err runtime_error else ok value

  abbrev pub synced : Bool → Bool → Plane → Plane
  synced mode_fails rate_fails p = record p {
    state =
        sync_once py.parse_float (reading mode_fails p.keys.mode_key)
          (reading rate_fails p.keys.rate_key) p.state;
  }

  abbrev pub arrival_at : RecoveryState → Arrival → Arrival
  arrival_at state a = record a { recovery = state }

  abbrev pub served : Arrival → Plane → Plane
  served a p =
      let (answer, db, core) = serve (arrival_at p.state a) p.db p.core in
      record p { db = db; core = core }

  abbrev pub started : Plane → Plane
  started p =
      let (state, db, core) = start_up p.db p.core in
      record p { state = state; db = db; core = core }

  unfoldable pub happen : Happening → Plane → Plane
  happen (commands args) p = record p { keys = (command_line args p.keys).1 }
  happen (syncs f g) p = synced f g p
  happen (requests a) p = served a p
  happen restarts p = started p

  unfoldable pub happen_all : List Happening → Plane → Plane
  happen_all [] p = p
  happen_all (h ∷ hs) p = happen_all hs (happen h p)

  -- The answers to the requests.
  abbrev pub answer_at : Happening → Plane → List Answer → List Answer
  answer_at (requests a) p rest = (serve (arrival_at p.state a) p.db p.core).0 ∷ rest
  answer_at h p rest = rest

  unfoldable pub answers : List Happening → Plane → List Answer
  answers [] p = []
  answers (h ∷ hs) p = answer_at h p (answers hs (happen h p))
