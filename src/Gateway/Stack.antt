-- ===== src/Gateway/Stack.antt =====
-- The middlewares and the endpoint of core/gateway.py in the order in which a transfer request
-- passes them: the request gate, core/idempotency.py, the endpoint. A request starts when the one
-- before has been answered, so it finds its lock free, and Redis does not fail; Day.antt adds the
-- expiry of keys.
use sentinelai_v.Prelude.{ℕ, String, false, Option, none, some, List, [], ◌∷◌, ◌==◌, if◌then◌else◌}
use sentinelai_v.Database.{Db}
use sentinelai_v.Connection.{Conn}
use sentinelai_v.RustCore.{Core}
use sentinelai_v.Idempotency
use sentinelai_v.Idempotency.{
  State, started, completed, Answer, fresh, raised, Phase, starting, storing, releasing, Route,
  passes_on, key_required, keyed, route, check_state, after_endpoint, stored,
}
use sentinelai_v.Idempotency.Scope.{redis_key}
use sentinelai_v.Gateway.{Gate, proceed, refuse, security_gate}
use sentinelai_v.Gateway.Handler.{
  Response, intervention, integrity_mismatch, success, server_error, handle_transfer,
}
use sentinelai_v.Gateway.Serve.{Arrival, connect}

-- Python's `str.lower` and the decoding of bytes, and how the framework writes an answer.
pub record Web : Type 0 where
  pub lower : String → String
  pub decode : String → String
  pub body_of : Response → String
  pub headers_of : Response → List (String × String)

-- An arrival with the address of its client and the SHA-256 of its body.
pub record Call : Type 0 where
  pub arrival : Arrival
  pub host : Option String
  pub payload_hash : String

-- What outlives a request: the states in Redis, the ledger and the Rust core.
pub record Site : Type 0 where
  pub redis : List (String × State)
  pub db : Db
  pub core : Core

pub data Sent : Type 0 where
  -- by the gate
  refused : ℕ → String → Sent
  -- 400, for want of an Idempotency-Key
  unkeyed : Sent
  through : Answer → Sent

-- `redis.get`
unfoldable pub get_state : String → List (String × State) → Option State
get_state key [] = none
get_state key ((k, s) ∷ rest) = if k == key then some s else get_state key rest

-- `redis.set`
abbrev pub set_state : String → State → Site → Site
set_state key s site = record site { redis = (key, s) ∷ site.redis }

abbrev pub key_of_call : String → Call → String
key_of_call key c =
    redis_key (record { path = "/v1/banking/transfer"; host = c.host; idempotency_key = key })

module _ (web : Web) where
  abbrev rendered : ℕ → Response → Option Idempotency.Response
  rendered status r =
      some (record { status_code = status; body = web.body_of r; headers = web.headers_of r })

  -- The response on the wire; `none` for an exception.
  abbrev pub http_of : Response → Option Idempotency.Response
  http_of (intervention reason) = rendered 403 (intervention reason)
  http_of integrity_mismatch = rendered 400 integrity_mismatch
  http_of (success trace payment) = rendered 200 (success trace payment)
  http_of (server_error e) = none

  abbrev left : Site → Response × Conn × Core → Option Idempotency.Response × Site
  left site (r, c, core) = (http_of r, record site { db = c.committed; core = core })

  -- `call_next(request)` of the middleware
  unfoldable pub call_next : Call → Site → Option Idempotency.Response × Site
  call_next c site = left site (
      handle_transfer c.arrival.env c.arrival.req c.arrival.headers
        (connect site.db c.arrival.faults) site.core)

  -- The rest of `dispatch` after the endpoint.
  abbrev stored_or_released : String → String → Phase → Site → Answer × Site
  stored_or_released key h (storing r) site =
      (fresh r, set_state key (completed h (stored web.lower web.decode r)) site)
  stored_or_released key h (releasing a) site = (a, site)
  stored_or_released key h p site = (raised, site)

  abbrev pub settled : String → String → Option Idempotency.Response × Site → Answer × Site
  settled key h (none, site) = (raised, site)
  settled key h (some r, site) =
      stored_or_released key h (after_endpoint web.lower web.decode r) site

  -- `dispatch` from its look at the state on, which is at `starting` or at `releasing`.
  abbrev pub from_phase : String → Call → Phase → Site → Answer × Site
  from_phase key c starting site =
      settled key c.payload_hash (call_next c (set_state key (started c.payload_hash) site))
  from_phase key c (releasing a) site = (a, site)
  from_phase key c p site = (raised, site)

  unfoldable pub dispatch_keyed : String → Call → Site → Answer × Site
  dispatch_keyed key c site =
      from_phase key c (check_state web.lower web.decode c.payload_hash (get_state key site.redis))
        site

  abbrev pub sent : Answer × Site → Sent × Site
  sent (a, site) = (through a, site)

  abbrev pub passed : Option Idempotency.Response × Site → Sent × Site
  passed (none, site) = (through raised, site)
  passed (some r, site) = (through (fresh r), site)

  abbrev pub routed : Route → Call → Site → Sent × Site
  routed passes_on c site = passed (call_next c site)
  routed key_required c site = (unkeyed, site)
  routed (keyed key) c site = sent (dispatch_keyed (key_of_call key c) c site)

  -- The gateway adds the middleware with `strict_mode=False`.
  abbrev pub past_gate : Gate → Call → Site → Sent × Site
  past_gate (refuse status detail) c site = (refused status detail, site)
  past_gate proceed c site = routed (route false "POST" c.arrival.headers.idempotency_key) c site

  unfoldable pub pass : Call → Site → Sent × Site
  pass c site =
      past_gate (security_gate (some c.arrival.recovery) site.core "POST" c.arrival.random) c site

  unfoldable pub pass_all : List Call → Site → Site
  pass_all [] site = site
  pass_all (c ∷ rest) site = pass_all rest (pass c site).1
