-- ===== src/Gateway/Serve.antt =====
-- The transfer endpoint of core/gateway.py behind its request gate, one request after another: every
-- request opens a connection of its own to the ledger, and the Rust core is the process's. The
-- idempotency middleware in between passes a request without an Idempotency-Key on; what it does
-- with the others is in Idempotency.antt, and here they reach the endpoint too; Stack.antt puts it in
-- between.
use sentinelai_v.Prelude.{ℕ, String, Bool, false, some, List, [], ◌∷◌}
use sentinelai_v.Float.{Float}
use sentinelai_v.Database.{Db, init_db}
use sentinelai_v.Connection.{Conn}
use sentinelai_v.RustCore.{Core}
use sentinelai_v.Gateway.{RecoveryState, initial_state, Gate, proceed, refuse, security_gate}
use sentinelai_v.Gateway.Handler.{TransferRequest, Headers, Response, Surroundings, handle_transfer}

-- A POST to /v1/banking/transfer, and what it meets: the operating mode at that time, the random
-- number that the gate draws, and the statements that fail on its connection.
pub record Arrival : Type 0 where
  pub env : Surroundings
  pub recovery : RecoveryState
  pub random : Float
  pub req : TransferRequest
  pub headers : Headers
  pub faults : List Bool

pub data Answer : Type 0 where
  refused : ℕ → String → Answer
  answered : Response → Answer

-- `get_db_connection()`
abbrev pub connect : Db → List Bool → Conn
connect db faults = record { committed = db; working = db; in_transaction = false; faults = faults }

abbrev pub handled : Response × Conn × Core → Answer × Db × Core
handled (response, c, core) = (answered response, c.committed, core)

abbrev pub behind_gate : Gate → Arrival → Db → Core → Answer × Db × Core
behind_gate proceed a db core =
    handled (handle_transfer a.env a.req a.headers (connect db a.faults) core)
behind_gate (refuse status detail) a db core = (refused status detail, db, core)

unfoldable pub serve : Arrival → Db → Core → Answer × Db × Core
serve a db core = behind_gate (security_gate (some a.recovery) core "POST" a.random) a db core

-- The answers to a sequence of requests, and what they leave.
abbrev pub then_answers : Answer → List Answer × Db × Core → List Answer × Db × Core
then_answers x (xs, db, core) = (x ∷ xs, db, core)

unfoldable pub serve_all : List Arrival → Db → Core → List Answer × Db × Core
serve_all [] db core = ([], db, core)
serve_all (a ∷ rest) db core =
    let (answer, db', core') = serve a db core in then_answers answer (serve_all rest db' core')

-- `lifespan`, up to its `yield`, in a new process: RocksDB and the ledger are those on the disk, the
-- flag FAIL_SAFE and the mode are the initial ones.
unfoldable pub start_up : Db → Core → RecoveryState × Db × Core
start_up db core = (initial_state, init_db db, record core { fail_safe = false })

pub data Event : Type 0 where
  arrives : Arrival → Event
  restarts : Event

-- What the gateway does to the ledger and the core, its restarts included.
unfoldable pub live : List Event → Db → Core → Db × Core
live [] db core = (db, core)
live (arrives a ∷ rest) db core = let (answer, db', core') = serve a db core in live rest db' core'
live (restarts ∷ rest) db core = let (state, db', core') = start_up db core in live rest db' core'
