-- ===== src/Idempotency.antt =====
-- core/idempotency.py: `FinTechIdempotencyMiddleware.dispatch`. Requests under one key run side by
-- side, so what they do to Redis under that key is a step relation: each step is what a request does
-- between two awaits. A call of Redis may raise, before or after Redis has carried it out. The 24
-- hours of a stored state do not pass.
pub mod Counting
pub mod Invariant
pub mod Steps
pub mod Storing
pub mod Exclusion
pub mod Expiry
pub mod Scope
mod Tests
use sentinelai_v.Prelude.{
  ℕ, String, ◌≡◌, ◌≢◌, Bool, true, false, not, ◌&&◌, ◌||◌, Option, none, some, List, [], ◌∷◌, ◌++◌,
  ◌==◌, if◌then◌else◌, ltb,
}

-- What `dispatch` does before it looks at Redis.
pub data Route : Type 0 where
  passes_on key_required : Route
  keyed : String → Route

abbrev is_mutating : String → Bool
is_mutating method = method == "POST" || method == "PUT" || method == "PATCH"

abbrev without_key : Bool → Route
without_key true = key_required
without_key false = passes_on

abbrev pub route_key : Bool → Option String → Route
route_key strict_mode none = without_key strict_mode
route_key strict_mode (some key) = if key == "" then without_key strict_mode else keyed key

unfoldable pub route : Bool → String → Option String → Route
route strict_mode method key = if is_mutating method then route_key strict_mode key else passes_on

pub record Response : Type 0 where
  pub status_code : ℕ
  pub body : String
  pub headers : List (String × String)

-- The value under `redis_key`
pub data State : Type 0 where
  started : String → State
  completed : String → Response → State

pub data Answer : Type 0 where
  -- 408
  timed_out : Answer
  -- 409
  mismatch : Answer
  -- The cached response
  replayed : Response → Answer
  -- The response of the endpoint
  fresh : Response → Answer
  -- The endpoint or a call of Redis raised.
  raised : Answer

-- How far a request has come: in the loop for the lock; past it; to write STARTED; in the
-- endpoint; to store the response; to delete the lock; answered.
pub data Phase : Type 0 where
  polling entered starting executing : Phase
  storing : Response → Phase
  releasing answered : Answer → Phase

pub record Worker : Type 0 where
  pub payload_hash : String
  pub phase : Phase

-- The two keys of Redis, the requests, and every response that was ever stored, with the hash of its
-- request.
pub record World : Type 0 where
  pub lock : Bool
  pub state : Option State
  pub workers : List Worker
  pub ran : List (String × Response)

-- Python's `str.lower` and the decoding of bytes as text.
module _ (lower decode : String → String) where
  abbrev is_kept : String → Bool
  is_kept name = not (lower name == "content-length" || lower name == "content-encoding")

  unfoldable pub kept_headers : List (String × String) → List (String × String)
  kept_headers [] = []
  kept_headers ((name, value) ∷ rest) =
      if is_kept name then (name, value) ∷ kept_headers rest else kept_headers rest

  abbrev pub stored : Response → Response
  stored r = record r { body = decode r.body; headers = kept_headers r.headers }

  -- `response.status_code < 500`
  abbrev pub is_cached : Response → Bool
  is_cached r = ltb r.status_code 500

  -- The branch that a request takes on the state that it reads.
  unfoldable pub check_state : String → Option State → Phase
  check_state payload_hash none = starting
  check_state payload_hash (some (started h)) =
      if h == payload_hash then starting else releasing mismatch
  check_state payload_hash (some (completed h r)) =
      if h == payload_hash then releasing (replayed r) else releasing mismatch

  abbrev pub after_endpoint : Response → Phase
  after_endpoint r = if is_cached r then storing r else releasing (fresh r)

  -- A request is at a phase, and moves to another.
  abbrev pub moved : World → List Worker → String → Phase → List Worker → World
  moved s before h phase after = record s {
    workers = before ++ record { payload_hash = h; phase = phase } ∷ after;
  }

  -- One step of the request between `before` and `after`, from its phase, without the expiries.
  pub data Step (s : World) : World → Type 0 where
    arrives :
        (h : String)
        → Step s (record s { workers = record { payload_hash = h; phase = polling } ∷ s.workers })
    -- `set(lock_key, "1", nx=True)` succeeds.
    locks :
        (before after : List Worker) (h : String)
        → s.workers ≡ before ++ record { payload_hash = h; phase = polling } ∷ after
        → s.lock ≡ false
        → Step s (record (moved s before h entered after) { lock = true })
    -- The lock is taken, and the state is COMPLETED.
    finds_completed :
        (before after : List Worker) (h h' : String) (r : Response)
        → s.workers ≡ before ++ record { payload_hash = h; phase = polling } ∷ after
        → s.state ≡ some (completed h' r)
        → Step s (moved s before h entered after)
    times_out :
        (before after : List Worker) (h : String)
        → s.workers ≡ before ++ record { payload_hash = h; phase = polling } ∷ after
        → Step s (moved s before h (answered timed_out) after)
    checks :
        (before after : List Worker) (h : String)
        → s.workers ≡ before ++ record { payload_hash = h; phase = entered } ∷ after
        → Step s (moved s before h (check_state h s.state) after)
    starts :
        (before after : List Worker) (h : String)
        → s.workers ≡ before ++ record { payload_hash = h; phase = starting } ∷ after
        → Step s (record (moved s before h executing after) { state = some (started h) })
    responds :
        (before after : List Worker) (h : String) (r : Response)
        → s.workers ≡ before ++ record { payload_hash = h; phase = executing } ∷ after
        → Step s (moved s before h (after_endpoint r) after)
    raises :
        (before after : List Worker) (h : String)
        → s.workers ≡ before ++ record { payload_hash = h; phase = executing } ∷ after
        → Step s (moved s before h (releasing raised) after)
    stores :
        (before after : List Worker) (h : String) (r : Response)
        → s.workers ≡ before ++ record { payload_hash = h; phase = storing r } ∷ after
        → Step s (record (moved s before h (releasing (fresh r)) after) {
          state = some (completed h (stored r));
          ran = (h, stored r) ∷ s.ran;
        })
    -- `delete(lock_key)`, whoever holds the lock
    releases :
        (before after : List Worker) (h : String) (a : Answer)
        → s.workers ≡ before ++ record { payload_hash = h; phase = releasing a } ∷ after
        → Step s (record (moved s before h (answered a) after) { lock = false })
    -- In the loop for the lock, outside the `try`, a call raises: the first one, with the lock not set or
    -- set, or the second.
    poll_fails :
        (before after : List Worker) (h : String)
        → s.workers ≡ before ++ record { payload_hash = h; phase = polling } ∷ after
        → Step s (moved s before h (answered raised) after)
    lock_unanswered :
        (before after : List Worker) (h : String)
        → s.workers ≡ before ++ record { payload_hash = h; phase = polling } ∷ after
        → s.lock ≡ false
        → Step s (record (moved s before h (answered raised) after) { lock = true })
    -- Inside the `try` a call raises, and the lock is still to be deleted.
    check_fails :
        (before after : List Worker) (h : String)
        → s.workers ≡ before ++ record { payload_hash = h; phase = entered } ∷ after
        → Step s (moved s before h (releasing raised) after)
    start_fails :
        (before after : List Worker) (h : String)
        → s.workers ≡ before ++ record { payload_hash = h; phase = starting } ∷ after
        → Step s (moved s before h (releasing raised) after)
    start_unanswered :
        (before after : List Worker) (h : String)
        → s.workers ≡ before ++ record { payload_hash = h; phase = starting } ∷ after
        → Step s (record (moved s before h (releasing raised) after) { state = some (started h) })
    store_fails :
        (before after : List Worker) (h : String) (r : Response)
        → s.workers ≡ before ++ record { payload_hash = h; phase = storing r } ∷ after
        → Step s (moved s before h (releasing raised) after)
    store_unanswered :
        (before after : List Worker) (h : String) (r : Response)
        → s.workers ≡ before ++ record { payload_hash = h; phase = storing r } ∷ after
        → Step s (record (moved s before h (releasing raised) after) {
          state = some (completed h (stored r));
          ran = (h, stored r) ∷ s.ran;
        })
    -- The `delete` raises, and its exception replaces the answer.
    release_fails :
        (before after : List Worker) (h : String) (a : Answer)
        → s.workers ≡ before ++ record { payload_hash = h; phase = releasing a } ∷ after
        → Step s (moved s before h (answered raised) after)
    release_unanswered :
        (before after : List Worker) (h : String) (a : Answer)
        → s.workers ≡ before ++ record { payload_hash = h; phase = releasing a } ∷ after
        → Step s (record (moved s before h (answered raised) after) { lock = false })

  pub data Reach (s : World) : World → Type 0 where
    begin : Reach s s
    step : {t u : World} → Reach s t → Step t u → Reach s u

abbrev pub fresh_world : World
fresh_world = record { lock = false; state = none; workers = []; ran = [] }

-- The lock is set with `ex=LOCK_TTL`, and is gone when that time has passed.
abbrev pub expire_lock : World → World
expire_lock s = record s { lock = false }
