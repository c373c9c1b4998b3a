-- ===== src/Gateway/Final.antt =====
-- core/idempotency.py behind the request gate, once a response is stored under a key.
use sentinelai_v.Prelude.{
  String, ◌≡◌, refl, inl, inr, true, false, Bool-cases, Option, none, some, List, ◌==◌, eq_refl,
  arith,
}
use sentinelai_v.Idempotency
use sentinelai_v.Idempotency.{
  State, started, completed, Answer, fresh, raised, replayed, mismatch, Phase, polling, entered,
  executing, answered, starting, storing, releasing, Route, passes_on, key_required, keyed, route,
  check_state, after_endpoint, stored, is_cached,
}
use sentinelai_v.Gateway.{Gate, proceed, refuse}
use sentinelai_v.Gateway.Stack.{
  Web, Call, Site, Sent, refused, unkeyed, through, get_state, set_state, key_of_call, call_next,
  settled, from_phase, dispatch_keyed, past_gate, pass, pass_all,
}
use sentinelai_v.Gateway.Done.{IsDone, again, done_dispatch, pass_all-IsDone}

-- The key of Redis that a call is dispatched under.
abbrev pub Under : String → Call → Type 0
Under key c =
    (header : String) × (route false "POST" c.arrival.headers.idempotency_key ≡ keyed header)
    × (key_of_call header c ≡ key)

-- The gate refuses a call, or it gets this answer.
abbrev pub AnswersOnly : Answer → Sent → Type 0
AnswersOnly a (refused status detail) = Unit
AnswersOnly a unkeyed = ⊥
AnswersOnly a (through b) = b ≡ a

module _ (web : Web) where
  settled_first :
      (key h : String) (r : Idempotency.Response) (x : Option Idempotency.Response × Site)
      → (settled web key h x).0 ≡ fresh r
      → is_cached web.lower web.decode r ≡ true
      → IsDone web key h (stored web.lower web.decode r) (settled web key h x).1
  unfolding get_state
  settled_first key h r (none, site) e cached = ground (arith, e)
  settled_first key h r (some q, site) e cached =
      elim (Bool-cases (is_cached web.lower web.decode q)) [
        | inl below ↦
            let e' : fresh q ≡ fresh r = rw below at e in
            let same : q ≡ r = cc e' in rw (below, same, eq_refl key) refl
        | inr above ↦
            let e' : fresh q ≡ fresh r = rw above at e in
            let same : q ≡ r = cc e' in ground (arith, same, above, cached)
      ]

  begun_first :
      (key : String) (r : Idempotency.Response) (c : Call) (site : Site)
      → (from_phase web key c starting site).0 ≡ fresh r
      → is_cached web.lower web.decode r ≡ true
      → IsDone web key c.payload_hash
          (stored web.lower web.decode r)
          (from_phase web key c starting site).1
  begun_first key r c site =
      settled_first key c.payload_hash r
        (call_next web c (set_state key (started c.payload_hash) site))

  checked_first :
      (key : String) (r : Idempotency.Response) (c : Call) (seen : Option State) (site : Site)
      → (from_phase web key c (check_state web.lower web.decode c.payload_hash seen) site).0
        ≡ fresh r
      → is_cached web.lower web.decode r ≡ true
      → IsDone web key c.payload_hash
          (stored web.lower web.decode r)
          (from_phase web key c (check_state web.lower web.decode c.payload_hash seen) site).1
  unfolding check_state
  checked_first key r c none site e cached = begun_first key r c site e cached
  checked_first key r c (some (started h)) site e cached = elim (Bool-cases (h == c.payload_hash)) [
    | inl same ↦ rw same (begun_first key r c site (rw same at e) cached)
    | inr other ↦ let e' : mismatch ≡ fresh r = rw other at e in ground (arith, e')
  ]
  checked_first key r c (some (completed h q)) site e cached =
      elim (Bool-cases (h == c.payload_hash)) [
        | inl same ↦ let e' : replayed q ≡ fresh r = rw same at e in ground (arith, e')
        | inr other ↦ let e' : mismatch ≡ fresh r = rw other at e in ground (arith, e')
      ]

  first_dispatch :
      (key : String) (r : Idempotency.Response) (c : Call) (site : Site)
      → (dispatch_keyed web key c site).0 ≡ fresh r
      → is_cached web.lower web.decode r ≡ true
      → IsDone web key c.payload_hash
          (stored web.lower web.decode r)
          (dispatch_keyed web key c site).1
  unfolding dispatch_keyed
  first_dispatch key r c site e cached =
      checked_first key r c (get_state key site.redis) site e cached

  past_gate_first :
      (key : String) (r : Idempotency.Response) (gate : Gate) (c : Call) (site : Site)
      → Under key c
      → (past_gate web gate c site).0 ≡ through (fresh r)
      → is_cached web.lower web.decode r ≡ true
      → IsDone web key c.payload_hash (stored web.lower web.decode r) (past_gate web gate c site).1
  past_gate_first key r (refuse status detail) c site under e cached = ground (arith, e)
  past_gate_first key r proceed c site (header, to, at_key) e cached =
      rw (to, at_key)
        (let e' : through (dispatch_keyed web key c site).0 ≡ through (fresh r) =
            rw (to, at_key) at e in
          first_dispatch key r c site (cc e') cached)

  past_gate-again :
      (key h : String) (r : Idempotency.Response) (gate : Gate) (c : Call) (site : Site)
      → Under key c
      → IsDone web key h r site
      → ((past_gate web gate c site).1 ≡ site)
        × AnswersOnly (again h r c.payload_hash) (past_gate web gate c site).0
  past_gate-again key h r (refuse status detail) c site under done = (refl, tt)
  past_gate-again key h r proceed c site (header, to, at_key) done =
      rw (to, at_key, done_dispatch web key h r c site done) (refl, refl)

  -- Once a request under an Idempotency-Key has been answered with a response below 500 of the
  -- endpoint, each later one under the same state key changes nothing at all, neither in Redis, nor
  -- in the ledger, nor in the core, whatever requests are served between them: the gate refuses it,
  -- or it gets that response as it is stored, if its body has the same hash, and 409 if not.
  -- Requests are served one after another, no call of Redis fails, and no key of Redis expires.
  pub response_is_final :
      (c c' : Call) (between : List Call) (site : Site) (key : String) (r : Idempotency.Response)
      → Under key c
      → Under key c'
      → (pass web c site).0 ≡ through (fresh r)
      → is_cached web.lower web.decode r ≡ true
      → let later = pass_all web between (pass web c site).1 in
        ((pass web c' later).1 ≡ later)
        × AnswersOnly
            (again c.payload_hash (stored web.lower web.decode r) c'.payload_hash)
            (pass web c' later).0
  unfolding pass
  response_is_final c c' between site key r under under' e cached =
      past_gate-again key c.payload_hash (stored web.lower web.decode r) _ c' _ under' (
        pass_all-IsDone web key c.payload_hash (stored web.lower web.decode r) between _
          (past_gate_first key r _ c site under e cached))
