-- ===== src/Gateway/Frame.antt =====
-- What a call under another Idempotency-Key leaves in Redis.
use sentinelai_v.Prelude.{
  String, ◌≡◌, ◌≢◌, refl, ◌∙◌, inl, inr, Bool-cases, Option, none, some, eq_iff, arith,
}
use sentinelai_v.Idempotency
use sentinelai_v.Idempotency.{
  State, started, completed, Answer, fresh, raised, replayed, mismatch, Phase, polling, entered,
  executing, answered, starting, storing, releasing, Route, passes_on, key_required, keyed, route,
  check_state, after_endpoint, stored, is_cached,
}
use sentinelai_v.Gateway.Stack.{
  Web, Call, Site, get_state, set_state, call_next, settled, from_phase, dispatch_keyed, passed,
}

abbrev pub seen : String → Site → Option State
seen key site = get_state key site.redis

set_other :
    (key key' : String) (s : State) (site : Site)
    → key' ≢ key
    → seen key (set_state key' s site) ≡ seen key site
unfolding get_state
set_other key key' s site differ = ground (arith, eq_iff key' key)

module _ (web : Web) where
  pub call_next-seen :
      (key : String) (c : Call) (site : Site) → seen key (call_next web c site).1 ≡ seen key site
  unfolding call_next
  call_next-seen key c site = refl

  -- The call goes on without the middleware's looking at Redis.
  pub passed-seen :
      (key : String) (c : Call) (site : Site)
      → seen key (passed web (call_next web c site)).1 ≡ seen key site
  passed-seen key c site = same_site (call_next web c site) ∙ call_next-seen key c site
    where
      same_site :
          (x : Option Idempotency.Response × Site) → seen key (passed web x).1 ≡ seen key x.1
      same_site (none, site) = refl
      same_site (some r, site) = refl

  settled_other :
      (key key' h : String) (x : Option Idempotency.Response × Site)
      → key' ≢ key
      → seen key (settled web key' h x).1 ≡ seen key x.1
  settled_other key key' h (none, site) differ = refl
  settled_other key key' h (some q, site) differ =
      elim (Bool-cases (is_cached web.lower web.decode q)) [
        | inl cached ↦
            rw cached (set_other key key' (completed h (stored web.lower web.decode q)) site differ)
        | inr server_error ↦ rw server_error refl
      ]

  from_phase_other :
      (key key' : String) (c : Call) (p : Phase) (site : Site)
      → key' ≢ key
      → seen key (from_phase web key' c p site).1 ≡ seen key site
  from_phase_other key key' c starting site differ =
      let begun = set_state key' (started c.payload_hash) site in
      settled_other key key' c.payload_hash (call_next web c begun) differ
      ∙ call_next-seen key c begun
      ∙ set_other key key' (started c.payload_hash) site differ
  from_phase_other key key' c polling site differ = refl
  from_phase_other key key' c entered site differ = refl
  from_phase_other key key' c executing site differ = refl
  from_phase_other key key' c (storing q) site differ = refl
  from_phase_other key key' c (releasing a) site differ = refl
  from_phase_other key key' c (answered a) site differ = refl

  pub dispatch_other :
      (key key' : String) (c : Call) (site : Site)
      → key' ≢ key
      → seen key (dispatch_keyed web key' c site).1 ≡ seen key site
  unfolding dispatch_keyed
  dispatch_other key key' c site differ = from_phase_other key key' c _ site differ
