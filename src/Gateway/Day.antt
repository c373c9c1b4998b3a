-- ===== src/Gateway/Day.antt =====
-- What the middlewares and the endpoint do to the ledger and the Rust core, whatever Redis holds.
use sentinelai_v.Prelude.{
  String, ◌≡◌, ◌⊎◌, refl, sym, ap, ◌∙◌, inl, inr, Bool-cases, none, some, List, [], ◌∷◌, Option,
  subst,
}
use sentinelai_v.Database.{Db}
use sentinelai_v.RustCore.{Core}
use sentinelai_v.Idempotency
use sentinelai_v.Idempotency.{
  State, started, Phase, polling, entered, starting, executing, storing, releasing, answered, Route,
  passes_on, key_required, keyed, route, check_state, is_cached,
}
use sentinelai_v.Gateway.{Gate, proceed, refuse, security_gate}
use sentinelai_v.Gateway.Payments.{IsBacked}
use sentinelai_v.Gateway.Runs.{live-IsBacked}
use sentinelai_v.Gateway.Serve.{
  Arrival, Answer, behind_gate, serve, start_up, Event, arrives, restarts, live,
}
use sentinelai_v.Gateway.Stack.{
  Web, Call, Site, set_state, key_of_call, call_next, settled, from_phase, dispatch_keyed, passed,
  routed, past_gate, pass,
}

-- What happens at a gateway: a call; a restart; and whatever changes Redis besides, as keys that
-- expire, other gateways, or Redis's own restart.
pub data Occurrence : Type 0 where
  calls : Call → Occurrence
  boots : Occurrence
  redis_holds : List (String × State) → Occurrence

abbrev reborn : Site → Site
reborn site =
    let (state, db, core) = start_up site.db site.core in record site { db = db; core = core }

unfoldable pub day : Web → List Occurrence → Site → Site
day web [] site = site
day web (calls c ∷ rest) site = day web rest (pass web c site).1
day web (boots ∷ rest) site = day web rest (reborn site)
day web (redis_holds stored ∷ rest) site = day web rest (record site { redis = stored })

-- The ledger and the core of a site are these.
abbrev Keeps : Db × Core → Site → Type 0
Keeps (db, core) site = (site.db ≡ db) × (site.core ≡ core)

abbrev left : Answer × Db × Core → Db × Core
left (answer, db, core) = (db, core)

-- A gate and what stands behind it have left alone the ledger and the core, or did what the
-- endpoint does.
abbrev IsServed : Gate → Arrival → Site → Site → Type 0
IsServed gate a site after =
    Keeps (site.db, site.core) after ⊎ Keeps (left (behind_gate gate a site.db site.core)) after

module _ (web : Web) where
  settled-Keeps :
      (key h : String) (x : Option Idempotency.Response × Site)
      → Keeps (x.1.db, x.1.core) (settled web key h x).1
  settled-Keeps key h (none, site) = (refl, refl)
  settled-Keeps key h (some r, site) = elim (Bool-cases (is_cached web.lower web.decode r)) [
    | inl below ↦ rw below (refl, refl)
    | inr above ↦ rw above (refl, refl)
  ]

  endpoint-IsServed :
      (c : Call) (redis : List (String × State)) (site : Site)
      → Keeps
          (left (behind_gate proceed c.arrival site.db site.core))
          (call_next web c (record site { redis = redis })).1
  unfolding call_next
  endpoint-IsServed c redis site = (refl, refl)

  from_phase-IsServed :
      (key : String) (c : Call) (p : Phase) (site : Site)
      → IsServed proceed c.arrival site (from_phase web key c p site).1
  from_phase-IsServed key c starting site =
      let begun = set_state key (started c.payload_hash) site in
      let ran = endpoint-IsServed c begun.redis site in
      let kept = settled-Keeps key c.payload_hash (call_next web c begun) in
      inr (kept.0 ∙ ran.0, kept.1 ∙ ran.1)
  from_phase-IsServed key c polling site = inl (refl, refl)
  from_phase-IsServed key c entered site = inl (refl, refl)
  from_phase-IsServed key c executing site = inl (refl, refl)
  from_phase-IsServed key c (storing q) site = inl (refl, refl)
  from_phase-IsServed key c (releasing a) site = inl (refl, refl)
  from_phase-IsServed key c (answered a) site = inl (refl, refl)

  dispatch-IsServed :
      (key : String) (c : Call) (site : Site)
      → IsServed proceed c.arrival site (dispatch_keyed web key c site).1
  unfolding dispatch_keyed
  dispatch-IsServed key c site = from_phase-IsServed key c _ site

  passed-Keeps :
      (x : Option Idempotency.Response × Site) → Keeps (x.1.db, x.1.core) (passed web x).1
  passed-Keeps (none, site) = (refl, refl)
  passed-Keeps (some r, site) = (refl, refl)

  routed-IsServed :
      (to : Route) (c : Call) (site : Site)
      → IsServed proceed c.arrival site (routed web to c site).1
  routed-IsServed passes_on c site =
      let ran = endpoint-IsServed c site.redis site in
      let kept = passed-Keeps (call_next web c site) in inr (kept.0 ∙ ran.0, kept.1 ∙ ran.1)
  routed-IsServed key_required c site = inl (refl, refl)
  routed-IsServed (keyed header) c site = dispatch-IsServed (key_of_call header c) c site

  -- A call leaves the ledger and the core as they are, or does to them what `serve` does.
  pub pass-IsServed :
      (c : Call) (site : Site)
      → Keeps (site.db, site.core) (pass web c site).1
        ⊎ Keeps (left (serve c.arrival site.db site.core)) (pass web c site).1
  unfolding pass serve
  pass-IsServed c site =
      by_gate (security_gate (some c.arrival.recovery) site.core "POST" c.arrival.random)
    where
      by_gate : (g : Gate) → IsServed g c.arrival site (past_gate web g c site).1
      by_gate (refuse status detail) = inl (refl, refl)
      by_gate proceed = routed-IsServed _ c site

  -- The requests that reach the endpoint, and the restarts.
  pub day-live :
      (events : List Occurrence) (site : Site)
      → (reached : List Event) × (let after = day web events site in
          live reached site.db site.core ≡ (after.db, after.core))
  unfolding day live
  day-live [] site = ([], refl)
  day-live (boots ∷ rest) site =
      let (reached, same) = day-live rest (reborn site) in (restarts ∷ reached, same)
  day-live (redis_holds stored ∷ rest) site = day-live rest (record site { redis = stored })
  day-live (calls c ∷ rest) site =
      let (reached, same) = day-live rest (pass web c site).1 in
      elim (pass-IsServed c site) [
        | inl (db, core) ↦ (reached, (λ i. live reached (sym db i) (sym core i)) ∙ same)
        | inr (db, core) ↦
            (arrives c.arrival ∷ reached, (λ i. live reached (sym db i) (sym core i)) ∙ same)
      ]

  -- The gateway writes no unbacked payment: if every payment of the ledger goes to the IBAN of a
  -- compliant beneficiary that its user has whitelisted, with an amount in bounds or `nan`, so does
  -- every payment after any sequence of transfer requests through the middlewares, restarts and
  -- changes of what Redis holds, whatever the requests hold, in any modes, and whichever statements
  -- of theirs fail.
  pub day-IsBacked :
      (events : List Occurrence) (site : Site)
      → IsBacked site.db
      → IsBacked (day web events site).db
  day-IsBacked events site backed =
      let (reached, same) = day-live events site in
      subst IsBacked (ap (λ x. x.0) same) (live-IsBacked reached site.db site.core backed)
