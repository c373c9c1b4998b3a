-- ===== src/Gateway/Refines.antt =====
-- The gateway's requests, one after another, as the middleware's step relation sees them at one
-- key.
use sentinelai_v.Prelude.{
  some, String, ◌≡◌, refl, sym, ap, ◌∙◌, inl, inr, false, Bool-cases, List, [], ◌∷◌, ◌==◌, eq_iff,
  arith, if◌then◌else◌,
}
use sentinelai_v.Idempotency.{
  answered, Route, passes_on, key_required, keyed, route, Worker, World, Reach, begin, step,
}
use sentinelai_v.Idempotency.Counting.{at}
use sentinelai_v.Gateway.{Gate, proceed, refuse, security_gate}
use sentinelai_v.Gateway.Stack.{
  Web, Call, Site, key_of_call, dispatch_keyed, routed, past_gate, pass, pass_all,
}
use sentinelai_v.Gateway.Frame.{seen, passed-seen, dispatch_other}
use sentinelai_v.Gateway.Alone.{dispatch_keyed-Serves}

module _ (web : Web) where
  -- The call's answer, if the middleware serves it under this key, before the other workers.
  abbrev routed_worker : String → Route → Call → Site → List Worker → List Worker
  routed_worker key passes_on c site ws = ws
  routed_worker key key_required c site ws = ws
  routed_worker key (keyed header) c site ws =
      if key_of_call header c == key
      then at c.payload_hash (answered (dispatch_keyed web key c site).0) ∷ ws
      else ws

  abbrev gated_worker : String → Gate → Call → Site → List Worker → List Worker
  gated_worker key (refuse status detail) c site ws = ws
  gated_worker key proceed c site ws =
      routed_worker key (route false "POST" c.arrival.headers.idempotency_key) c site ws

  abbrev worker_of : String → Call → Site → List Worker → List Worker
  worker_of key c site =
      gated_worker key (security_gate (some c.arrival.recovery) site.core "POST" c.arrival.random) c
        site

  -- The requests of a day under this key with their answers, the last one first.
  unfoldable pub served_under : String → List Call → Site → List Worker → List Worker
  served_under key [] site ws = ws
  served_under key (c ∷ rest) site ws =
      served_under key rest (pass web c site).1 (worker_of key c site ws)

  -- A world that `s` runs to with these workers, no lock, and the state that Redis holds.
  abbrev pub Matches : World → String → List Worker → Site → Type 0
  Matches s key ws site =
      (t : World) × Reach web.lower web.decode s t
      × (t.workers ≡ ws)
      × (t.lock ≡ false)
      × (t.state ≡ seen key site)

  Reach-trans :
      (s t u : World)
      → Reach web.lower web.decode s t
      → Reach web.lower web.decode t u
      → Reach web.lower web.decode s u
  Reach-trans s t u first begin = first
  Reach-trans s t u first (step reached next) = step (Reach-trans s t _ first reached) next

  routed-Matches :
      (s : World) (key : String) (to : Route) (c : Call) (site : Site)
      → s.lock ≡ false
      → s.state ≡ seen key site
      → Matches s key (routed_worker key to c site s.workers) (routed web to c site).1
  routed-Matches s key passes_on c site unlocked same =
      (s, begin, refl, unlocked, same ∙ sym (passed-seen web key c site))
  routed-Matches s key key_required c site unlocked same = (s, begin, refl, unlocked, same)
  routed-Matches s key (keyed header) c site unlocked same =
      elim (Bool-cases (key_of_call header c == key)) [
        | inl own ↦
            let e = (eq_iff (key_of_call header c) key).0 own in
            rw (own, e) (dispatch_keyed-Serves web s key c site unlocked same)
        | inr other ↦ rw other (
          s,
          begin,
          refl,
          unlocked,
          same
              ∙ sym (
                  dispatch_other web key (key_of_call header c) c site
                    (λ e. ground (arith, other, e, eq_iff (key_of_call header c) key))),
        )
      ]

  pass-Matches :
      (s : World) (key : String) (c : Call) (site : Site)
      → s.lock ≡ false
      → s.state ≡ seen key site
      → Matches s key (worker_of key c site s.workers) (pass web c site).1
  unfolding pass
  pass-Matches s key c site unlocked same = gated _
    where
      gated :
          (gate : Gate)
          → Matches s key (gated_worker key gate c site s.workers) (past_gate web gate c site).1
      gated (refuse status detail) = (s, begin, refl, unlocked, same)
      gated proceed = routed-Matches s key _ c site unlocked same

  -- Served one after another, the requests are at every key a run of the middleware's step
  -- relation: from a world without a lock and with the key's state, it runs to one in which each
  -- request that was dispatched under the key, in their order, has the answer that it got here, no
  -- lock is held, and the state is the one that Redis is left with.
  pub pass_all-Matches :
      (s : World) (key : String) (cs : List Call) (site : Site)
      → s.lock ≡ false
      → s.state ≡ seen key site
      → Matches s key (served_under key cs site s.workers) (pass_all web cs site)
  unfolding pass_all served_under
  pass_all-Matches s key [] site unlocked same = (s, begin, refl, unlocked, same)
  pass_all-Matches s key (c ∷ rest) site unlocked same =
      let (t, run, here, unlocked', same') = pass-Matches s key c site unlocked same in
      let (u, run', here', unlocked'', same'') =
        pass_all-Matches t key rest (pass web c site).1 unlocked' same' in
      (
        u,
        Reach-trans s t u run run',
        here' ∙ ap (served_under key rest (pass web c site).1) here,
        unlocked'',
        same'',
      )
