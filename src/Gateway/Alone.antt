-- ===== src/Gateway/Alone.antt =====
-- A request that the middlewares serve alone, in the steps of Idempotency.antt.
use sentinelai_v.Prelude.{
  String, ◌≡◌, refl, sym, ap, ◌∙◌, subst, inl, inr, false, Bool-cases, Option, none, some, [], ◌∷◌,
  ◌==◌, eq_refl,
}
use sentinelai_v.Idempotency
use sentinelai_v.Idempotency.{
  State, started, completed, Answer, fresh, raised, Phase, polling, entered, executing, answered,
  starting, storing, releasing, check_state, after_endpoint, stored, is_cached, World, Step,
  arrives, locks, checks, starts, responds, raises, stores, releases, mismatch, replayed, Reach,
  begin, step,
}
use sentinelai_v.Idempotency.Counting.{at}
use sentinelai_v.Gateway.Stack.{
  Web, Call, Site, get_state, set_state, call_next, settled, from_phase, dispatch_keyed,
}
use sentinelai_v.Gateway.Frame.{seen, call_next-seen}

module _ (web : Web) where
  abbrev Run : World → World → Type 0
  Run = Reach web.lower web.decode

  -- A world that `s` runs to, in which a request with this hash has got this answer, no lock is
  -- held, and this state is stored.
  abbrev pub Serves : World → String → Answer → Option State → Type 0
  Serves s h a state =
      (t : World) × Run s t
      × (t.workers ≡ at h (answered a) ∷ s.workers)
      × (t.lock ≡ false)
      × (t.state ≡ state)

  released :
      (s u : World) (h : String) (a : Answer)
      → Run s u
      → u.workers ≡ at h (releasing a) ∷ s.workers
      → Serves s h a u.state
  released s u h a run here = (_, step run (releases [] s.workers h a here), refl, refl, refl)

  responded :
      (s u : World) (h key : String) (x : Option Idempotency.Response × Site)
      → Run s u
      → u.workers ≡ at h executing ∷ s.workers
      → u.state ≡ seen key x.1
      → let y = settled web key h x in Serves s h y.0 (seen key y.1)
  unfolding get_state
  responded s u h key (none, site) run here same =
      subst (Serves s h raised) same
        (released s _ h raised (step run (raises [] s.workers h here)) refl)
  responded s u h key (some r, site) run here same =
      elim (Bool-cases (is_cached web.lower web.decode r)) [
        | inl below ↦
            rw (below, eq_refl key)
              (released s _ h (fresh r)
                (step (step run (responds [] s.workers h r here))
                  (stores [] s.workers h r (rw below refl)))
                refl)
        | inr above ↦ rw above (
            subst (Serves s h (fresh r)) same (
              released s _ h (fresh r) (step run (responds [] s.workers h r here)) (rw above refl)))
      ]

  endpoint-Serves :
      (s u : World) (key : String) (c : Call) (site : Site)
      → Run s u
      → u.workers ≡ at c.payload_hash starting ∷ s.workers
      → let y = from_phase web key c starting site in Serves s c.payload_hash y.0 (seen key y.1)
  unfolding get_state
  endpoint-Serves s u key c site run here =
      let begun = set_state key (started c.payload_hash) site in
      responded s _ c.payload_hash key (call_next web c begun)
        (step run (starts [] s.workers c.payload_hash here)) refl
        (sym (call_next-seen web key c begun ∙ (rw (eq_refl key) refl)))

  checked-Serves :
      (s u : World) (key : String) (c : Call) (found : Option State) (site : Site)
      → Run s u
      → u.workers
        ≡ at c.payload_hash (check_state web.lower web.decode c.payload_hash found) ∷ s.workers
      → u.state ≡ seen key site
      → let y = from_phase web key c (check_state web.lower web.decode c.payload_hash found) site in
        Serves s c.payload_hash y.0 (seen key y.1)
  unfolding check_state
  checked-Serves s u key c none site run here same = endpoint-Serves s u key c site run here
  checked-Serves s u key c (some (started h)) site run here same =
      elim (Bool-cases (h == c.payload_hash)) [
        | inl own ↦ rw own (endpoint-Serves s u key c site run (rw own at here))
        | inr other ↦ rw other (
            subst (Serves s c.payload_hash mismatch) same
              (released s u c.payload_hash mismatch run (rw other at here)))
      ]
  checked-Serves s u key c (some (completed h r)) site run here same =
      elim (Bool-cases (h == c.payload_hash)) [
        | inl own ↦ rw own (
            subst (Serves s c.payload_hash (replayed r)) same
              (released s u c.payload_hash (replayed r) run (rw own at here)))
        | inr other ↦ rw other (
            subst (Serves s c.payload_hash mismatch) same
              (released s u c.payload_hash mismatch run (rw other at here)))
      ]

  -- A request that finds no lock of its key is served as the step relation of the middleware
  -- allows: from a world with the stored state of its key, that relation runs to one in which the
  -- request is answered as `dispatch_keyed` answers it, the state is the one that it leaves, and no
  -- lock is held.
  pub dispatch_keyed-Serves :
      (s : World) (key : String) (c : Call) (site : Site)
      → s.lock ≡ false
      → s.state ≡ seen key site
      → let y = dispatch_keyed web key c site in Serves s c.payload_hash y.0 (seen key y.1)
  unfolding dispatch_keyed
  dispatch_keyed-Serves s key c site unlocked same =
      let h = c.payload_hash in
      checked-Serves s _ key c (seen key site) site
        (step (step (step begin (arrives h)) (locks [] s.workers h refl unlocked))
          (checks [] s.workers h refl))
        (ap (λ x. at h (check_state web.lower web.decode h x) ∷ s.workers) same) same
