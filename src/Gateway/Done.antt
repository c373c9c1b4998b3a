-- ===== src/Gateway/Done.antt =====
-- A completed state of core/idempotency.py while further calls pass the middlewares.
use sentinelai_v.Prelude.{
  String, ◌≡◌, refl, sym, ap, subst, ◌∙◌, inl, inr, Bool-cases, some, List, [], ◌∷◌, ◌==◌, eq_iff,
  arith, if◌then◌else◌,
}
use sentinelai_v.Idempotency
use sentinelai_v.Idempotency.{
  State, started, completed, Answer, fresh, raised, replayed, mismatch, Phase, polling, entered,
  executing, answered, starting, storing, releasing, Route, passes_on, key_required, keyed, route,
  check_state, after_endpoint, stored, is_cached,
}
use sentinelai_v.Gateway.{Gate, proceed, refuse}
use sentinelai_v.Gateway.Stack.{
  Web, Call, Site, key_of_call, dispatch_keyed, routed, past_gate, pass, pass_all,
}
use sentinelai_v.Gateway.Frame.{seen, passed-seen, dispatch_other}

-- What a completed state answers to a body of this hash.
abbrev pub again : String → Idempotency.Response → String → Answer
again h r h' = if h == h' then replayed r else mismatch

module _ (web : Web) where
  abbrev pub IsDone : String → String → Idempotency.Response → Site → Type 0
  IsDone key h r site = seen key site ≡ some (completed h r)

  pub done_dispatch :
      (key h : String) (r : Idempotency.Response) (c : Call) (site : Site)
      → IsDone key h r site
      → dispatch_keyed web key c site ≡ (again h r c.payload_hash, site)
  unfolding dispatch_keyed check_state
  done_dispatch key h r c site done = elim (Bool-cases (h == c.payload_hash)) [
    | inl same ↦ rw (done, same) refl
    | inr other ↦ rw (done, other) refl
  ]

  dispatch-IsDone :
      (key key' h : String) (r : Idempotency.Response) (c : Call) (site : Site)
      → IsDone key h r site
      → IsDone key h r (dispatch_keyed web key' c site).1
  dispatch-IsDone key key' h r c site done = elim (Bool-cases (key' == key)) [
    | inl same ↦
        subst (λ k. IsDone key h r (dispatch_keyed web k c site).1) (sym ((eq_iff key' key).0 same))
          (ap (λ x. seen key x.1) (done_dispatch key h r c site done) ∙ done)
    | inr other ↦
        dispatch_other web key key' c site (λ e. ground (arith, other, e, eq_iff key' key)) ∙ done
  ]

  routed-IsDone :
      (key h : String) (r : Idempotency.Response) (to : Route) (c : Call) (site : Site)
      → IsDone key h r site
      → IsDone key h r (routed web to c site).1
  routed-IsDone key h r passes_on c site done = passed-seen web key c site ∙ done
  routed-IsDone key h r key_required c site done = done
  routed-IsDone key h r (keyed header) c site done =
      dispatch-IsDone key (key_of_call header c) h r c site done

  past_gate-IsDone :
      (key h : String) (r : Idempotency.Response) (gate : Gate) (c : Call) (site : Site)
      → IsDone key h r site
      → IsDone key h r (past_gate web gate c site).1
  past_gate-IsDone key h r proceed c site done = routed-IsDone key h r _ c site done
  past_gate-IsDone key h r (refuse status detail) c site done = done

  pub pass_all-IsDone :
      (key h : String) (r : Idempotency.Response) (cs : List Call) (site : Site)
      → IsDone key h r site
      → IsDone key h r (pass_all web cs site)
  unfolding pass_all pass
  pass_all-IsDone key h r [] site done = done
  pass_all-IsDone key h r (c ∷ rest) site done =
      pass_all-IsDone key h r rest (pass web c site).1 (past_gate-IsDone key h r _ c site done)
