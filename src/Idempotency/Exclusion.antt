-- ===== src/Idempotency/Exclusion.antt =====
-- What core/idempotency.py guarantees for the requests under one key while no key of Redis expires.
use sentinelai_v.Prelude.{
  String, ◌≡◌, refl, sym, ap, ◌∙◌, subst, inl, inr, true, List, [], ◌∷◌, ◌≤◌, ◌+◌, length,
  All-Member, Member, arith,
}
use sentinelai_v.Idempotency.{
  Response, timed_out, replayed, fresh, raised, polling, entered, starting, executing, storing,
  releasing, answered, Worker, World, stored, is_cached, Step, arrives, locks, finds_completed,
  times_out, checks, starts, responds, raises, stores, releases, poll_fails, lock_unanswered,
  check_fails, start_fails, start_unanswered, store_fails, store_unanswered, release_fails,
  release_unanswered, Reach, begin, step, fresh_world,
}
use sentinelai_v.Idempotency.Counting.{at_endpoint, count, busy_le_inside, at_endpoint_le_busy}
use sentinelai_v.Idempotency.Invariant.{
  IsHonest, Form, undecided, decided, IsExclusive, moved-IsExclusive, one_lock,
}
use sentinelai_v.Idempotency.Steps.{
  checked, locked_in, found_completed, released, responded, arrived,
}
use sentinelai_v.Idempotency.Storing.{started_only, stored_once}

module _ (lower decode : String → String) where
  Step-IsExclusive :
      (s t : World)
      → Step lower decode s t
      → IsExclusive lower decode s
      → IsExclusive lower decode t
  Step-IsExclusive s t (arrives h) x = arrived lower decode s h x
  Step-IsExclusive s t (locks before after h here unlocked) x =
      locked_in lower decode s before after h entered here (omega arith) refl tt unlocked x
  Step-IsExclusive s t (finds_completed before after h h' r here done) x =
      found_completed lower decode s before after h h' r here done x
  Step-IsExclusive s t (times_out before after h here) x =
      moved-IsExclusive lower decode s before after h polling (answered timed_out) here
        (omega arith) (omega arith) tt x
  Step-IsExclusive s t (checks before after h here) x = checked lower decode s before after h here x
  Step-IsExclusive s t (starts before after h here) x =
      started_only lower decode s before after h executing here (omega arith) tt x
  Step-IsExclusive s t (responds before after h r here) x =
      responded lower decode s before after h r here x
  Step-IsExclusive s t (raises before after h here) x =
      moved-IsExclusive lower decode s before after h executing (releasing raised) here
        (omega arith) (omega arith) tt x
  Step-IsExclusive s t (stores before after h r here) x =
      stored_once lower decode s before after h r (fresh r) here (λ cached. inl refl) x
  Step-IsExclusive s t (releases before after h a here) x =
      released lower decode s before after h a a here (λ own. own) x
  Step-IsExclusive s t (poll_fails before after h here) x =
      moved-IsExclusive lower decode s before after h polling (answered raised) here (omega arith)
        (omega arith) tt x
  Step-IsExclusive s t (lock_unanswered before after h here unlocked) x =
      locked_in lower decode s before after h (answered raised) here (omega arith) refl tt unlocked
        x
  Step-IsExclusive s t (check_fails before after h here) x =
      moved-IsExclusive lower decode s before after h entered (releasing raised) here (omega arith)
        (omega arith) tt x
  Step-IsExclusive s t (start_fails before after h here) x =
      moved-IsExclusive lower decode s before after h starting (releasing raised) here (omega arith)
        (omega arith) tt x
  Step-IsExclusive s t (start_unanswered before after h here) x =
      started_only lower decode s before after h (releasing raised) here (omega arith) tt x
  Step-IsExclusive s t (store_fails before after h r here) x =
      moved-IsExclusive lower decode s before after h (storing r) (releasing raised) here
        (omega arith) (omega arith) tt x
  Step-IsExclusive s t (store_unanswered before after h r here) x =
      stored_once lower decode s before after h r raised here tt x
  Step-IsExclusive s t (release_fails before after h a here) x =
      moved-IsExclusive lower decode s before after h (releasing a) (answered raised) here
        (omega arith) (omega arith) tt x
  Step-IsExclusive s t (release_unanswered before after h a here) x =
      released lower decode s before after h a raised here (λ own. tt) x

  Reach-IsExclusive : (s : World) → Reach lower decode fresh_world s → IsExclusive lower decode s
  Reach-IsExclusive s begin = record {
    form = undecided (λ h r e. cc e) refl (omega arith);
    honest = tt;
  }
  Reach-IsExclusive s (step reached next) = Step-IsExclusive _ s next (Reach-IsExclusive _ reached)

  -- However the requests under one key interleave, and whichever calls of Redis raise, as long as
  -- no key of Redis expires: the requests in the endpoint and the responses that were ever stored
  -- are together at most one. So once a response is stored, no request enters the endpoint again.
  pub one_at_a_time :
      (s : World)
      → Reach lower decode fresh_world s
      → count at_endpoint s.workers + length s.ran ≤ 1
  one_at_a_time s reached = go (Reach-IsExclusive s reached).form
    where
      go : Form lower decode s → count at_endpoint s.workers + length s.ran ≤ 1
      go (undecided unset nothing few) = rw nothing (
          omega (
            arith,
            few,
            one_lock lower decode s.lock,
            busy_le_inside s.workers,
            at_endpoint_le_busy s.workers,
          ))
      go (decided h r state one none_busy) =
          rw one (omega (arith, none_busy, at_endpoint_le_busy s.workers))

  -- A request has been answered by a response of the endpoint below 500, which is this one as it is
  -- stored.
  pub data Serves (w : Worker) (r : Response) : Type 0 where
    from_cache : w.phase ≡ answered (replayed r) → Serves w r
    from_endpoint :
        (x : Response)
        → w.phase ≡ answered (fresh x)
        → is_cached lower decode x ≡ true
        → r ≡ stored lower decode x
        → Serves w r

  Serves-Member :
      (ran : List (String × Response)) (w : Worker) (r : Response)
      → IsHonest lower decode ran w
      → Serves w r
      → Member (w.payload_hash, r) ran
  Serves-Member ran w r own (from_cache at_end) = rw at_end at own
  Serves-Member ran w r own (from_endpoint x at_end cached same) =
      rw same ((rw at_end at own) cached)

  -- However the requests under one key interleave, and whichever calls of Redis raise, as long as
  -- no key of Redis expires: any two that are answered with a response of the endpoint below 500,
  -- at first hand or from the stored state, have one payload hash and get one response, as it is
  -- stored. The answers 408 and 409 are the middleware's own, and not meant.
  pub one_answer :
      (s : World) (w w' : Worker) (r r' : Response)
      → Reach lower decode fresh_world s
      → Member w s.workers
      → Member w' s.workers
      → Serves w r
      → Serves w' r'
      → (w.payload_hash ≡ w'.payload_hash) × (r ≡ r')
  one_answer s w w' r r' reached m m' serves serves' =
      let x = Reach-IsExclusive s reached in
      let own =
        Serves-Member s.ran w r (All-Member (IsHonest lower decode s.ran) w s.workers x.honest m)
          serves in
      let own' =
        Serves-Member s.ran w' r'
          (All-Member (IsHonest lower decode s.ran) w' s.workers x.honest m') serves' in
      go x.form own own'
    where
      go :
          Form lower decode s
          → Member (w.payload_hash, r) s.ran
          → Member (w'.payload_hash, r') s.ran
          → (w.payload_hash ≡ w'.payload_hash) × (r ≡ r')
      go (undecided unset nothing few) own own' =
          absurd (subst (Member (w.payload_hash, r)) nothing own)
      go (decided h x state one none_busy) own own' =
          let e = single (subst (Member (w.payload_hash, r)) one own) in
          let e' = single (subst (Member (w'.payload_hash, r')) one own') in
          (ap (λ z. z.0) (e ∙ sym e'), ap (λ z. z.1) (e ∙ sym e'))
        where
          single : {y : String × Response} → Member y ((h, x) ∷ []) → y ≡ (h, x)
          single (inl e) = e
          single (inr m) = absurd m
