-- ===== src/Idempotency/Expiry.antt =====
-- What happens in core/idempotency.py when the lock expires while its holder is still at work.
use sentinelai_v.Prelude.{String, ◌≡◌, refl, true, some, [], ◌∷◌, eq_refl, subst}
use sentinelai_v.Idempotency.{
  started, Phase, polling, entered, starting, executing, World, check_state, Step, arrives, locks,
  checks, starts, Reach, begin, step, fresh_world, expire_lock,
}
use sentinelai_v.Idempotency.Counting.{at_endpoint, count, at}

module _ (lower decode : String → String) (h : String) where
  -- One request is in the endpoint, and a second one with the same body waits for the lock.
  abbrev pub one_running : World
  one_running = record {
    lock = true;
    state = some (started h);
    workers = at h polling ∷ at h executing ∷ [];
    ran = [];
  }

  abbrev with_second : Phase → World
  with_second p = record one_running { workers = at h p ∷ at h executing ∷ [] }

  reach-one_running : Reach lower decode fresh_world one_running
  unfolding check_state
  reach-one_running =
      step
        (step (step (step (step begin (arrives h)) (locks [] [] h refl refl)) (checks [] [] h refl))
          (starts [] [] h refl))
        (arrives h)

  check_started : check_state lower decode h (some (started h)) ≡ starting
  unfolding check_state
  check_started = rw (eq_refl h) refl

  checks_started : Step lower decode (with_second entered) (with_second starting)
  checks_started =
      subst (λ p. Step lower decode (with_second entered) (with_second p)) check_started
        (checks [] (at h executing ∷ []) h refl)

  -- If the lock expires while a request is in the endpoint, a second request with the same body gets
  -- into the endpoint beside it: both states can be reached.
  pub expired_lock_admits_second :
      Reach lower decode fresh_world one_running
      × ((s : World) × Reach lower decode (expire_lock one_running) s
          × (count at_endpoint s.workers ≡ 2))
  expired_lock_admits_second = (
    reach-one_running,
    (
      with_second executing,
      step (step (step begin (locks [] (at h executing ∷ []) h refl refl)) checks_started)
          (starts [] (at h executing ∷ []) h refl),
      refl,
    ),
  )
