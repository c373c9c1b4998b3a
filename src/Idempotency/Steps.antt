-- ===== src/Idempotency/Steps.antt =====
-- Every step of a request in core/idempotency.py keeps the invariant.
use sentinelai_v.Prelude.{
  String, ◌≡◌, subst, inl, inr, true, false, Bool-cases, some, List, ◌∷◌, ◌++◌, ◌≤◌, All, arith,
}
use sentinelai_v.Idempotency.{
  Response, completed, Answer, fresh, Phase, polling, entered, executing, storing, releasing,
  answered, Worker, World, is_cached, check_state, after_endpoint, moved,
}
use sentinelai_v.Idempotency.Counting.{inside, busy, count, at, count_move, All-middle}
use sentinelai_v.Idempotency.Invariant.{
  IsHonest, IsOwn, Form, undecided, decided, IsExclusive, moved-Form, moved-IsHonest,
  check_state-inside, check_state-completed, check_state-undecided, one_lock,
}

module _ (lower decode : String → String) where
  pub checked :
      (s : World) (before after : List Worker) (h : String)
      → s.workers ≡ before ++ at h entered ∷ after
      → IsExclusive lower decode s
      → IsExclusive lower decode
          (moved lower decode s before h (check_state lower decode h s.state) after)
  checked s before after h here x = go x.form
    where
      p' : Phase
      p' = check_state lower decode h s.state

      go : Form lower decode s → IsExclusive lower decode (moved lower decode s before h p' after)
      go (undecided unset nothing few) = record {
        form = undecided unset nothing (
            let m = count_move inside entered p' h s.workers before after here in
            omega (arith, m, few, check_state-inside lower decode h s.state));
        honest =
            moved-IsHonest lower decode s before after h entered p' here x.honest
              (check_state-undecided lower decode h s.state s.ran unset);
      }
      go (decided h' r state one none_busy) =
          let (idle, own) = check_state-completed lower decode h h' r in
          let idle' : busy p' ≡ 0 = rw state idle in
          record {
            form = decided h' r state one (
                let m = count_move busy entered p' h s.workers before after here in
                omega (arith, m, none_busy, idle'));
            honest =
                moved-IsHonest lower decode s before after h entered p' here x.honest
                  (rw (one, state) own);
          }

  -- The lock is set by a request that gets in, or that does not learn of it.
  pub locked_in :
      (s : World) (before after : List Worker) (h : String) (p' : Phase)
      → s.workers ≡ before ++ at h polling ∷ after
      → inside p' ≤ 1
      → busy p' ≡ 0
      → IsHonest lower decode s.ran (at h p')
      → s.lock ≡ false
      → IsExclusive lower decode s
      → IsExclusive lower decode (record (moved lower decode s before h p' after) { lock = true })
  locked_in s before after h p' here le_one idle own unlocked x = record {
    form = go x.form;
    honest = moved-IsHonest lower decode s before after h polling p' here x.honest own;
  }
    where
      go :
          Form lower decode s
          → Form lower decode (record (moved lower decode s before h p' after) { lock = true })
      go (undecided unset nothing few) = undecided unset nothing (
          let m = count_move inside polling p' h s.workers before after here in
          let empty : count inside s.workers ≤ 0 = rw unlocked at few in
          omega (arith, m, empty, le_one))
      go (decided h' r state one none_busy) = decided h' r state one (
          let m = count_move busy polling p' h s.workers before after here in
          omega (arith, m, none_busy, idle))

  pub found_completed :
      (s : World) (before after : List Worker) (h h' : String) (r : Response)
      → s.workers ≡ before ++ at h polling ∷ after
      → s.state ≡ some (completed h' r)
      → IsExclusive lower decode s
      → IsExclusive lower decode (moved lower decode s before h entered after)
  found_completed s before after h h' r here done x = record {
    form = go x.form;
    honest = moved-IsHonest lower decode s before after h polling entered here x.honest tt;
  }
    where
      go : Form lower decode s → Form lower decode (moved lower decode s before h entered after)
      go (undecided unset nothing few) = absurd (unset h' r done)
      go (decided h'' r' state one none_busy) = decided h'' r' state one (
          let m = count_move busy polling entered h s.workers before after here in
          omega (arith, m, none_busy))

  -- The lock is deleted whoever holds it: before anything is stored that is the request inside, and
  -- later it does no harm.
  pub released :
      (s : World) (before after : List Worker) (h : String) (a a' : Answer)
      → s.workers ≡ before ++ at h (releasing a) ∷ after
      → (IsOwn lower decode s.ran h a → IsOwn lower decode s.ran h a')
      → IsExclusive lower decode s
      → IsExclusive lower decode
          (record (moved lower decode s before h (answered a') after) { lock = false })
  released s before after h a a' here keeps x = record {
    form = go x.form;
    honest =
        moved-IsHonest lower decode s before after h (releasing a) (answered a') here x.honest own;
  }
    where
      own : IsHonest lower decode s.ran (at h (answered a'))
      own = keeps (
          All-middle (IsHonest lower decode s.ran) before after (at h (releasing a))
            (subst (All (IsHonest lower decode s.ran)) here x.honest))

      go :
          Form lower decode s
          → Form lower decode
              (record (moved lower decode s before h (answered a') after) { lock = false })
      go (undecided unset nothing few) = undecided unset nothing (
          let m = count_move inside (releasing a) (answered a') h s.workers before after here in
          omega (arith, m, few, one_lock lower decode s.lock))
      go (decided h' r state one none_busy) = decided h' r state one (
          let m = count_move busy (releasing a) (answered a') h s.workers before after here in
          omega (arith, m, none_busy))

  pub responded :
      (s : World) (before after : List Worker) (h : String) (r : Response)
      → s.workers ≡ before ++ at h executing ∷ after
      → IsExclusive lower decode s
      → IsExclusive lower decode
          (moved lower decode s before h (after_endpoint lower decode r) after)
  responded s before after h r here x = elim (Bool-cases (is_cached lower decode r)) [
    | inl cached ↦ rw cached (record {
      form =
          moved-Form lower decode s before after h executing (storing r) here (omega arith)
            (omega arith) x.form;
      honest = moved-IsHonest lower decode s before after h executing (storing r) here x.honest tt;
    })
    | inr server_error ↦ rw server_error (record {
      form =
          moved-Form lower decode s before after h executing (releasing (fresh r)) here
            (omega arith) (omega arith) x.form;
      honest =
          moved-IsHonest lower decode s before after h executing (releasing (fresh r)) here x.honest
            (λ cached. cc (cached, server_error));
    })
  ]

  pub arrived :
      (s : World) (h : String)
      → IsExclusive lower decode s
      → IsExclusive lower decode (record s { workers = at h polling ∷ s.workers })
  arrived s h x = record { form = go x.form; honest = (tt, x.honest) }
    where
      go : Form lower decode s → Form lower decode (record s { workers = at h polling ∷ s.workers })
      go (undecided unset nothing few) = undecided unset nothing (omega (arith, few))
      go (decided h' r state one none_busy) = decided h' r state one (omega (arith, none_busy))
