-- ===== src/Idempotency/Invariant.antt =====
-- The invariant of core/idempotency.py while no key of Redis expires: whether a response is stored, and
-- who is past the lock.
use sentinelai_v.Prelude.{
  ℕ, String, ◌≡◌, ◌≢◌, refl, sym, ap, subst, inl, inr, Bool, true, false, Bool-cases, Option, none,
  some, List, [], ◌∷◌, ◌++◌, ◌==◌, eq_iff, ◌≤◌, All, Member, arith,
}
use sentinelai_v.Idempotency.{
  Response, State, started, completed, Answer, timed_out, mismatch, replayed, fresh, raised, Phase,
  polling, entered, starting, executing, storing, releasing, answered, Worker, World, stored,
  is_cached, check_state, moved,
}
use sentinelai_v.Idempotency.Counting.{inside, busy, count, at, count_move, All-replace}

abbrev pub as_number : Bool → ℕ
as_number true = 1
as_number false = 0

module _ (lower decode : String → String) where
  -- An answer below 500 is the response that was stored for the request's own hash.
  abbrev pub IsOwn : List (String × Response) → String → Answer → Type 0
  IsOwn ran h (replayed r) = Member (h, r) ran
  IsOwn ran h (fresh r) = is_cached lower decode r ≡ true → Member (h, stored lower decode r) ran
  IsOwn ran h a = Unit

  abbrev pub IsHonest : List (String × Response) → Worker → Type 0
  IsHonest ran w = elim w.phase [
    | polling ↦ Unit
    | entered ↦ Unit
    | starting ↦ Unit
    | executing ↦ Unit
    | storing r ↦ Unit
    | releasing a ↦ IsOwn ran w.payload_hash a
    | answered a ↦ IsOwn ran w.payload_hash a
  ]

  -- Nothing is stored yet, and the lock lets one request in; or one response is, and no request is
  -- on the way to store another.
  pub data Form (s : World) : Type 0 where
    undecided :
        ((h : String) (r : Response) → s.state ≢ some (completed h r))
        → s.ran ≡ []
        → count inside s.workers ≤ as_number s.lock
        → Form s
    decided :
        (h : String) (r : Response)
        → s.state ≡ some (completed h r)
        → s.ran ≡ (h, r) ∷ []
        → count busy s.workers ≡ 0
        → Form s

  pub record IsExclusive (s : World) : Type 0 where
    pub form : Form s
    pub honest : All (IsHonest s.ran) s.workers

  module _ (s : World) (before after : List Worker) (h : String) (p p' : Phase)
      (here : s.workers ≡ before ++ at h p ∷ after) where
    -- A move that lets nobody in and changes neither key.
    pub moved-Form :
        inside p' ≤ inside p
        → busy p' ≤ busy p
        → Form s
        → Form (moved lower decode s before h p' after)
    moved-Form le_inside le_busy (undecided unset nothing few) = undecided unset nothing (
        let m = count_move inside p p' h s.workers before after here in
        omega (arith, m, few, le_inside))
    moved-Form le_inside le_busy (decided h' r state one none_busy) = decided h' r state one (
        let m = count_move busy p p' h s.workers before after here in
        omega (arith, m, none_busy, le_busy))

    pub moved-IsHonest :
        All (IsHonest s.ran) s.workers
        → IsHonest s.ran (at h p')
        → All (IsHonest s.ran) (before ++ at h p' ∷ after)
    moved-IsHonest all own =
        All-replace (IsHonest s.ran) before after (at h p) (at h p')
          (subst (All (IsHonest s.ran)) here all) own

    pub moved-IsExclusive :
        inside p' ≤ inside p
        → busy p' ≤ busy p
        → IsHonest s.ran (at h p')
        → IsExclusive s
        → IsExclusive (moved lower decode s before h p' after)
    moved-IsExclusive le_inside le_busy own x = record {
      form = moved-Form le_inside le_busy x.form;
      honest = moved-IsHonest x.honest own;
    }

    -- A request on the way to store a response is one of those counted.
    pub not-decided : busy p ≡ 1 → count busy s.workers ≡ 0 → ⊥
    not-decided is_busy none_busy =
        let m = count_move busy p polling h s.workers before after here in
        let bad : ⊥ = omega (arith, m, none_busy, is_busy) in bad

  pub check_state-inside :
      (h : String) (o : Option State) → inside (check_state lower decode h o) ≤ 1
  unfolding check_state
  check_state-inside h none = omega arith
  check_state-inside h (some (started h')) = elim (Bool-cases (h' == h)) [
    | inl same ↦ rw same (omega arith)
    | inr other ↦ rw other (omega arith)
  ]
  check_state-inside h (some (completed h' r)) = elim (Bool-cases (h' == h)) [
    | inl same ↦ rw same (omega arith)
    | inr other ↦ rw other (omega arith)
  ]

  -- A request that reads a stored response answers with it, or refuses.
  pub check_state-completed :
      (h h' : String) (r : Response)
      → (busy (check_state lower decode h (some (completed h' r))) ≡ 0)
        × IsHonest ((h', r) ∷ []) (at h (check_state lower decode h (some (completed h' r))))
  unfolding check_state
  check_state-completed h h' r = elim (Bool-cases (h' == h)) [
    | inl same ↦ rw same (refl, inl (ap (λ x. (x, r)) (sym ((eq_iff h' h).0 same))))
    | inr other ↦ rw other (refl, tt)
  ]

  pub check_state-undecided :
      (h : String) (o : Option State) (ran : List (String × Response))
      → ((h' : String) (r : Response) → o ≢ some (completed h' r))
      → IsHonest ran (at h (check_state lower decode h o))
  unfolding check_state
  check_state-undecided h none ran unset = tt
  check_state-undecided h (some (started h')) ran unset = elim (Bool-cases (h' == h)) [
    | inl same ↦ rw same tt
    | inr other ↦ rw other tt
  ]
  check_state-undecided h (some (completed h' r)) ran unset = absurd (unset h' r refl)

  pub one_lock : (b : Bool) → as_number b ≤ 1
  one_lock true = omega arith
  one_lock false = omega arith

  pub more-IsOwn :
      (x : String × Response) (ran : List (String × Response)) (h : String) (a : Answer)
      → IsOwn ran h a
      → IsOwn (x ∷ ran) h a
  more-IsOwn x ran h timed_out own = tt
  more-IsOwn x ran h mismatch own = tt
  more-IsOwn x ran h raised own = tt
  more-IsOwn x ran h (replayed r) own = inr own
  more-IsOwn x ran h (fresh r) own = λ cached. inr (own cached)

  pub more-IsHonest :
      (x : String × Response) (ran : List (String × Response)) (h : String) (p : Phase)
      → IsHonest ran (at h p)
      → IsHonest (x ∷ ran) (at h p)
  more-IsHonest x ran h polling own = tt
  more-IsHonest x ran h entered own = tt
  more-IsHonest x ran h starting own = tt
  more-IsHonest x ran h executing own = tt
  more-IsHonest x ran h (storing r) own = tt
  more-IsHonest x ran h (releasing a) own = more-IsOwn x ran h a own
  more-IsHonest x ran h (answered a) own = more-IsOwn x ran h a own
