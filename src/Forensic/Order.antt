-- ===== src/Forensic/Order.antt =====
-- The audit buffer of core/app/stages.py loses nothing and changes no order.
use sentinelai_v.Prelude.{
  String, ◌≡◌, refl, sym, ap, ◌∙◌, false, Bool-cases, inl, inr, List, [], ◌∷◌, ◌++◌, length,
  length-append, leb, All, All-append, ◌+◌, ◌≤◌, ◌<◌, arith,
}
use mathlib.Core.List.{append-nil, append_assoc}
use sentinelai_v.Prelude.Result.{ok}
use sentinelai_v.Forensic.{
  max_buffer_size, flush_threshold, Auditor, spawn_flush, audit_event, flush_tick, Action, event,
  tick, run, flush_nonempty,
}

-- Hashes in the order in which they were handed on, those that still wait last.
abbrev pub joined : List (List String) → List String
joined [] = []
joined (b ∷ bs) = b ++ joined bs

abbrev pub recorded : Auditor → List String
recorded a = joined a.spawned ++ a.buffer

-- The hashes of the events among the actions.
abbrev pub events : List Action → List String
events [] = []
events (event h ∷ rest) = h ∷ events rest
events (tick ∷ rest) = events rest

-- A batch that a task is created for.
abbrev pub IsBatch : List String → Type 0
IsBatch b = (0 < length b) × (length b ≤ flush_threshold)

pub record IsSteady (a : Auditor) : Type 0 where
  pub short : length a.buffer < flush_threshold
  pub batches : All IsBatch a.spawned

joined-snoc : (bs : List (List String)) (b : List String) → joined (bs ++ b ∷ []) ≡ joined bs ++ b
joined-snoc [] b = append-nil b
joined-snoc (x ∷ bs) b = ap (λ l. x ++ l) (joined-snoc bs b) ∙ sym (append_assoc x (joined bs) b)

recorded-spawn_flush : (a : Auditor) → recorded (spawn_flush a) ≡ recorded a
recorded-spawn_flush a = append-nil _ ∙ joined-snoc a.spawned a.buffer

spawn_flush-IsSteady :
    (a : Auditor) → All IsBatch a.spawned → IsBatch a.buffer → IsSteady (spawn_flush a)
spawn_flush-IsSteady a h b = record {
  short = omega arith;
  batches = All-append IsBatch a.spawned (a.buffer ∷ []) h (b, tt);
}

-- One event, from a buffer below the threshold: it is taken and stands last.
pub event-recorded :
    (h : String) (a : Auditor)
    → IsSteady a
    → ((audit_event h a).0 ≡ ok tt)
      × IsSteady (audit_event h a).1
      × (recorded (audit_event h a).1 ≡ recorded a ++ h ∷ [])
unfolding audit_event
event-recorded h a steady =
    let longer : length (a.buffer ++ h ∷ []) ≡ length a.buffer + 1 =
      length-append a.buffer (h ∷ []) in
    let next : Auditor = record a { buffer = a.buffer ++ h ∷ [] } in
    let shown : recorded next ≡ recorded a ++ h ∷ [] =
      sym (append_assoc (joined a.spawned) a.buffer (h ∷ [])) in
    let room : leb max_buffer_size (length a.buffer) ≡ false = ground (arith, steady.short) in
    elim (Bool-cases (leb flush_threshold (length (a.buffer ++ h ∷ [])))) [
      | inl full ↦
          rw (room, full)
            (
              refl,
              spawn_flush-IsSteady next steady.batches
                  (omega (arith, longer), omega (arith, longer, steady.short)),
              recorded-spawn_flush next ∙ shown,
            )
      | inr space ↦
          rw (room, space)
            (refl, record { short = ground (arith, space); batches = steady.batches }, shown)
    ]

tick-recorded :
    (a : Auditor) → IsSteady a → IsSteady (flush_tick a) × (recorded (flush_tick a) ≡ recorded a)
unfolding flush_tick
tick-recorded a steady = by_buffer a.buffer refl
  where
    by_buffer :
        (b : List String)
        → a.buffer ≡ b
        → IsSteady (flush_nonempty b a) × (recorded (flush_nonempty b a) ≡ recorded a)
    by_buffer [] e = (steady, refl)
    by_buffer (x ∷ xs) e = (
      spawn_flush-IsSteady a steady.batches (rw e (omega arith), omega (arith, steady.short)),
      recorded-spawn_flush a,
    )

run-recorded :
    (xs : List Action) (a : Auditor)
    → IsSteady a
    → IsSteady (run xs a) × (recorded (run xs a) ≡ recorded a ++ events xs)
unfolding run
run-recorded [] a steady = (steady, sym (append-nil (recorded a)))
run-recorded (event h ∷ xs) a steady =
    let (taken, steady', now) = event-recorded h a steady in
    let (kept, later) = run-recorded xs (audit_event h a).1 steady' in
    (kept, later ∙ ap (λ l. l ++ events xs) now ∙ append_assoc (recorded a) (h ∷ []) (events xs))
run-recorded (tick ∷ xs) a steady =
    let (steady', now) = tick-recorded a steady in
    let (kept, later) = run-recorded xs (flush_tick a) steady' in
    (kept, later ∙ ap (λ l. l ++ events xs) now)

-- The start of the process.
abbrev pub empty_auditor : Auditor
empty_auditor = record { buffer = []; spawned = [] }

-- However events and timer ticks follow each other from the start: the batches that tasks were created
-- for, one after another, with the buffer behind them are the events' hashes, each once and in their
-- order; a batch has one to five hashes; fewer than five wait; and the next event is taken, so that
-- the check of the size of 10000 never raises.
pub audit_keeps_events :
    (xs : List Action) (h : String)
    → let a = run xs empty_auditor in
      (recorded a ≡ events xs)
      × All IsBatch a.spawned
      × (length a.buffer < flush_threshold)
      × ((audit_event h a).0 ≡ ok tt)
audit_keeps_events xs h =
    let (steady, same) =
      run-recorded xs empty_auditor (record { short = omega arith; batches = tt }) in
    (same, steady.batches, steady.short, (event-recorded h (run xs empty_auditor) steady).0)
