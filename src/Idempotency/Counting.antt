-- ===== src/Idempotency/Counting.antt =====
-- How many requests of core/idempotency.py are at the phases that matter.
use sentinelai_v.Prelude.{ℕ, String, ◌≡◌, ap, ◌∙◌, List, [], ◌∷◌, ◌++◌, ◌+◌, ◌≤◌, All, arith}
use sentinelai_v.Idempotency.{
  Phase, polling, entered, starting, executing, storing, releasing, answered, Worker,
}

-- Past the lock, and before the lock is deleted.
abbrev pub inside : Phase → ℕ
inside polling = 0
inside entered = 1
inside starting = 1
inside executing = 1
inside (storing r) = 1
inside (releasing a) = 1
inside (answered a) = 0

-- On the way to store a response.
abbrev pub busy : Phase → ℕ
busy polling = 0
busy entered = 0
busy starting = 1
busy executing = 1
busy (storing r) = 1
busy (releasing a) = 0
busy (answered a) = 0

abbrev pub at_endpoint : Phase → ℕ
at_endpoint executing = 1
at_endpoint p = 0

abbrev pub count : (Phase → ℕ) → List Worker → ℕ
count f [] = 0
count f (w ∷ ws) = f w.phase + count f ws

abbrev pub at : String → Phase → Worker
at h p = record { payload_hash = h; phase = p }

pub count_split :
    (f : Phase → ℕ) (before after : List Worker) (w : Worker)
    → count f (before ++ w ∷ after) ≡ count f before + f w.phase + count f after
count_split f [] after w = omega arith
count_split f (x ∷ before) after w = omega (arith, count_split f before after w)

-- What a move of one request does to a count.
pub count_move :
    (f : Phase → ℕ) (p p' : Phase) (h : String) (ws before after : List Worker)
    → ws ≡ before ++ at h p ∷ after
    → count f (before ++ at h p' ∷ after) + f p ≡ count f ws + f p'
count_move f p p' h ws before after e =
    let old : count f ws ≡ count f before + f p + count f after =
      ap (count f) e ∙ count_split f before after (at h p) in
    let new = count_split f before after (at h p') in omega (arith, old, new)

phase_le :
    (f g : Phase → ℕ) → ((p : Phase) → f p ≤ g p) → (ws : List Worker) → count f ws ≤ count g ws
phase_le f g le [] = omega arith
phase_le f g le (w ∷ ws) = omega (arith, le w.phase, phase_le f g le ws)

busy_le_inside_phase : (p : Phase) → busy p ≤ inside p
busy_le_inside_phase polling = omega arith
busy_le_inside_phase entered = omega arith
busy_le_inside_phase starting = omega arith
busy_le_inside_phase executing = omega arith
busy_le_inside_phase (storing r) = omega arith
busy_le_inside_phase (releasing a) = omega arith
busy_le_inside_phase (answered a) = omega arith

pub busy_le_inside : (ws : List Worker) → count busy ws ≤ count inside ws
busy_le_inside = phase_le busy inside busy_le_inside_phase

at_endpoint_le_busy_phase : (p : Phase) → at_endpoint p ≤ busy p
at_endpoint_le_busy_phase polling = omega arith
at_endpoint_le_busy_phase entered = omega arith
at_endpoint_le_busy_phase starting = omega arith
at_endpoint_le_busy_phase executing = omega arith
at_endpoint_le_busy_phase (storing r) = omega arith
at_endpoint_le_busy_phase (releasing a) = omega arith
at_endpoint_le_busy_phase (answered a) = omega arith

pub at_endpoint_le_busy : (ws : List Worker) → count at_endpoint ws ≤ count busy ws
at_endpoint_le_busy = phase_le at_endpoint busy at_endpoint_le_busy_phase

module _ {κ} (P : Worker → Type κ) where
  pub All-replace :
      (before after : List Worker) (w w' : Worker)
      → All P (before ++ w ∷ after)
      → P w'
      → All P (before ++ w' ∷ after)
  All-replace [] after w w' h p = (p, h.1)
  All-replace (x ∷ before) after w w' h p = (h.0, All-replace before after w w' h.1 p)

  pub All-middle : (before after : List Worker) (w : Worker) → All P (before ++ w ∷ after) → P w
  All-middle [] after w h = h.0
  All-middle (x ∷ before) after w h = All-middle before after w h.1
