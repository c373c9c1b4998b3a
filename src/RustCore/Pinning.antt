-- ===== src/RustCore/Pinning.antt =====
-- The first hash of a transaction is the only one that is ever accepted.
use sentinelai_v.Prelude.{
  String, ◌≡◌, ◌≢◌, refl, ap, ◌∙◌, Bool, true, false, Option-cases, inl, inr, some, List, [], ◌∷◌,
  eq_iff, arith,
}
use sentinelai_v.Prelude.Result.{Result, ok}
use sentinelai_v.RustCore.{Core, DiskFaults, lookup, audit_and_verify, trigger_local_freeze}

-- A verification request.
pub record Check : Type 0 where
  pub faults : DiskFaults
  pub tx_id : String
  pub current_hash : String

abbrev pub after : Core → Check → Core
after core k = (audit_and_verify k.faults k.tx_id k.current_hash core).1

abbrev pub answer : Core → Check → Result Bool
answer core k = (audit_and_verify k.faults k.tx_id k.current_hash core).0

abbrev pub after_all : Core → List Check → Core
after_all core [] = core
after_all core (k ∷ ks) = after_all (after core k) ks

step_pinned :
    (core : Core) (k : Check) (tx h : String)
    → lookup tx core.hashes ≡ some h
    → lookup tx (after core k).hashes ≡ some h
unfolding audit_and_verify lookup
step_pinned core k tx h pinned = ground (arith, eq_iff k.tx_id tx)

step_frozen : (core : Core) (k : Check) → core.fail_safe ≡ true → after core k ≡ core
unfolding audit_and_verify
step_frozen core k frozen = ground arith

all_pinned :
    (ks : List Check) (core : Core) (tx h : String)
    → lookup tx core.hashes ≡ some h
    → lookup tx (after_all core ks).hashes ≡ some h
all_pinned [] core tx h pinned = pinned
all_pinned (k ∷ ks) core tx h pinned =
    all_pinned ks (after core k) tx h (step_pinned core k tx h pinned)

accepted_is_stored :
    (core : Core) (k : Check)
    → answer core k ≡ ok true
    → lookup k.tx_id (after core k).hashes ≡ some k.current_hash
unfolding audit_and_verify lookup
accepted_is_stored core k accepted = elim (Option-cases (lookup k.tx_id core.hashes)) [
  | inl first ↦ ground (arith, eq_iff k.tx_id k.tx_id)
  | inr (h, stored) ↦ ground (arith, eq_iff h k.current_hash)
]

stored_is_accepted :
    (core : Core) (k : Check) (h : String)
    → lookup k.tx_id core.hashes ≡ some h
    → answer core k ≡ ok true
    → k.current_hash ≡ h
unfolding audit_and_verify
stored_is_accepted core k h stored accepted = ground (arith, eq_iff h k.current_hash)

-- Two accepted requests for one transaction carry one hash, whatever requests lie between them.
pub accepted_hash_unique :
    (core : Core) (k k' : Check) (between : List Check)
    → k'.tx_id ≡ k.tx_id
    → answer core k ≡ ok true
    → answer (after_all (after core k) between) k' ≡ ok true
    → k'.current_hash ≡ k.current_hash
accepted_hash_unique core k k' between same accepted accepted' =
    stored_is_accepted (after_all (after core k) between) k' k.current_hash
      (rw same (
        all_pinned between (after core k) k.tx_id k.current_hash
          (accepted_is_stored core k accepted)))
      accepted'

frozen_forever : (ks : List Check) (core : Core) → core.fail_safe ≡ true → after_all core ks ≡ core
frozen_forever [] core frozen = refl
frozen_forever (k ∷ ks) core frozen = rw (step_frozen core k frozen) (frozen_forever ks core frozen)

frozen_answer : (core : Core) (k : Check) → core.fail_safe ≡ true → answer core k ≡ ok false
unfolding audit_and_verify
frozen_answer core k frozen = ground arith

mismatch_step :
    (core : Core) (k : Check) (h : String)
    → core.fail_safe ≡ false
    → k.faults.get_fails ≡ false
    → lookup k.tx_id core.hashes ≡ some h
    → h ≢ k.current_hash
    → audit_and_verify k.faults k.tx_id k.current_hash core ≡ (ok false, trigger_local_freeze core)
unfolding audit_and_verify
mismatch_step core k h live reads stored differ = ground (arith, eq_iff h k.current_hash)

-- In a process that is not frozen, a request with another hash than the stored one, if the disk
-- answers, is refused and trips the switch for good: every later request of the process is
-- refused, and nothing is stored any more.
mismatch_freezes :
    (core : Core) (k : Check) (h : String) (later : List Check) (next : Check)
    → core.fail_safe ≡ false
    → k.faults.get_fails ≡ false
    → lookup k.tx_id core.hashes ≡ some h
    → h ≢ k.current_hash
    → (answer core k ≡ ok false)
      × (after_all (after core k) later ≡ record core { fail_safe = true })
      × (answer (after_all (after core k) later) next ≡ ok false)
mismatch_freezes core k h later next live reads stored differ =
    let step = mismatch_step core k h live reads stored differ in
    let stays =
      ap (λ (c : Core). after_all c later) (ap (λ (x : Result Bool × Core). x.1) step)
      ∙ frozen_forever later (trigger_local_freeze core) refl in
    (
      ap (λ (x : Result Bool × Core). x.0) step,
      stays,
      frozen_answer _ next (ap (λ (c : Core). c.fail_safe) stays),
    )
