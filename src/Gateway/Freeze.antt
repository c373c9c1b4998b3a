-- ===== src/Gateway/Freeze.antt =====
-- What the kill switch of the Rust core does to the requests that follow.
use sentinelai_v.Prelude.{
  String, ◌≡◌, refl, sym, ap, subst, ◌∙◌, true, false, Bool, some, List, [], ◌∷◌, map, arith,
}
use sentinelai_v.Prelude.Result.{Result, ok, err}
use sentinelai_v.Database.{Db}
use sentinelai_v.Enforcer.{SafeContext, Verdict, approved, rejected}
use sentinelai_v.Connection.{Conn}
use sentinelai_v.Transaction.{Reply, authorize_transfer}
use sentinelai_v.RustCore.{Core, DiskFaults, audit_and_verify}
use sentinelai_v.Gateway.{proceed, refuse, Gate, security_gate}
use sentinelai_v.Gateway.Handler.{
  TransferRequest, Headers, Response, integrity_mismatch, Surroundings, handle_transfer,
  transfer_of, after_core, after_verdict, paid_response,
}
use sentinelai_v.Gateway.Responses.{Tells, handle_transfer-Tells}
use sentinelai_v.Gateway.Serve.{
  Arrival, Answer, refused, answered, connect, behind_gate, serve, serve_all, then_answers,
}

-- The answer of a gate that is frozen.
abbrev pub system_frozen : Arrival → Answer
system_frozen a = refused 503 "SYSTEM_FROZEN"

frozen_gate :
    (a : Arrival) (core : Core)
    → core.fail_safe ≡ true
    → security_gate (some a.recovery) core "POST" a.random ≡ refuse 503 "SYSTEM_FROZEN"
unfolding security_gate
frozen_gate a core frozen = rw frozen refl

serve_frozen :
    (a : Arrival) (db : Db) (core : Core)
    → core.fail_safe ≡ true
    → serve a db core ≡ (system_frozen a, db, core)
unfolding serve
serve_frozen a db core frozen = ap (λ g. behind_gate g a db core) (frozen_gate a core frozen)

serve_all_frozen :
    (later : List Arrival) (db : Db) (core : Core)
    → core.fail_safe ≡ true
    → serve_all later db core ≡ (map system_frozen later, db, core)
unfolding serve_all
serve_all_frozen [] db core frozen = refl
serve_all_frozen (a ∷ rest) db core frozen =
    ap (λ (x : Answer × Db × Core). then_answers x.0 (serve_all rest x.1 x.2))
      (serve_frozen a db core frozen)
    ∙ ap (then_answers (system_frozen a)) (serve_all_frozen rest db core frozen)

refusal_freezes :
    (f : DiskFaults) (tx_id current_hash : String) (core : Core)
    → (audit_and_verify f tx_id current_hash core).0 ≡ ok false
    → (audit_and_verify f tx_id current_hash core).1.fail_safe ≡ true
unfolding audit_and_verify
refusal_freezes f tx_id current_hash core h = ground arith

-- Tells a mismatch from the other answers.
abbrev IsMismatch : Response → Type 0
IsMismatch integrity_mismatch = Unit
IsMismatch _ = ⊥

module _ (env : Surroundings) (req : TransferRequest) (headers : Headers) where
  paid_no_mismatch : (r : Result Reply) → IsMismatch (paid_response env req headers r) → ⊥
  paid_no_mismatch (ok reply) h = h
  paid_no_mismatch (err e) h = h

  after_core_freezes :
      (ctx : SafeContext) (c : Conn) (y : Result Bool × Core)
      → (y.0 ≡ ok false → y.1.fail_safe ≡ true)
      → IsMismatch (after_core env req headers ctx c y).0
      → (after_core env req headers ctx c y).2.fail_safe ≡ true
  after_core_freezes ctx c (err e, core) frozen h = absurd h
  after_core_freezes ctx c (ok false, core) frozen h = frozen refl
  after_core_freezes ctx c (ok true, core) frozen h = absurd (
      paid_no_mismatch
        (authorize_transfer env.runtime env.uuids (transfer_of env req headers ctx) c).0 h)

  after_verdict_freezes :
      (core : Core) (x : Result Verdict × Conn)
      → IsMismatch (after_verdict env req headers core x).0
      → (after_verdict env req headers core x).2.fail_safe ≡ true
  after_verdict_freezes core (err e, c) h = absurd h
  after_verdict_freezes core (ok (rejected reason), c) h = absurd h
  after_verdict_freezes core (ok (approved ctx), c) h =
      after_core_freezes ctx c _ (refusal_freezes env.disk req.tx_id req.tx_hash core) h

  mismatch_freezes_core :
      (c : Conn) (core : Core)
      → (handle_transfer env req headers c core).0 ≡ integrity_mismatch
      → (handle_transfer env req headers c core).2.fail_safe ≡ true
  unfolding handle_transfer
  mismatch_freezes_core c core h = after_verdict_freezes core _ (subst IsMismatch (sym h) tt)

live_gate :
    (a : Arrival) (db : Db) (core : Core)
    → (serve a db core).0 ≡ answered integrity_mismatch
    → security_gate (some a.recovery) core "POST" a.random ≡ proceed
unfolding serve
live_gate a db core h = by_gate _ refl h
  where
    by_gate :
        (g : Gate)
        → security_gate (some a.recovery) core "POST" a.random ≡ g
        → (behind_gate g a db core).0 ≡ answered integrity_mismatch
        → security_gate (some a.recovery) core "POST" a.random ≡ proceed
    by_gate proceed e h = e
    by_gate (refuse status detail) e h = cc h

answered_inj : {r r' : Response} → answered r ≡ answered r' → r ≡ r'
answered_inj h = cc

mismatch_effect :
    (a : Arrival) (db : Db) (core : Core)
    → (serve a db core).0 ≡ answered integrity_mismatch
    → ((serve a db core).1 ≡ db) × ((serve a db core).2.fail_safe ≡ true)
unfolding serve
mismatch_effect a db core h =
    let admitted = live_gate a db core h in
    let c = connect db a.faults in
    let x = handle_transfer a.env a.req a.headers c core in
    let answer : x.0 ≡ integrity_mismatch =
      answered_inj (ap (λ g. (behind_gate g a db core).0) (sym admitted) ∙ h) in
    (
      rw admitted (
          subst (λ r. Tells a.env a.req a.headers db r x.1.committed) answer
            (handle_transfer-Tells a.env a.req a.headers c core refl refl)),
      rw admitted (mismatch_freezes_core a.env a.req a.headers c core answer),
    )

-- A transfer that is answered 400 INTEGRITY_MISMATCH leaves the ledger as it was and stops the
-- process's payments: every later request is answered 503 SYSTEM_FROZEN, in any mode, and changes
-- neither the ledger nor the core.
pub mismatch_stops_payments :
    (a : Arrival) (db : Db) (core : Core) (later : List Arrival)
    → (serve a db core).0 ≡ answered integrity_mismatch
    → let core' = (serve a db core).2 in
      serve_all (a ∷ later) db core
      ≡ (answered integrity_mismatch ∷ map system_frozen later, db, core')
unfolding serve_all
mismatch_stops_payments a db core later h =
    let (same, frozen) = mismatch_effect a db core h in
    ap (λ x. then_answers x (serve_all later (serve a db core).1 (serve a db core).2)) h
    ∙ ap (then_answers (answered integrity_mismatch))
        (serve_all_frozen later (serve a db core).1 (serve a db core).2 frozen)
    ∙ ap (λ d. (answered integrity_mismatch ∷ map system_frozen later, d, (serve a db core).2)) same
