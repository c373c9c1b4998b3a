-- ===== src/Transaction/Outcome.antt =====
-- Every way in which `authorize_transfer` can end, whichever statements fail.
use sentinelai_v.Prelude.{
  ◌≡◌, refl, sym, ap, subst, Bool, true, false, inl, inr, ◌⊎◌, Option, none, some,
}
use sentinelai_v.Prelude.Result.{Result, ok, err, Exception}
use sentinelai_v.Database.{Db, PaymentIntent, authorized}
use sentinelai_v.Connection.{Conn, Exec, raise, pure, try_except, ◌>>=◌, ◌>>◌, begin, rollback}
use sentinelai_v.Connection.Effects.{
  End, begun, begin-ok, begin-err, rollback-ok, rollback-err, bind-induction, try-induction,
}
use sentinelai_v.Transaction.{
  Runtime, Uuids, Transfer, Reply, new_status, find_intent, create, record_result, recover, settle,
  authorize_transfer, bank_approved, reply_or_settle,
}
use sentinelai_v.Transaction.Phases.{created, settled, create-Commits, record_result-Commits}
use sentinelai_v.Transaction.Recovery.{reply_of, Reports, recover-Reports}

-- What a call leads to: on the result it returns or raises, and on the committed database before
-- and after.
pub data Outcome (rt : Runtime) (ids : Uuids) (t : Transfer) (before : Db) (r : Result Reply)
    (after : Db) : Type 0 where
  -- Both transactions were committed.
  paid :
      (between : Db)
      → created rt ids t before ≡ ok (tt, between)
      → settled rt ids true between ≡ ok (tt, after)
      → r ≡ ok (record { id = ids.intent_id; status = authorized })
      → Outcome rt ids t before r after
  -- The key has been used: its payment is reported, and nothing is committed.
  replayed :
      (p : PaymentIntent)
      → find_intent t.idempotency_key before ≡ some p
      → r ≡ ok (reply_of p)
      → after ≡ before
      → Outcome rt ids t before r after
  -- An error is raised, and nothing is committed.
  refused : (e : Exception) → r ≡ err e → after ≡ before → Outcome rt ids t before r after
  -- An error is raised, and the first transaction alone is committed.
  unsettled :
      (e : Exception)
      → r ≡ err e
      → created rt ids t before ≡ ok (tt, after)
      → Outcome rt ids t before r after

module _ (rt : Runtime) (ids : Uuids) where
  abbrev Settles : Bool → Db → Result Reply × Conn → Type 0
  Settles approved db x =
      ((x.0 ≡ ok (record { id = ids.intent_id; status = new_status approved }))
        × (settled rt ids approved db ≡ ok (tt, x.1.committed)))
      ⊎ ((e : Exception) × (x.0 ≡ err e) × (x.1.committed ≡ db))

  abbrev Recorded : Bool → Db → Result (Unit {0}) × Conn → Type 0
  Recorded approved db (ok u, d) = settled rt ids approved db ≡ ok (tt, d.committed)
  Recorded approved db (err e, d) = d.committed ≡ db

  record_or_raise : Bool → Exec (Unit {0})
  record_or_raise approved = try_except (record_result rt ids approved) (λ e. do rollback; raise e)

  record_result-End :
      (approved : Bool) (c : Conn) (x : Result (Unit {0}) × Conn)
      → c.in_transaction ≡ true
      → record_result rt ids approved c ≡ x
      → End (settled rt ids approved) c x
  record_result-End approved c x open_tx e =
      subst (End (settled rt ids approved) c) e
        ((record_result-Commits rt ids approved).at c open_tx)

  record_or_raise-Recorded :
      (approved : Bool) (c : Conn)
      → c.in_transaction ≡ true
      → c.working ≡ c.committed
      → Recorded approved c.committed (record_or_raise approved c)
  unfolding record_or_raise
  record_or_raise-Recorded approved c open_tx fresh =
      let P = Recorded approved c.committed in
      try-induction P (record_result rt ids approved) (λ e. do rollback; raise e) c
        (λ u d h. rw fresh at ((record_result-End approved c (ok u, d) open_tx h).0))
        (λ e d h.
          let kept = (record_result-End approved c (err e, d) open_tx h).0 in
          bind-induction P rollback (λ _. raise e) d
            (λ u d' ended. rw (rollback-ok d u d' ended) kept)
            (λ x d' failed. rw (rollback-err d x d' failed) kept))

  Recorded-after_begin :
      (approved : Bool) (c d : Conn) (x : Result (Unit {0}) × Conn)
      → d ≡ begun c
      → record_or_raise approved d ≡ x
      → Recorded approved c.committed x
  Recorded-after_begin approved c d x at_begin e =
      subst (λ db. Recorded approved db x) (ap (λ (z : Conn). z.committed) at_begin)
        (subst (Recorded approved d.committed) e (
          record_or_raise-Recorded approved d (ap (λ (z : Conn). z.in_transaction) at_begin)
            (rw at_begin)))

  -- The second transaction settles the payment, or raises and commits nothing.
  settle-Settles :
      (approved : Bool) (c : Conn)
      → c.in_transaction ≡ false
      → Settles approved c.committed (settle rt ids approved c)
  unfolding settle record_or_raise
  settle-Settles approved c closed =
      let P = Settles approved c.committed in
      bind-induction P begin
        (λ _. do
          record_or_raise approved
          pure (record { id = ids.intent_id; status = new_status approved }))
        c
        (λ u d started.
          let at_begin = begin-ok c u d closed started in
          bind-induction P (record_or_raise approved)
            (λ _. pure (record { id = ids.intent_id; status = new_status approved })) d
            (λ u' d' h. inl (refl, Recorded-after_begin approved c d (ok u', d') at_begin h))
            (λ x d' h. inr (x, refl, Recorded-after_begin approved c d (err x, d') at_begin h)))
        (λ x d failed. inr (x, refl, rw (begin-err c x d failed)))

  abbrev OutcomeOf : Transfer → Db → Result Reply × Conn → Type 0
  OutcomeOf t db x = Outcome rt ids t db x.0 x.1.committed

  abbrev first_try : Transfer → Exec (Option Reply)
  first_try t = try_except (do create rt ids t; pure none) (recover t.idempotency_key)

  -- How the first `try` and its handler end.
  abbrev FirstTry : Transfer → Db → Result (Option Reply) × Conn → Type 0
  FirstTry t db (ok none, d) =
      (created rt ids t db ≡ ok (tt, d.committed)) × (d.in_transaction ≡ false)
  FirstTry t db (ok (some reply), d) =
      (d.committed ≡ db)
      × (p : PaymentIntent) × (find_intent t.idempotency_key db ≡ some p)
      × (reply ≡ reply_of p)
  FirstTry t db (err e, d) = d.committed ≡ db

  FirstTry-Reports :
      (t : Transfer) (db : Db) (x : Result (Option Reply) × Conn)
      → Reports t.idempotency_key db x
      → FirstTry t db x
  FirstTry-Reports t db (ok none, d) h = absurd h
  FirstTry-Reports t db (ok (some reply), d) h = h
  FirstTry-Reports t db (err e, d) h = h

  abbrev create_only : Transfer → Exec (Option Reply)
  create_only t = do create rt ids t; pure none

  abbrev CreatesOnly : Transfer → Db → Result (Option Reply) × Conn → Type 0
  CreatesOnly t db (ok none, d) =
      (created rt ids t db ≡ ok (tt, d.committed)) × (d.in_transaction ≡ false)
  CreatesOnly t db (ok (some reply), d) = ⊥
  CreatesOnly t db (err e, d) = d.committed ≡ db

  create_only-CreatesOnly :
      (t : Transfer) (c : Conn)
      → c.in_transaction ≡ true
      → c.working ≡ c.committed
      → CreatesOnly t c.committed (create_only t c)
  create_only-CreatesOnly t c open_tx fresh =
      bind-induction (CreatesOnly t c.committed) (create rt ids t) (λ _. pure none) c
        (λ u d h. let e = ended (ok u, d) h in (rw fresh at (e.0), e.1))
        (λ x d h. (ended (err x, d) h).0)
    where
      ended : (x : Result (Unit {0}) × Conn) → create rt ids t c ≡ x → End (created rt ids t) c x
      ended x h = subst (End (created rt ids t) c) h ((create-Commits rt ids t).at c open_tx)

  first_try-FirstTry :
      (t : Transfer) (c : Conn)
      → c.in_transaction ≡ true
      → c.working ≡ c.committed
      → FirstTry t c.committed (first_try t c)
  first_try-FirstTry t c open_tx fresh =
      try-induction (FirstTry t c.committed) (create_only t) (recover t.idempotency_key) c
        (λ o d h. paid_only o d (only (ok o, d) h))
        (λ e d h. FirstTry-Reports t c.committed (recover t.idempotency_key e d) (
          subst (λ db. Reports t.idempotency_key db (recover t.idempotency_key e d))
            (only (err e, d) h) (recover-Reports t.idempotency_key e d)))
    where
      only : (x : Result (Option Reply) × Conn) → create_only t c ≡ x → CreatesOnly t c.committed x
      only x h = subst (CreatesOnly t c.committed) h (create_only-CreatesOnly t c open_tx fresh)

      paid_only :
          (o : Option Reply) (d : Conn)
          → CreatesOnly t c.committed (ok o, d)
          → FirstTry t c.committed (ok o, d)
      paid_only none d h = h
      paid_only (some reply) d h = absurd h

  reply_or_settle-Outcome :
      (t : Transfer) (db : Db) (o : Option Reply) (c : Conn)
      → FirstTry t db (ok o, c)
      → OutcomeOf t db (reply_or_settle rt ids o c)
  reply_or_settle-Outcome t db (some reply) c (same, p, found, e) = replayed p found (ap ok e) same
  reply_or_settle-Outcome t db none c (made, closed) =
      elim (settle-Settles bank_approved c closed) [
        | inl (r, done) ↦ paid c.committed made done r
        | inr (e, r, same) ↦
            unsettled e r (subst (λ after. created rt ids t db ≡ ok (tt, after)) (sym same) made)
      ]

  -- Outside an open transaction every call, whichever of its statements fail, ends in one of four
  -- ways: both transactions are committed and the payment is returned as authorized; or the key
  -- has been used, nothing is committed and its payment is returned; or an error is raised and
  -- nothing is committed; or an error is raised and the first transaction alone is committed.
  pub authorize_transfer-Outcome :
      (t : Transfer) (c : Conn)
      → c.in_transaction ≡ false
      → Outcome rt ids t c.committed
          (authorize_transfer rt ids t c).0
          (authorize_transfer rt ids t c).1.committed
  unfolding authorize_transfer
  authorize_transfer-Outcome t c closed =
      let P = OutcomeOf t c.committed in
      bind-induction P begin (λ _. do existing ← first_try t; reply_or_settle rt ids existing) c
        (λ u d started.
          bind-induction P (first_try t) (reply_or_settle rt ids) d
            (λ o d' h.
              reply_or_settle-Outcome t c.committed o d'
                (tried d (begin-ok c u d closed started) (ok o, d') h))
            (λ x d' h. refused x refl (tried d (begin-ok c u d closed started) (err x, d') h)))
        (λ x d failed. refused x refl (rw (begin-err c x d failed)))
    where
      tried :
          (d : Conn)
          → d ≡ begun c
          → (x : Result (Option Reply) × Conn) → first_try t d ≡ x
          → FirstTry t c.committed x
      tried d at_begin x h =
          subst (λ db. FirstTry t db x) (ap (λ (z : Conn). z.committed) at_begin)
            (subst (FirstTry t d.committed) h
              (first_try-FirstTry t d (ap (λ (z : Conn). z.in_transaction) at_begin) (rw at_begin)))
