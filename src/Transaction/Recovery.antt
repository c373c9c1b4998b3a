-- ===== src/Transaction/Recovery.antt =====
-- What the first handler of errors in core/transaction.py does.
use sentinelai_v.Prelude.{String, ◌≡◌, refl, Option, none, some}
use sentinelai_v.Prelude.Result.{Result, ok, err, Exception}
use sentinelai_v.Database.{Db, PaymentIntent}
use sentinelai_v.Connection.{Conn, ◌>>=◌, read, rollback}
use sentinelai_v.Connection.Effects.{rollback-ok, rollback-err, read-ok, read-err, bind-induction}
use sentinelai_v.Transaction.{Reply, find_intent, recover, existing_or_raise}

abbrev pub reply_of : PaymentIntent → Reply
reply_of p = record { id = p.id; status = p.status }

-- What the handler of the first `try` does: it commits nothing, and reports the payment of the key
-- or raises.
abbrev pub Reports : String → Db → Result (Option Reply) × Conn → Type 0
Reports key db (ok none, d) = ⊥
Reports key db (ok (some reply), d) =
    (d.committed ≡ db) × (p : PaymentIntent) × (find_intent key db ≡ some p) × (reply ≡ reply_of p)
Reports key db (err e, d) = d.committed ≡ db

pub existing_or_raise-Reports :
    (key : String) (db : Db) (e : Exception) (o : Option PaymentIntent) (c : Conn)
    → find_intent key db ≡ o
    → c.committed ≡ db
    → Reports key db (existing_or_raise e o c)
existing_or_raise-Reports key db e none c found same = same
existing_or_raise-Reports key db e (some p) c found same = (same, p, found, refl)

pub recover-Reports :
    (key : String) (e : Exception) (c : Conn) → Reports key c.committed (recover key e c)
unfolding recover
recover-Reports key e c =
    let P = Reports key c.committed in
    bind-induction P rollback (λ _. do found ← read (find_intent key); existing_or_raise e found) c
      (λ u d ended.
        bind-induction P (read (find_intent key)) (existing_or_raise e) d
          (λ o d' answer.
            let rolled = rollback-ok c u d ended in
            let (value, after) = read-ok (find_intent key) d o d' answer in
            existing_or_raise-Reports key c.committed e o d' (rw (value, rolled))
              (rw (after, rolled)))
          (λ x d' failed. rw (read-err (find_intent key) d x d' failed, rollback-ok c u d ended)))
      (λ x d failed. rw (rollback-err c x d failed))
