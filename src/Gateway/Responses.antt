-- ===== src/Gateway/Responses.antt =====
-- What the answers of the transfer endpoint say about the ledger.
use sentinelai_v.Prelude.{
  String, ◌≡◌, refl, sym, ap, subst, ◌∙◌, Bool, true, false, some, map, Member, Member-snoc,
  Member-map, find?-Member, eq_iff,
}
use sentinelai_v.Prelude.Result.{Result, ok, err, ok_inj}
use sentinelai_v.Database.{Db, PaymentIntent, authorized}
use sentinelai_v.Enforcer.{SafeContext, Verdict, approved, rejected}
use sentinelai_v.Connection.{Conn}
use sentinelai_v.Transaction.{
  Runtime, Uuids, Transfer, Reply, with_status, new_intent, find_intent, authorize_transfer,
}
use sentinelai_v.Transaction.Phases.{created, settled}
use sentinelai_v.Transaction.Shape.{created-Shape, settled-Shape}
use sentinelai_v.Transaction.Outcome.{
  paid, replayed, refused, unsettled, authorize_transfer-Outcome,
}
use sentinelai_v.Transaction.Recovery.{reply_of}
use sentinelai_v.RustCore.{Core}
use sentinelai_v.Gateway.Handler.{
  TransferRequest, Headers, Response, intervention, integrity_mismatch, success, server_error,
  Surroundings, payload_of, or_default, handle_transfer, transfer_of, after_core, after_verdict,
  paid_response,
}
use sentinelai_v.Gateway.Backing.{Checked, validate_intent-Checked}

-- The ledger holds a payment under this key, and the reply gives its identifier and its status.
pub record IsRecorded (key : String) (db : Db) (reply : Reply) : Type 0 where
  pub payment : PaymentIntent
  pub stored : Member payment db.payment_intents
  pub keyed : payment.idempotency_key ≡ key
  pub reported : reply ≡ reply_of payment

module _ (rt : Runtime) (ids : Uuids) (t : Transfer) where
  found-IsRecorded :
      (db : Db) (p : PaymentIntent) (reply : Reply)
      → find_intent t.idempotency_key db ≡ some p
      → reply ≡ reply_of p
      → IsRecorded t.idempotency_key db reply
  unfolding find_intent
  found-IsRecorded db p reply found e =
      let m = find?-Member _ db.payment_intents found in
      record {
        payment = p;
        stored = m.0;
        keyed = (eq_iff p.idempotency_key t.idempotency_key).0 m.1;
        reported = e;
      }

  paid-IsRecorded :
      (before between after : Db) (reply : Reply)
      → created rt ids t before ≡ ok (tt, between)
      → settled rt ids true between ≡ ok (tt, after)
      → reply ≡ record { id = ids.intent_id; status = authorized }
      → IsRecorded t.idempotency_key after reply
  paid-IsRecorded before between after reply made done e =
      let new = new_intent rt ids t in
      record {
        payment = record new { status = authorized };
        stored = stored_new new refl;
        keyed = refl;
        reported = e;
      }
    where
      changed :
          (p : PaymentIntent)
          → p.id ≡ ids.intent_id
          → with_status ids.intent_id authorized p ≡ record p { status = authorized }
      changed p same = rw ((eq_iff p.id ids.intent_id).1 same)

      stored_new :
          (p : PaymentIntent)
          → p ≡ new_intent rt ids t
          → Member (record p { status = authorized }) after.payment_intents
      stored_new p e' = rw ((settled-Shape rt ids true between after done).payments) (
          subst (λ q. Member q (map (with_status ids.intent_id authorized) between.payment_intents))
            (changed p (ap (λ (q : PaymentIntent). q.id) e'))
            (Member-map (with_status ids.intent_id authorized) p between.payment_intents (
              rw ((created-Shape rt ids t before between made).payments, e')
                (Member-snoc _ before.payment_intents))))

  authorize-IsRecorded :
      (c : Conn) (reply : Reply)
      → c.in_transaction ≡ false
      → (authorize_transfer rt ids t c).0 ≡ ok reply
      → IsRecorded t.idempotency_key (authorize_transfer rt ids t c).1.committed reply
  authorize-IsRecorded c reply closed e = elim (authorize_transfer-Outcome rt ids t c closed) [
    | paid between made done r ↦
        paid-IsRecorded c.committed between _ reply made done (ok_inj (sym e ∙ r))
    | replayed p found r same ↦
        rw same (found-IsRecorded c.committed p reply found (ok_inj (sym e ∙ r)))
    | refused x r same ↦ absurd (cc (e, r))
    | unsettled x r made ↦ absurd (cc (e, r))
  ]

module _ (env : Surroundings) (req : TransferRequest) (headers : Headers) where
  -- What an answer says of the ledger before and after.
  abbrev pub Tells : Db → Response → Db → Type 0
  Tells before (intervention reason) after = after ≡ before
  Tells before integrity_mismatch after = after ≡ before
  Tells before (success trace payment) after =
      (trace ≡ or_default "unknown" headers.correlation_id)
      × IsRecorded (or_default req.tx_id headers.idempotency_key) after payment
  Tells before (server_error e) after = Unit

  paid-Tells :
      (ctx : SafeContext) (d : Conn) (r : Result Reply) (after : Db)
      → ((reply : Reply)
          → r ≡ ok reply
          → IsRecorded (or_default req.tx_id headers.idempotency_key) after reply)
      → Tells d.committed (paid_response env req headers r) after
  paid-Tells ctx d (ok reply) after h = (refl, h reply refl)
  paid-Tells ctx d (err e) after h = tt

  after_core-Tells :
      (ctx : SafeContext) (d : Conn) (y : Result Bool × Core)
      → d.in_transaction ≡ false
      → let x = after_core env req headers ctx d y in Tells d.committed x.0 x.1.committed
  after_core-Tells ctx d (err e, core) closed = tt
  after_core-Tells ctx d (ok false, core) closed = refl
  after_core-Tells ctx d (ok true, core) closed = paid-Tells ctx d _ _ (λ reply e.
      authorize-IsRecorded env.runtime env.uuids (transfer_of env req headers ctx) d reply closed e)

  after_verdict-Tells :
      (db : Db) (core : Core) (x : Result Verdict × Conn)
      → Checked env req.role (payload_of req) db x
      → let y = after_verdict env req headers core x in Tells db y.0 y.1.committed
  after_verdict-Tells db core (err e, d) same = tt
  after_verdict-Tells db core (ok (rejected reason), d) same = same
  after_verdict-Tells db core (ok (approved ctx), d) (same, closed, permitted) =
      subst
        (λ before.
          let y = after_verdict env req headers core (ok (approved ctx), d) in
          Tells before y.0 y.1.committed)
        same (after_core-Tells ctx d _ closed)

  -- On a fresh connection an answer 403 or 400 of the endpoint leaves the ledger as it was. An
  -- answer 200 carries the correlation identifier of the request, and reports the identifier and
  -- the status of a payment that the ledger then holds under the request's key: its
  -- Idempotency-Key, or else its tx_id.
  pub handle_transfer-Tells :
      (c : Conn) (core : Core)
      → c.working ≡ c.committed
      → c.in_transaction ≡ false
      → let x = handle_transfer env req headers c core in Tells c.committed x.0 x.1.committed
  unfolding handle_transfer
  handle_transfer-Tells c core fresh closed =
      after_verdict-Tells c.committed core _
        (validate_intent-Checked env req.role (payload_of req) c fresh closed)
