-- ===== src/Gateway/Repeat.antt =====
-- What a transfer request keeps of the ledger, and what it does under a key that has a payment.
use sentinelai_v.Prelude.{String, ◌≡◌, ◌⊎◌, refl, subst, ◌∙◌, inl, inr, Bool, true, false, some}
use sentinelai_v.Prelude.Result.{Result, ok, err, Exception}
use sentinelai_v.Database.{Db, PaymentIntent}
use sentinelai_v.Enforcer.{SafeContext, Verdict, approved, rejected}
use sentinelai_v.Connection.{Conn}
use sentinelai_v.Transaction.{Reply, find_intent}
use sentinelai_v.Transaction.Growth.{Grows, Grows-same, authorize_transfer-Grows}
use sentinelai_v.Transaction.Recovery.{reply_of}
use sentinelai_v.Transaction.Replay.{existing_key_commits_nothing}
use sentinelai_v.RustCore.{Core}
use sentinelai_v.Gateway.Handler.{
  TransferRequest, Headers, Response, success, Surroundings, payload_of, or_default,
  validate_intent, handle_transfer, transfer_of, after_core, after_verdict, paid_response,
}
use sentinelai_v.Gateway.Backing.{Checked, validate_intent-Checked}

-- The key of a request: its Idempotency-Key, or else its tx_id.
abbrev pub key_of : TransferRequest → Headers → String
key_of req headers = or_default req.tx_id headers.idempotency_key

module _ (env : Surroundings) (req : TransferRequest) (headers : Headers) where
  after_core-Grows :
      (ctx : SafeContext) (d : Conn) (y : Result Bool × Core)
      → d.in_transaction ≡ false
      → Grows d.committed (after_core env req headers ctx d y).1.committed
  after_core-Grows ctx d (err e, core) closed = Grows-same d.committed d.committed refl
  after_core-Grows ctx d (ok false, core) closed = Grows-same d.committed d.committed refl
  after_core-Grows ctx d (ok true, core) closed =
      authorize_transfer-Grows env.runtime env.uuids (transfer_of env req headers ctx) d closed

  after_verdict-Grows :
      (db : Db) (core : Core) (x : Result Verdict × Conn)
      → Checked env req.role (payload_of req) db x
      → Grows db (after_verdict env req headers core x).1.committed
  after_verdict-Grows db core (err e, d) same = rw same (Grows-same db db refl)
  after_verdict-Grows db core (ok (rejected reason), d) same = rw same (Grows-same db db refl)
  after_verdict-Grows db core (ok (approved ctx), d) (same, closed, permitted) =
      subst (λ z. Grows z (after_verdict env req headers core (ok (approved ctx), d)).1.committed)
        same (after_core-Grows ctx d _ closed)

  pub handle_transfer-Grows :
      (c : Conn) (core : Core)
      → c.working ≡ c.committed
      → c.in_transaction ≡ false
      → Grows c.committed (handle_transfer env req headers c core).1.committed
  unfolding handle_transfer
  handle_transfer-Grows c core fresh closed =
      after_verdict-Grows c.committed core (validate_intent env req.role (payload_of req) c)
        (validate_intent-Checked env req.role (payload_of req) c fresh closed)

  -- An answer that reports a payment reports this one.
  abbrev pub Repeats : Reply → Response → Type 0
  Repeats reply (success trace reply') = reply' ≡ reply
  Repeats reply r = Unit

  -- What a request whose key has a payment leaves and answers.
  abbrev pub IsRepeat : Db → PaymentIntent → Response × Conn × Core → Type 0
  IsRepeat db p x = (x.1.committed ≡ db) × Repeats (reply_of p) x.0

  paid-Repeats :
      (p : PaymentIntent) (r : Result Reply)
      → (r ≡ ok (reply_of p)) ⊎ ((e : Exception) × (r ≡ err e))
      → Repeats (reply_of p) (paid_response env req headers r)
  paid-Repeats p r (inl e) = rw e refl
  paid-Repeats p r (inr (x, e)) = rw e tt

  after_core-IsRepeat :
      (p : PaymentIntent) (ctx : SafeContext) (d : Conn) (y : Result Bool × Core)
      → d.in_transaction ≡ false
      → find_intent (key_of req headers) d.committed ≡ some p
      → IsRepeat d.committed p (after_core env req headers ctx d y)
  after_core-IsRepeat p ctx d (err e, core) closed found = (refl, tt)
  after_core-IsRepeat p ctx d (ok false, core) closed found = (refl, tt)
  after_core-IsRepeat p ctx d (ok true, core) closed found =
      let (same, ends) =
        existing_key_commits_nothing env.runtime env.uuids (transfer_of env req headers ctx) d p
          closed found in
      (same, paid-Repeats p _ ends)

  after_verdict-IsRepeat :
      (db : Db) (p : PaymentIntent) (core : Core) (x : Result Verdict × Conn)
      → find_intent (key_of req headers) db ≡ some p
      → Checked env req.role (payload_of req) db x
      → IsRepeat db p (after_verdict env req headers core x)
  after_verdict-IsRepeat db p core (err e, d) found same = (same, tt)
  after_verdict-IsRepeat db p core (ok (rejected reason), d) found same = (same, tt)
  after_verdict-IsRepeat db p core (ok (approved ctx), d) found (same, closed, permitted) =
      let here = after_core-IsRepeat p ctx d _ closed (rw same found) in (here.0 ∙ same, here.1)

  pub handle_transfer-IsRepeat :
      (p : PaymentIntent) (c : Conn) (core : Core)
      → c.working ≡ c.committed
      → c.in_transaction ≡ false
      → find_intent (key_of req headers) c.committed ≡ some p
      → IsRepeat c.committed p (handle_transfer env req headers c core)
  unfolding handle_transfer
  handle_transfer-IsRepeat p c core fresh closed found =
      after_verdict-IsRepeat c.committed p core (validate_intent env req.role (payload_of req) c)
        found (validate_intent-Checked env req.role (payload_of req) c fresh closed)
