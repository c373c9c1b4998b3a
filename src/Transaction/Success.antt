-- ===== src/Transaction/Success.antt =====
-- What a call returns on an idle connection when no statement fails.
use sentinelai_v.Prelude.{◌≡◌, [], false, arith, true}
use sentinelai_v.Prelude.Result.{ok}
use sentinelai_v.Database.{Db, authorized}
use sentinelai_v.Connection.{Conn, begin, read, write, commit}
use sentinelai_v.Transaction.{
  Runtime, Uuids, Transfer, create, record_result, settle, authorize_transfer, append_outbox,
  append_audit,
}
use sentinelai_v.Transaction.Phases.{created, settled}

abbrev pub idle : Db → Conn
idle db = record { committed = db; working = db; in_transaction = false; faults = [] }

module _ (rt : Runtime) (ids : Uuids) (t : Transfer) where
  create-idle :
      (db mid : Db)
      → created rt ids t db ≡ ok (tt, mid)
      → create rt ids t
          (record { committed = db; working = db; in_transaction = true; faults = [] })
        ≡ (ok tt, idle mid)
  unfolding create append_outbox append_audit read write commit
  create-idle db mid h = ground arith

  settle-idle :
      (db after : Db)
      → settled rt ids true db ≡ ok (tt, after)
      → settle rt ids true (idle db)
        ≡ (ok (record { id = ids.intent_id; status = authorized }), idle after)
  unfolding settle begin record_result append_outbox append_audit read write commit
  settle-idle db after h = ground arith

  -- If no constraint of the tables stops the rows of the two transactions and no statement fails,
  -- the call returns the payment as authorized, and has committed the rows of both.
  pub fresh_key_pays :
      (db mid after : Db)
      → created rt ids t db ≡ ok (tt, mid)
      → settled rt ids true mid ≡ ok (tt, after)
      → authorize_transfer rt ids t (idle db)
        ≡ (ok (record { id = ids.intent_id; status = authorized }), idle after)
  unfolding authorize_transfer begin
  fresh_key_pays db mid after h k = ground (arith, create-idle db mid h, settle-idle mid after k)
