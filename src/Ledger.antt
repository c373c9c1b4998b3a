-- ===== src/Ledger.antt =====
-- data/ledger.db while all that writes it runs side by side: the two transactions of any number of
-- calls of core/transaction.py, the marks of core/relay.py, and `init_db` of core/database.py. SQLite
-- lets one writer in at a time, so each committed transaction is one step on the committed database;
-- between the two transactions of a call any steps of others may lie.
pub mod Invariant
mod Tests
use sentinelai_v.Prelude.{String, ◌≡◌, Bool, true}
use sentinelai_v.Prelude.Result.{ok}
use sentinelai_v.Database.{Db, init_db, empty_db}
use sentinelai_v.Connection.{Conn}
use sentinelai_v.Transaction.{Runtime, Uuids, Transfer, create, record_result}
use sentinelai_v.Relay.{mark_published}

-- A connection that has just begun a transaction on the committed database.
pub record IsBegun (db : Db) (c : Conn) : Type 0 where
  pub committed : c.committed ≡ db
  pub working : c.working ≡ db
  pub open_tx : c.in_transaction ≡ true

module _ (rt : Runtime) where
  pub data Step (db : Db) : Db → Type 0 where
    payment_starts :
        (ids : Uuids) (t : Transfer) (c d : Conn)
        → IsBegun db c
        → create rt ids t c ≡ (ok tt, d)
        → Step db d.committed
    bank_answers :
        (ids : Uuids) (approved : Bool) (c d : Conn)
        → IsBegun db c
        → record_result rt ids approved c ≡ (ok tt, d)
        → Step db d.committed
    relay_marks : (id : String) → Step db (mark_published id db)
    gateway_starts : Step db (init_db db)

  pub data Reach : Db → Type 0 where
    start : Reach empty_db
    later : {db next : Db} → Reach db → Step db next → Reach next
