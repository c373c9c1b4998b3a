-- ===== src/Connection.antt =====
-- One SQLite connection as core/database.py hands it out: the committed database, the database
-- that its open transaction works on, and the statements that will fail for a reason outside the
-- program (a lock, the disk). A method is an action that may raise; what it changed stays changed.
pub mod Effects
pub mod Statements
use sentinelai_v.Prelude.{Bool, true, false, List, [], ◌∷◌, if◌then◌else◌}
use sentinelai_v.Prelude.Result.{Result, ok, err, Exception, operational_error}
use sentinelai_v.Database.{Db}

pub record Conn : Type 0 where
  pub committed : Db
  pub working : Db
  pub in_transaction : Bool
  -- For each statement to come whether it fails; past the end of the list none does.
  pub faults : List Bool

abbrev pub Exec : Type 0 → Type 0
Exec A = Conn → Result A × Conn

module _ {A : Type 0} where
  abbrev pub pure : A → Exec A
  pure a c = (ok a, c)

  abbrev pub raise : Exception → Exec A
  raise e c = (err e, c)

infixl 5 ◌>>=◌ ◌>>◌
abbrev pub ◌>>=◌ : {A B : Type 0} → Exec A → (A → Exec B) → Exec B
◌>>=◌ m f c = let (r, d) = m c in elim r [ ok a ↦ f a d | err e ↦ (err e, d) ]

abbrev pub ◌>>◌ : {B : Type 0} → Exec (Unit {0}) → Exec B → Exec B
m >> k = m >>= λ _. k

-- try: m  except Exception as e: handler(e)
abbrev pub try_except : {A : Type 0} → Exec A → (Exception → Exec A) → Exec A
try_except m handler c = let (r, d) = m c in elim r [ ok a ↦ (ok a, d) | err e ↦ handler e d ]

abbrev fails : List Bool → Bool
fails [] = false
fails (b ∷ bs) = b

abbrev rest : List Bool → List Bool
rest [] = []
rest (b ∷ bs) = bs

abbrev pub next_statement : Conn → Conn
next_statement c = record c { faults = rest c.faults }

-- A statement, which fails if its turn has come.
unfoldable pub execute : {A : Type 0} → Exec A → Exec A
execute m c =
    if fails c.faults then (err operational_error, next_statement c) else m (next_statement c)

-- "BEGIN": a transaction starts from what is committed, and does not nest.
abbrev pub start : Exec (Unit {0})
start c =
    if c.in_transaction
    then (err operational_error, c)
    else (ok tt, record c { working = c.committed; in_transaction = true })

abbrev pub apply : {A : Type 0} → Conn → Result (A × Db) → Result A × Conn
apply c (ok (a, db)) = (ok a, record c { working = db; in_transaction = true })
apply c (err e) = (err e, c)

-- INSERT or UPDATE: what it changes is seen by this connection until the transaction ends. Python's
-- driver opens a transaction for it where none is open.
abbrev pub change : {A : Type 0} → (Db → Result (A × Db)) → Exec A
change f c = apply c (f c.working)

-- SELECT
abbrev pub select : {A : Type 0} → (Db → A) → Exec A
select f c = (ok (f c.working), c)

-- `commit()`
abbrev pub publish : Exec (Unit {0})
publish c = (ok tt, record c { committed = c.working; in_transaction = false })

-- "ROLLBACK"
abbrev pub drop : Exec (Unit {0})
drop c =
    if c.in_transaction
    then (ok tt, record c { working = c.committed; in_transaction = false })
    else (err operational_error, c)

unfoldable pub begin : Exec (Unit {0})
unfolding execute
begin = execute start

unfoldable pub write : {A : Type 0} → (Db → Result (A × Db)) → Exec A
unfolding execute
write f = execute (change f)

unfoldable pub read : {A : Type 0} → (Db → A) → Exec A
unfolding execute
read f = execute (select f)

unfoldable pub commit : Exec (Unit {0})
unfolding execute
commit = execute publish

unfoldable pub rollback : Exec (Unit {0})
unfolding execute
rollback = execute drop
