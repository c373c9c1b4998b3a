-- ===== src/Connection/Statements.antt =====
-- How a single statement of core/database.py's connection ends: it fails and changes nothing, or
-- it does its work.
use sentinelai_v.Prelude.{[], true, false, ◌≡◌, Bool-cases, ◌⊎◌, inl, inr}
use sentinelai_v.Prelude.Result.{ok, err, operational_error}
use sentinelai_v.Database.{Db}
use sentinelai_v.Connection.{Conn, write, read, commit, fails, next_statement}

-- An UPDATE that no constraint of the table stops.
pub write-cases :
    (g : Db → Db) (c : Conn)
    → (write (λ db. ok (tt, g db)) c ≡ (err operational_error, next_statement c))
      ⊎ (write (λ db. ok (tt, g db)) c
          ≡ (ok tt, record (next_statement c) { working = g c.working; in_transaction = true }))
unfolding write
write-cases g c = elim (Bool-cases (fails c.faults)) [
  | inl faulty ↦ inl (rw faulty)
  | inr sound ↦ inr (rw sound)
]

pub read-cases :
    {A : Type 0} (g : Db → A) (c : Conn)
    → (read g c ≡ (err operational_error, next_statement c))
      ⊎ (read g c ≡ (ok (g c.working), next_statement c))
unfolding read
read-cases g c = elim (Bool-cases (fails c.faults)) [
  | inl faulty ↦ inl (rw faulty)
  | inr sound ↦ inr (rw sound)
]

pub commit-cases :
    (c : Conn)
    → (commit c ≡ (err operational_error, next_statement c))
      ⊎ (commit c
          ≡ (ok tt, record (next_statement c) { committed = c.working; in_transaction = false }))
unfolding commit
commit-cases c = elim (Bool-cases (fails c.faults)) [
  | inl faulty ↦ inl (rw faulty)
  | inr sound ↦ inr (rw sound)
]

-- Where no failure is to come, a statement does its work.
pub write_sound :
    (g : Db → Db) (c : Conn)
    → c.faults ≡ []
    → write (λ db. ok (tt, g db)) c
      ≡ (ok tt, record c { working = g c.working; in_transaction = true; faults = [] })
unfolding write
write_sound g c none_left = rw (none_left)

pub read_sound :
    {A : Type 0} (g : Db → A) (c : Conn)
    → c.faults ≡ []
    → read g c ≡ (ok (g c.working), record c { faults = [] })
unfolding read
read_sound g c none_left = rw (none_left)

pub commit_sound :
    (c : Conn)
    → c.faults ≡ []
    → commit c ≡ (ok tt, record c { committed = c.working; in_transaction = false; faults = [] })
unfolding commit
commit_sound c none_left = rw (none_left)
