-- ===== src/Connection/Effects.antt =====
-- What an action does inside an open transaction, as a pure change of the working database: it
-- makes the change or raises, and the committed database stays as it was either way.
use sentinelai_v.Prelude.{◌≡◌, refl, ◌∙◌, true, false, Bool-cases, inl, inr, arith}
use sentinelai_v.Prelude.Result.{Result, ok, err, Exception, Result-cases}
use sentinelai_v.Database.{Db}
use sentinelai_v.Connection.{
  Conn, Exec, ◌>>=◌, try_except, write, read, commit, begin, rollback, fails, next_statement,
}

abbrev pub Update : Type 0 → Type 0
Update A = Db → Result (A × Db)

abbrev continue : {A B : Type 0} → Result (A × Db) → (A → Update B) → Result (B × Db)
continue (ok (a, db)) g = g a db
continue (err e) g = err e

abbrev pub and_then : {A B : Type 0} → Update A → (A → Update B) → Update B
and_then f g db = continue (f db) g

abbrev pub Step : {A : Type 0} → Update A → Conn → Result A × Conn → Type 0
Step f c (ok a, d) =
    (f c.working ≡ ok (a, d.working)) × (d.committed ≡ c.committed) × (d.in_transaction ≡ true)
Step f c (err e, d) = (d.committed ≡ c.committed) × (d.in_transaction ≡ true)

pub record Implements {A : Type 0} (m : Exec A) (f : Update A) : Type 0 where
  pub at : (c : Conn) → c.in_transaction ≡ true → Step f c (m c)

module _ {A : Type 0} where
  pub Implements-write : (f : Update A) → Implements (write f) f
  unfolding write
  Implements-write f = record {
    at = λ c open_tx. elim (Bool-cases (fails c.faults)) [
      | inl faulty ↦ rw faulty (refl, open_tx)
      | inr sound ↦ rw sound (elim (Result-cases (f c.working)) [
        | inl (r, e) ↦ rw e (e, refl, refl)
        | inr (x, e) ↦ rw e (refl, open_tx)
      ])
    ];
  }

  pub Implements-read : (g : Db → A) → Implements (read g) (λ db. ok (g db, db))
  unfolding read
  Implements-read g = record {
    at = λ c open_tx. elim (Bool-cases (fails c.faults)) [
      | inl faulty ↦ rw faulty (refl, open_tx)
      | inr sound ↦ rw sound (refl, refl, open_tx)
    ];
  }

module _ {A B : Type 0} where
  bind-Step :
      (f : Update A) (k : A → Exec B) (g : A → Update B)
      → ((a : A) → Implements (k a) (g a))
      → (c : Conn) (r : Result A) (d : Conn) → Step f c (r, d)
      → Step (and_then f g) c (elim r [ ok a ↦ k a d | err e ↦ (err e, d) ])
  bind-Step f k g later c (err e) d h = h
  bind-Step f k g later c (ok a) d h = finish (k a d).0 (k a d).1 ((later a).at d h.2)
    where
      finish : (r : Result B) (d' : Conn) → Step (g a) d (r, d') → Step (and_then f g) c (r, d')
      finish (ok b) d' s = (rw (h.0) s.0, s.1 ∙ h.1, s.2)
      finish (err e) d' s = (s.0 ∙ h.1, s.1)

  pub Implements-bind :
      (m : Exec A) (f : Update A) (k : A → Exec B) (g : A → Update B)
      → Implements m f
      → ((a : A) → Implements (k a) (g a))
      → Implements (m >>= k) (and_then f g)
  Implements-bind m f k g now later = record {
    at = λ c open_tx. bind-Step f k g later c (m c).0 (m c).1 (now.at c open_tx);
  }

-- What a transaction means that commits at its end.
abbrev pub done : Update (Unit {0})
done db = ok (tt, db)

-- How an action that ends in `commit` went: it committed what `f` makes of the working database,
-- or it raised, the transaction is still open, and nothing was committed.
abbrev pub End : {A : Type 0} → Update A → Conn → Result A × Conn → Type 0
End f c (ok a, d) = (f c.working ≡ ok (a, d.committed)) × (d.in_transaction ≡ false)
End f c (err e, d) = (d.committed ≡ c.committed) × (d.in_transaction ≡ true)

pub record Commits {A : Type 0} (m : Exec A) (f : Update A) : Type 0 where
  pub at : (c : Conn) → c.in_transaction ≡ true → End f c (m c)

pub Commits-commit : Commits commit done
unfolding commit
Commits-commit = record {
  at = λ c open_tx. elim (Bool-cases (fails c.faults)) [
    | inl faulty ↦ rw faulty (refl, open_tx)
    | inr sound ↦ rw sound (refl, refl)
  ];
}

module _ {A B : Type 0} where
  bind-End :
      (f : Update A) (k : A → Exec B) (g : A → Update B)
      → ((a : A) → Commits (k a) (g a))
      → (c : Conn) (r : Result A) (d : Conn) → Step f c (r, d)
      → End (and_then f g) c (elim r [ ok a ↦ k a d | err e ↦ (err e, d) ])
  bind-End f k g later c (err e) d h = h
  bind-End f k g later c (ok a) d h = finish (k a d).0 (k a d).1 ((later a).at d h.2)
    where
      finish : (r : Result B) (d' : Conn) → End (g a) d (r, d') → End (and_then f g) c (r, d')
      finish (ok b) d' s = (rw (h.0) s.0, s.1)
      finish (err e) d' s = (s.0 ∙ h.1, s.1)

  pub Commits-bind :
      (m : Exec A) (f : Update A) (k : A → Exec B) (g : A → Update B)
      → Implements m f
      → ((a : A) → Commits (k a) (g a))
      → Commits (m >>= k) (and_then f g)
  Commits-bind m f k g now later = record {
    at = λ c open_tx. bind-End f k g later c (m c).0 (m c).1 (now.at c open_tx);
  }

pub ruleset effect_rules =
    (Implements-write, Implements-read, Implements-bind, Commits-commit, Commits-bind)

-- A connection on which a transaction has just been begun.
abbrev pub begun : Conn → Conn
begun c = record (next_statement c) { working = c.committed; in_transaction = true }

abbrev pub rolled_back : Conn → Conn
rolled_back c = record (next_statement c) { working = c.committed; in_transaction = false }

-- Outside a transaction BEGIN starts one, or fails.
pub begin-ok :
    (c : Conn) (u : Unit {0}) (d : Conn)
    → c.in_transaction ≡ false
    → begin c ≡ (ok u, d)
    → d ≡ begun c
unfolding begin
begin-ok c u d closed h = ground arith

pub begin-err : (c : Conn) (e : Exception) (d : Conn) → begin c ≡ (err e, d) → d ≡ next_statement c
unfolding begin
begin-err c e d h = ground arith

-- Inside a transaction ROLLBACK ends it, or fails.
pub rollback-ok : (c : Conn) (u : Unit {0}) (d : Conn) → rollback c ≡ (ok u, d) → d ≡ rolled_back c
unfolding rollback
rollback-ok c u d h = ground arith

pub rollback-err :
    (c : Conn) (e : Exception) (d : Conn) → rollback c ≡ (err e, d) → d ≡ next_statement c
unfolding rollback
rollback-err c e d h = ground arith

pub read-ok :
    {A : Type 0} (g : Db → A) (c : Conn) (a : A) (d : Conn)
    → read g c ≡ (ok a, d)
    → (a ≡ g c.working) × (d ≡ next_statement c)
unfolding read
read-ok g c a d h = ground arith

pub read-err :
    {A : Type 0} (g : Db → A) (c : Conn) (e : Exception) (d : Conn)
    → read g c ≡ (err e, d)
    → d ≡ next_statement c
unfolding read
read-err g c e d h = ground arith

-- A property of what an action returns and leaves, by the way its first part ended.
pub bind-induction :
    {A B : Type 0} (P : Result B × Conn → Type 0) (m : Exec A) (k : A → Exec B) (c : Conn)
    → ((a : A) (d : Conn) → m c ≡ (ok a, d) → P (k a d))
    → ((e : Exception) (d : Conn) → m c ≡ (err e, d) → P (err e, d))
    → P ((m >>= k) c)
bind-induction {A} {B} P m k c on_ok on_err = go (m c).0 (m c).1 refl
  where
    go : (r : Result A) (d : Conn) → m c ≡ (r, d) → P (elim r [ ok a ↦ k a d | err e ↦ (err e, d) ])
    go (ok a) d h = on_ok a d h
    go (err e) d h = on_err e d h

pub try-induction :
    {A : Type 0} (P : Result A × Conn → Type 0) (m : Exec A) (handler : Exception → Exec A)
    (c : Conn)
    → ((a : A) (d : Conn) → m c ≡ (ok a, d) → P (ok a, d))
    → ((e : Exception) (d : Conn) → m c ≡ (err e, d) → P (handler e d))
    → P (try_except m handler c)
try-induction {A} P m handler c on_ok on_err = go (m c).0 (m c).1 refl
  where
    go :
        (r : Result A) (d : Conn)
        → m c ≡ (r, d)
        → P (elim r [ ok a ↦ (ok a, d) | err e ↦ handler e d ])
    go (ok a) d h = on_ok a d h
    go (err e) d h = on_err e d h
