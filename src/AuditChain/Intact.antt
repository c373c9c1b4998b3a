-- ===== src/AuditChain/Intact.antt =====
-- A journal that only `append_record` has written passes the audit.
use sentinelai_v.Prelude.{
  String, ◌≡◌, ◌≢◌, refl, none, some, List, [], ◌∷◌, ◌++◌, eq_refl, arith, get_last?, inl, inr, ◌∙◌,
}
use sentinelai_v.Prelude.Result.{Result, ok, err, Result-cases}
use sentinelai_v.Database.{AuditRow}
use sentinelai_v.AuditChain.{
  genesis_hash, last_hash, Failure, new_row, append_record, verify_from, verify_audit_chain,
  compromised,
}

-- The head of a chain that starts after `expected`.
abbrev pub head_from : String → List AuditRow → String
head_from expected rows = elim (get_last? rows) [ none ↦ expected | some row ↦ row.current_hash ]

pub head_from-cons :
    (e : String) (r : AuditRow) (rows : List AuditRow)
    → head_from e (r ∷ rows) ≡ head_from r.current_hash rows
head_from-cons e r [] = refl
head_from-cons e r (x ∷ xs) = head_from-two e r.current_hash x xs
  where
    head_from-two :
        (d e : String) (x : AuditRow) (xs : List AuditRow)
        → head_from d (x ∷ xs) ≡ head_from e (x ∷ xs)
    head_from-two d e x [] = refl
    head_from-two d e x (y ∷ []) = refl
    head_from-two d e x (y ∷ z ∷ zs) = head_from-two d e z zs

module _ (sha256 : String → String) where
  -- The audit passes over every row.
  abbrev pub IsVerified : List AuditRow → Type 0
  IsVerified rows = verify_from sha256 genesis_hash rows ≡ none

  -- The audit of a table goes on in its second part from the head of the first.
  pub verify_from-append :
      (e : String) (xs ys : List AuditRow)
      → verify_from sha256 e xs ≡ none
      → verify_from sha256 e (xs ++ ys) ≡ verify_from sha256 (head_from e xs) ys
  unfolding verify_from
  verify_from-append e [] ys h = refl
  verify_from-append e (x ∷ xs) ys h =
      ground (arith, verify_from-append x.current_hash xs ys, head_from-cons e x xs)

  new_row-verified :
      (rows : List AuditRow) (tx_id action payload : String)
      → verify_from sha256 (last_hash rows) (new_row sha256 rows tx_id action payload ∷ []) ≡ none
  unfolding verify_from
  new_row-verified rows tx_id action payload = simp eq_refl

  snoc-IsVerified :
      (rows : List AuditRow) (tx_id action payload : String)
      → IsVerified rows
      → IsVerified (rows ++ new_row sha256 rows tx_id action payload ∷ [])
  unfolding last_hash
  snoc-IsVerified rows tx_id action payload h =
      verify_from-append genesis_hash rows _ h ∙ new_row-verified rows tx_id action payload

  -- What `append_record` does when it does not raise.
  pub append_record-ok :
      (rows rows' : List AuditRow) (tx_id action payload : String)
      → append_record sha256 rows tx_id action payload ≡ ok rows'
      → rows' ≡ rows ++ new_row sha256 rows tx_id action payload ∷ []
  unfolding append_record
  append_record-ok rows rows' tx_id action payload e = ground arith

  pub append_record-IsVerified :
      (rows rows' : List AuditRow) (tx_id action payload : String)
      → IsVerified rows
      → append_record sha256 rows tx_id action payload ≡ ok rows'
      → IsVerified rows'
  append_record-IsVerified rows rows' tx_id action payload h e =
      rw (append_record-ok rows rows' tx_id action payload e)
        (snoc-IsVerified rows tx_id action payload h)

  -- A run of the method on one request after another; a call that raises is rolled back.
  abbrev kept : List AuditRow → Result (List AuditRow) → List AuditRow
  kept rows (ok rows') = rows'
  kept rows (err e) = rows

  abbrev pub append_all : List AuditRow → List (String × String × String) → List AuditRow
  append_all rows [] = rows
  append_all rows ((tx_id, action, payload) ∷ rest) =
      append_all (kept rows (append_record sha256 rows tx_id action payload)) rest

  append_all-IsVerified :
      (requests : List (String × String × String)) (rows : List AuditRow)
      → IsVerified rows
      → IsVerified (append_all rows requests)
  append_all-IsVerified [] rows h = h
  append_all-IsVerified ((tx_id, action, payload) ∷ rest) rows h =
      append_all-IsVerified rest _
        (elim (Result-cases (append_record sha256 rows tx_id action payload)) [
          | inl (rows', e) ↦ rw e (append_record-IsVerified rows rows' tx_id action payload h e)
          | inr (x, e) ↦ rw e h
        ])

  not_compromised :
      (rows : List AuditRow)
      → IsVerified rows
      → (f : Failure) → verify_audit_chain sha256 rows ≢ compromised f
  unfolding verify_audit_chain
  not_compromised [] h f e = cc
  not_compromised (r ∷ rows) h f e = cc

  -- Whatever requests the method is called with, one after another on an empty table, the audit of
  -- the table that results does not report a compromise.
  pub journal_not_compromised :
      (requests : List (String × String × String)) (f : Failure)
      → verify_audit_chain sha256 (append_all [] requests) ≢ compromised f
  journal_not_compromised requests f =
      not_compromised (append_all [] requests) (append_all-IsVerified requests [] empty_verified) f
    where
      empty_verified : IsVerified []
      empty_verified = unfold verify_from in refl
