-- ===== src/AuditChain/Limits.antt =====
-- What the audit of verify_chain.py cannot see.
use sentinelai_v.Prelude.{
  String, ◌≡◌, ◌≢◌, refl, sym, ap, ◌∙◌, none, some, List, [], ◌∷◌, ◌++◌, arith, eq_iff,
}
use sentinelai_v.Prelude.Text.{join_bar, join_bar_assoc}
use sentinelai_v.Database.{AuditRow}
use sentinelai_v.AuditChain.{
  genesis_hash, data_to_hash, verify_from, verify_audit_chain, intact, forged_data,
}
use sentinelai_v.AuditChain.Intact.{IsVerified, head_from, verify_from-append}

module _ (sha256 : String → String) where
  verify_from-prefix :
      (e : String) (xs ys : List AuditRow)
      → verify_from sha256 e (xs ++ ys) ≡ none
      → verify_from sha256 e xs ≡ none
  unfolding verify_from
  verify_from-prefix e [] ys h = refl
  verify_from-prefix e (x ∷ xs) ys h = ground (arith, verify_from-prefix x.current_hash xs ys)

  -- Deleting the newest rows is not seen: what is left of a chain that verifies, if any row is, is
  -- reported as intact.
  truncation_unseen :
      (row : AuditRow) (rows deleted : List AuditRow)
      → verify_audit_chain sha256 ((row ∷ rows) ++ deleted) ≡ intact
      → verify_audit_chain sha256 (row ∷ rows) ≡ intact
  unfolding verify_audit_chain
  truncation_unseen row rows deleted h =
      let left : verify_from sha256 genesis_hash (row ∷ rows) ≡ none =
        verify_from-prefix genesis_hash (row ∷ rows) deleted (ground arith) in
      rw left

  forged_here :
      (e : String) (row : AuditRow) (after : List AuditRow) (tx_id action payload : String)
      → verify_from sha256 e (row ∷ after) ≡ none
      → sha256 (data_to_hash row.prev_hash tx_id action payload)
        ≢ sha256 (data_to_hash row.prev_hash row.tx_id row.action row.payload)
      → verify_from sha256 e
          (record row { tx_id = tx_id; action = action; payload = payload } ∷ after)
        ≡ some (forged_data row.seq_id)
  unfolding verify_from
  forged_here e row after tx_id action payload v differ =
      let stored = sha256 (data_to_hash row.prev_hash row.tx_id row.action row.payload) in
      let forged = sha256 (data_to_hash row.prev_hash tx_id action payload) in
      ground (arith, eq_iff stored row.current_hash, eq_iff forged row.current_hash)

  -- In a chain that verifies, a row whose identifier, action or payload was changed and whose
  -- hashes were left alone is found, at its number, unless the two texts have one digest.
  pub forgery_found :
      (before after : List AuditRow) (row : AuditRow) (tx_id action payload : String)
      → IsVerified sha256 (before ++ row ∷ after)
      → sha256 (data_to_hash row.prev_hash tx_id action payload)
        ≢ sha256 (data_to_hash row.prev_hash row.tx_id row.action row.payload)
      → verify_from sha256 genesis_hash
          (before ++ record row { tx_id = tx_id; action = action; payload = payload } ∷ after)
        ≡ some (forged_data row.seq_id)
  forgery_found before after row tx_id action payload v differ =
      let intact_before = verify_from-prefix genesis_hash before (row ∷ after) v in
      let go_on = verify_from-append sha256 genesis_hash before (row ∷ after) intact_before in
      verify_from-append sha256 genesis_hash before _ intact_before
      ∙ forged_here (head_from genesis_hash before) row after tx_id action payload (sym go_on ∙ v)
          differ

  verify_from-same :
      (e : String) (before after : List AuditRow) (row : AuditRow)
      (tx_id action tx_id' action' : String)
      → data_to_hash row.prev_hash tx_id action row.payload
        ≡ data_to_hash row.prev_hash tx_id' action' row.payload
      → verify_from sha256 e (before ++ record row { tx_id = tx_id; action = action } ∷ after)
        ≡ verify_from sha256 e (before ++ record row { tx_id = tx_id'; action = action' } ∷ after)
  unfolding verify_from
  verify_from-same e [] after row tx_id action tx_id' action' same = rw same
  verify_from-same e (x ∷ xs) after row tx_id action tx_id' action' same =
      rw (verify_from-same x.current_hash xs after row tx_id action tx_id' action' same)

  -- The fields are joined by "|" with no escape: moving a piece that ends at a "|" from the transaction
  -- identifier to the action, in any row, changes nothing that the audit finds.
  pub moved_bar_unseen :
      (before after : List AuditRow) (row : AuditRow) (x y z : String)
      → verify_from sha256 genesis_hash
          (before ++ record row { tx_id = join_bar x y; action = z } ∷ after)
        ≡ verify_from sha256 genesis_hash
            (before ++ record row { tx_id = x; action = join_bar y z } ∷ after)
  moved_bar_unseen before after row x y z =
      verify_from-same genesis_hash before after row (join_bar x y) z x (join_bar y z) (
        ap (join_bar row.prev_hash) (
          join_bar_assoc x y (join_bar z row.payload)
          ∙ ap (join_bar x) (sym (join_bar_assoc y z row.payload))))
