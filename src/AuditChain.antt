-- ===== src/AuditChain.antt =====
-- security/audit_chain.py, `CryptographicAuditChain.append_record`, and verify_chain.py, the audit
-- of the table that it writes. `sha256` is the hexadecimal digest of hashlib on a text.
pub mod Intact
pub mod Tamper
pub mod Limits
mod Tests
use sentinelai_v.Prelude.{
  ℕ, ◌+◌, String, Bool, false, not, ◌||◌, Option, none, some, List, [], ◌∷◌, ◌++◌, ◌==◌,
  if◌then◌else◌, get_last?,
}
use sentinelai_v.Prelude.Text.{join_bar}
use sentinelai_v.Prelude.Result.{Result, ok, err, integrity_error}
use sentinelai_v.Database.{AuditRow}

abbrev pub genesis_hash : String
genesis_hash = "0000000000000000000000000000000000000000000000000000000000000000"

-- f"{prev_hash}|{tx_id}|{action}|{payload_str}"
abbrev pub data_to_hash : String → String → String → String → String
data_to_hash prev_hash tx_id action payload =
    join_bar prev_hash (join_bar tx_id (join_bar action payload))

-- `SELECT current_hash ... ORDER BY seq_id DESC LIMIT 1`; rows stand in the order of `seq_id`.
unfoldable pub last_hash : List AuditRow → String
last_hash rows = elim (get_last? rows) [ none ↦ genesis_hash | some row ↦ row.current_hash ]

-- What AUTOINCREMENT gives the next row, in a table from which nothing is deleted.
unfoldable pub next_seq_id : List AuditRow → ℕ
next_seq_id rows = elim (get_last? rows) [ none ↦ 1 | some row ↦ row.seq_id + 1 ]

-- current_hash is UNIQUE
unfoldable pub hash_taken : String → List AuditRow → Bool
hash_taken h [] = false
hash_taken h (row ∷ rows) = row.current_hash == h || hash_taken h rows

-- Why the audit fails, and at which row.
pub data Failure : Type 0 where
  broken_link forged_data : ℕ → Failure

pub data Report : Type 0 where
  empty_journal : Report
  intact : Report
  compromised : Failure → Report

module _ (sha256 : String → String) where
  abbrev pub new_row : List AuditRow → String → String → String → AuditRow
  new_row rows tx_id action payload_str = record {
    seq_id = next_seq_id rows;
    tx_id = tx_id;
    action = action;
    payload = payload_str;
    prev_hash = last_hash rows;
    current_hash = sha256 (data_to_hash (last_hash rows) tx_id action payload_str);
  }

  -- `payload_str` is what `json.dumps(payload, sort_keys=True, ...)` gives. The hash that the
  -- method returns, which no caller reads, is that of the last row.
  unfoldable pub append_record : List AuditRow → String → String → String → Result (List AuditRow)
  append_record rows tx_id action payload_str =
      let row = new_row rows tx_id action payload_str in
      if hash_taken row.current_hash rows then err integrity_error else ok (rows ++ row ∷ [])

  -- The loop of `verify_audit_chain` on `expected_prev_hash`; `none` if it runs to the end.
  unfoldable pub verify_from : String → List AuditRow → Option Failure
  verify_from expected_prev_hash [] = none
  verify_from expected_prev_hash (row ∷ rows) =
      if not (row.prev_hash == expected_prev_hash)
      then some (broken_link row.seq_id)
      else if not
          (sha256 (data_to_hash row.prev_hash row.tx_id row.action row.payload) == row.current_hash)
      then some (forged_data row.seq_id)
      else verify_from row.current_hash rows

  abbrev pub report : Option Failure → Report
  report none = intact
  report (some f) = compromised f

  unfoldable pub verify_audit_chain : List AuditRow → Report
  verify_audit_chain [] = empty_journal
  verify_audit_chain (row ∷ rows) = report (verify_from genesis_hash (row ∷ rows))
