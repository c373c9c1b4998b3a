-- ===== src/Siem.antt =====
-- siem_service.py: the witness that keeps the chain of root hashes in audit_siem.db. A table is the
-- list of its rows in the order of their ids. One request runs at a time, and a `SELECT` does not
-- fail.
pub mod Chain
pub mod History
pub mod Links
mod Tests
use sentinelai_v.Prelude.{
  String, Bool, true, false, not, ◌&&◌, ◌||◌, Option, none, some, List, [], ◌∷◌, ◌++◌, ◌==◌,
  get_last?, if◌then◌else◌,
}
use sentinelai_v.AuditChain.{genesis_hash}

-- RootHashPayload, and a row of `audit_chain`
pub record RootHashPayload : Type 0 where
  pub root_hash : String
  pub prev_hash : String
  pub timestamp : String
  pub signature : String

-- `bytes.fromhex` and `PUBLIC_KEY.verify`: the signature is good, or `InvalidSignature` is raised,
-- or another exception is, as for a text that is not hexadecimal.
pub data SignatureCheck : Type 0 where
  valid_signature bad_signature unreadable_signature : SignatureCheck

pub data Reply : Type 0 where
  accepted already_processed : Reply
  -- 403, 409, 500 with "DB Error", and 500 of an exception that nothing catches
  invalid_root_signature chain_broken db_error server_error : Reply

-- `SELECT 1 FROM audit_chain WHERE root_hash = ?`
unfoldable pub is_stored : String → List RootHashPayload → Bool
is_stored root [] = false
is_stored root (row ∷ rows) = row.root_hash == root || is_stored root rows

abbrev pub root_or_zero : Option RootHashPayload → String
root_or_zero none = genesis_hash
root_or_zero (some row) = row.root_hash

-- `get_latest_root`
unfoldable pub get_latest_root : List RootHashPayload → String
get_latest_root rows = root_or_zero (get_last? rows)

-- `root_hash` is UNIQUE; the `INSERT` may fail for a reason outside the program as well.
unfoldable pub insert_root :
    Bool → RootHashPayload → List RootHashPayload → Reply × List RootHashPayload
insert_root fails row rows =
    if fails || is_stored row.root_hash rows then (db_error, rows) else (accepted, rows ++ row ∷ [])

abbrev pub check_chain :
    Bool → RootHashPayload → List RootHashPayload → SignatureCheck → Reply × List RootHashPayload
check_chain fails payload rows bad_signature = (invalid_root_signature, rows)
check_chain fails payload rows unreadable_signature = (server_error, rows)
check_chain fails payload rows valid_signature =
    let last_root = get_latest_root rows in
    if not (last_root == genesis_hash) && not (payload.prev_hash == last_root)
    then (chain_broken, rows)
    else insert_root fails payload rows

module _ (verify : String → String → SignatureCheck) where
  unfoldable pub ingest_root :
      Bool → RootHashPayload → List RootHashPayload → Reply × List RootHashPayload
  ingest_root fails payload rows =
      if is_stored payload.root_hash rows
      then (already_processed, rows)
      else check_chain fails payload rows (verify payload.signature payload.root_hash)

-- `init_db`, when the service is started: the table is made where there is none.
abbrev pub init_db : Option (List RootHashPayload) → List RootHashPayload
init_db none = []
init_db (some rows) = rows

-- A POST to /ingest with whether its insertion would fail, or a start of the service.
pub data Event : Type 0 where
  ingests : Bool → RootHashPayload → Event
  starts : Event

module _ (verify : String → String → SignatureCheck) where
  -- What the service does to its file, which may not be there yet.
  unfoldable pub live : List Event → Option (List RootHashPayload) → Option (List RootHashPayload)
  live [] table = table
  live (starts ∷ rest) table = live rest (some (init_db table))
  live (ingests fails payload ∷ rest) table =
      live rest (some (ingest_root verify fails payload (init_db table)).1)
