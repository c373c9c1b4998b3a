-- ===== src/Shipping.antt =====
-- core/app/stages.py: `flush_batch` and `retry_worker`, which send the roots of batches to the witness
-- of siem_service.py, with the write-ahead log that takes what could not be sent; and the start of
-- core/crypto_audit.py's `MerkleManager`. Appending to the log does not fail here. Tasks run one after another here; `prepare` and `deliver`
-- are the two halves of `flush_batch`, between which others may run.
pub mod InSync
pub mod OutOfSync
pub mod Overlap
pub mod Restart
pub mod Garbled
mod Tests
use sentinelai_v.Prelude.{
  String, Bool, true, false, Option, none, some, List, [], ◌∷◌, if◌then◌else◌,
}
use sentinelai_v.AuditChain.{genesis_hash}
use sentinelai_v.Merkle.{build_merkle_root}
use sentinelai_v.Siem.{RootHashPayload, SignatureCheck, ingest_root}
use mathlib.Core.List.{◌++◌}
use Prim.Native.String

-- How a POST goes: it is answered, whatever the status; or no answer comes in time, though the witness
-- has handled it; or the witness is not reached. The flag is whether its insertion would fail.
pub data Delivery : Type 0 where
  answered : Bool → Delivery
  timed_out : Bool → Delivery
  unreachable : Delivery

-- A line of WAL_FILE: the JSON of a payload, nothing but spaces, or what `json.loads` raises on, as a
-- line that was written in part.
pub data Line : Type 0 where
  logged : RootHashPayload → Line
  blank garbled : Line

-- `merkle_manager.prev_root`, the lines of WAL_FILE, and the table of the witness.
pub record Shipper : Type 0 where
  pub prev_root : String
  pub wal : List Line
  pub siem : List RootHashPayload

-- A batch with the time at which it is flushed.
pub record Batch : Type 0 where
  pub timestamp : String
  pub hashes : List String

abbrev pub chain_hash_of : (String → String) → String → Batch → String
chain_hash_of sha256 prev_root b =
    sha256 (Prim.Native.String.◌++◌ prev_root (build_merkle_root sha256 b.hashes))

module _ (sha256 sign : String → String) where
  abbrev pub prepare : String → Batch → RootHashPayload
  prepare prev_root b = record {
    root_hash = chain_hash_of sha256 prev_root b;
    prev_hash = prev_root;
    timestamp = b.timestamp;
    signature = sign (chain_hash_of sha256 prev_root b);
  }

module _ (verify : String → String → SignatureCheck) where
  -- `client.post`: whether it raises, and the witness's table after it.
  abbrev pub post : Delivery → RootHashPayload → List RootHashPayload → Bool × List RootHashPayload
  post (answered fails) payload rows = (false, (ingest_root verify fails payload rows).1)
  post (timed_out fails) payload rows = (true, (ingest_root verify fails payload rows).1)
  post unreachable payload rows = (true, rows)

  -- From the POST of `flush_batch` on.
  unfoldable pub deliver : Delivery → RootHashPayload → Shipper → Shipper
  deliver d payload s =
      let (raises, rows) = post d payload s.siem in
      if raises
      then record s { wal = s.wal ++ logged payload ∷ []; siem = rows }
      else record s { prev_root = payload.root_hash; siem = rows }

  abbrev pub first_of : List Delivery → Delivery
  first_of [] = unreachable
  first_of (d ∷ ds) = d

  abbrev pub others : List Delivery → List Delivery
  others [] = []
  others (d ∷ ds) = ds

  abbrev pub keep_if : Bool → Line → Option (List Line) → Option (List Line)
  keep_if raises line none = none
  keep_if raises line (some kept) = some (if raises then line ∷ kept else kept)

  -- The loop of `retry_worker`: the lines that remain, `none` where it raises, and the state after it.
  unfoldable pub retry_lines : List Delivery → List Line → Shipper → Option (List Line) × Shipper
  retry_lines ds [] s = (some [], s)
  retry_lines ds (blank ∷ lines) s = retry_lines ds lines s
  retry_lines ds (garbled ∷ lines) s = (none, s)
  retry_lines ds (logged payload ∷ lines) s =
      let (raises, rows) = post (first_of ds) payload s.siem in
      let (kept, t) = retry_lines (others ds) lines (
        if raises
        then record s { siem = rows }
        else record s { prev_root = payload.root_hash; siem = rows }) in
      (keep_if raises (logged payload) kept, t)

  -- `f.writelines(remaining)`, or the handler of what the loop raised
  abbrev rewritten : Option (List Line) × Shipper → Shipper
  rewritten (some remaining, t) = record t { wal = remaining }
  rewritten (none, t) = t

  -- The body of the loop of `retry_worker`; for an empty file it does nothing.
  unfoldable pub retry_wal : List Delivery → Shipper → Shipper
  retry_wal ds s = rewritten (retry_lines ds s.wal s)

module _ (sha256 sign : String → String) (verify : String → String → SignatureCheck) where
  abbrev pub flush_batch : Delivery → Batch → Shipper → Shipper
  flush_batch d b s = deliver verify d (prepare sha256 sign s.prev_root b) s

  -- Batches flushed one after another, each answered.
  unfoldable pub flush_all : List Batch → Shipper → Shipper
  flush_all [] s = s
  flush_all (b ∷ bs) s = flush_all bs (flush_batch (answered false) b s)

-- `MerkleManager.__init__`, in a new process: the log and the witness are as they were.
abbrev pub restart : Shipper → Shipper
restart s = record s { prev_root = genesis_hash }
