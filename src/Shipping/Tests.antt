-- ===== src/Shipping/Tests.antt =====
-- Batches of one hash between a sender and a witness whose latest root is "r0". The digest is a pair
-- of brackets.
use sentinelai_v.Prelude.{
  String, List, ◌≡◌, ◌≢◌, refl, false, [], ◌∷◌, ◌==◌, All, arith, eq_iff, if◌then◌else◌,
}
use sentinelai_v.AuditChain.{genesis_hash}
use sentinelai_v.Merkle.{build_merkle_root, merkle_from}
use sentinelai_v.Siem.{
  RootHashPayload, SignatureCheck, valid_signature, bad_signature, is_stored, get_latest_root,
  ingest_root, insert_root,
}
use sentinelai_v.Shipping.{
  answered, unreachable, logged, garbled, Line, Delivery, retry_wal, retry_lines, Shipper, Batch,
  chain_hash_of, prepare, flush_batch, flush_all,
}
use sentinelai_v.Shipping.InSync.{IsInSync, flush_batch-IsInSync}
use sentinelai_v.Shipping.OutOfSync.{roots}
use sentinelai_v.Shipping.Garbled.{retry_all, IsFrom, garbled_line_blocks}
use sentinelai_v.Shipping.Overlap.{overlapped, overlap_loses_rest}
use Prim.Native.String

abbrev bracket : String → String
bracket s = String.◌++◌ "(" (String.◌++◌ s ")")

abbrev sign : String → String
sign h = h

abbrev verify : String → String → SignatureCheck
verify signature root = if signature == root then valid_signature else bad_signature

signed : (h : String) → verify (sign h) h ≡ valid_signature
signed h = ground (arith, eq_iff h h)

abbrev row : RootHashPayload
row = record { root_hash = "r0"; prev_hash = genesis_hash; timestamp = "t0"; signature = "r0" }

abbrev shipper : String → Shipper
shipper prev_root = record { prev_root = prev_root; wal = []; siem = row ∷ [] }

abbrev first : Batch
first = record { timestamp = "t1"; hashes = "a" ∷ [] }

abbrev second : Batch
second = record { timestamp = "t2"; hashes = "b" ∷ [] }

unequal : (s t : String) → (s == t) ≡ false → s ≢ t
unequal s t h e = ground (arith, e, h, eq_iff s t)

agree : IsInSync (shipper "r0")
unfolding get_latest_root
agree = refl

second_new : is_stored (chain_hash_of bracket "r0" second) (shipper "r0").siem ≡ false
unfolding is_stored build_merkle_root merkle_from
second_new = refl

flush_batch-IsInSync_example :
    let p = prepare bracket sign "r0" second in
    let sent = flush_batch bracket sign verify (answered false) second (shipper "r0") in
    let kept = flush_batch bracket sign verify unreachable second (shipper "r0") in
    (sent ≡ record { prev_root = p.root_hash; wal = []; siem = row ∷ p ∷ [] })
    × IsInSync sent
    × (kept ≡ record { prev_root = "r0"; wal = logged p ∷ []; siem = row ∷ [] })
    × IsInSync kept
flush_batch-IsInSync_example =
    flush_batch-IsInSync bracket sign verify second (shipper "r0") signed second_new agree

first_new : is_stored (chain_hash_of bracket "r0" first) (shipper "r0").siem ≡ false
unfolding is_stored build_merkle_root merkle_from
first_new = refl

first_nonzero : chain_hash_of bracket "r0" first ≢ genesis_hash
unfolding build_merkle_root merkle_from
first_nonzero = unequal "(r0a)" genesis_hash refl

first_fresh : "r0" ≢ chain_hash_of bracket "r0" first
unfolding build_merkle_root merkle_from
first_fresh = unequal "r0" "(r0a)" refl

roots_apart :
    All (λ r. r ≢ chain_hash_of bracket "r0" first) (roots bracket "r0" (second ∷ first ∷ []))
unfolding build_merkle_root merkle_from
roots_apart = (unequal "(r0b)" "(r0a)" refl, (unequal "((r0b)a)" "(r0a)" refl, tt))

overlap_loses_rest_example :
    let after =
      flush_all bracket sign verify
        (first ∷ [])
        (overlapped bracket sign verify first second (shipper "r0")) in
    (after.siem ≡ row ∷ prepare bracket sign "r0" first ∷ []) × (after.wal ≡ [])
overlap_loses_rest_example =
    overlap_loses_rest bracket sign verify first second (shipper "r0") (first ∷ []) signed first_new
      agree first_nonzero first_fresh roots_apart

abbrev log : List Line
log = logged (prepare bracket sign "r0" first) ∷ garbled ∷ logged row ∷ []

abbrev logging : Shipper
logging = record (shipper "r0") { wal = log }

abbrev rounds : List (List Delivery)
rounds = (unreachable ∷ []) ∷ (answered false ∷ answered false ∷ []) ∷ []

-- The first line is sent, and is refused as known from then on; the last never is.
blocked_log : (retry_all verify rounds logging).siem ≡ row ∷ prepare bracket sign "r0" first ∷ []
unfolding retry_wal retry_lines is_stored build_merkle_root merkle_from ingest_root insert_root
    get_latest_root
blocked_log = refl

garbled_line_blocks_example :
    ((retry_all verify rounds logging).wal ≡ log)
    × All
        (IsFrom (row ∷ []) (logged (prepare bracket sign "r0" first) ∷ []))
        (retry_all verify rounds logging).siem
garbled_line_blocks_example =
    garbled_line_blocks verify (logged (prepare bracket sign "r0" first) ∷ []) (logged row ∷ [])
      rounds logging refl
