-- ===== src/Shipping/InSync.antt =====
-- What core/app/stages.py sends while it and the witness of siem_service.py agree on the latest root.
use sentinelai_v.Prelude.{
  String, ◌≡◌, refl, sym, ap, inr, false, List, [], ◌∷◌, ◌++◌, get_last?-snoc,
}
use sentinelai_v.Siem.{
  RootHashPayload, SignatureCheck, valid_signature, accepted, is_stored, get_latest_root,
  root_or_zero, ingest_root,
}
use sentinelai_v.Siem.Chain.{ingest-accepted_iff}
use sentinelai_v.Shipping.{
  answered, unreachable, logged, Shipper, Batch, chain_hash_of, prepare, deliver, flush_batch,
}

abbrev pub IsInSync : Shipper → Type 0
IsInSync s = s.prev_root ≡ get_latest_root s.siem

pub latest-snoc :
    (rows : List RootHashPayload) (p : RootHashPayload)
    → get_latest_root (rows ++ p ∷ []) ≡ p.root_hash
unfolding get_latest_root
latest-snoc rows p = ap root_or_zero (get_last?-snoc rows p)

module _ (sha256 sign : String → String) (verify : String → String → SignatureCheck) where
  -- While the sender's root is the witness's latest one: a batch whose root is new and whose signature
  -- the witness accepts is added to the witness's table when it is answered, and to the log when the
  -- witness is not reached; and sender and witness still agree.
  pub flush_batch-IsInSync :
      (b : Batch) (s : Shipper)
      → ((h : String) → verify (sign h) h ≡ valid_signature)
      → is_stored (chain_hash_of sha256 s.prev_root b) s.siem ≡ false
      → IsInSync s
      → let p = prepare sha256 sign s.prev_root b in
        let sent = flush_batch sha256 sign verify (answered false) b s in
        let kept = flush_batch sha256 sign verify unreachable b s in
        (sent ≡ record { prev_root = p.root_hash; wal = s.wal; siem = s.siem ++ p ∷ [] })
        × IsInSync sent
        × (kept ≡ record s { wal = s.wal ++ logged p ∷ [] })
        × IsInSync kept
  unfolding deliver
  flush_batch-IsInSync b s signed new agree =
      let p = prepare sha256 sign s.prev_root b in
      let taken : ingest_root verify false p s.siem ≡ (accepted, s.siem ++ p ∷ []) =
        (ingest-accepted_iff verify false p s.siem).0.1
          (record { sound = refl; new = new; signed = signed p.root_hash; follows = inr agree }) in
      (rw taken refl, rw taken (sym (latest-snoc s.siem p)), refl, agree)
