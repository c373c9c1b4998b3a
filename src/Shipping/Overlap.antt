-- ===== src/Shipping/Overlap.antt =====
-- What happens when two tasks of core/app/stages.py flush at the same time.
use sentinelai_v.Prelude.{String, ◌≡◌, ◌≢◌, sym, ap, subst, ◌∙◌, false, List, [], ◌∷◌, ◌++◌, All}
use sentinelai_v.AuditChain.{genesis_hash}
use sentinelai_v.Siem.{RootHashPayload, SignatureCheck, valid_signature, is_stored, get_latest_root}
use sentinelai_v.Shipping.{answered, Shipper, Batch, prepare, deliver, flush_all}
use sentinelai_v.Shipping.InSync.{IsInSync, latest-snoc, flush_batch-IsInSync}
use sentinelai_v.Shipping.OutOfSync.{roots, stale_lost, out_of_sync_loses_all}

module _ (sha256 sign : String → String) (verify : String → String → SignatureCheck)
    (first second : Batch) (s : Shipper) where
  -- The two payloads, both prepared before either is answered.
  abbrev pub one : RootHashPayload
  one = prepare sha256 sign s.prev_root first

  abbrev pub other : RootHashPayload
  other = prepare sha256 sign s.prev_root second

  abbrev pub overlapped : Shipper
  overlapped = deliver verify (answered false) other (deliver verify (answered false) one s)

  abbrev chained : List RootHashPayload
  chained = s.siem ++ one ∷ []

  -- Two flushes that overlap: while sender and witness agree, both payloads are prepared, the first is
  -- accepted, and then the second is sent and answered. The second batch and every later one are
  -- lost, though each is answered: none stands in the witness's table or in the log. The first
  -- root is taken to be new, and to differ from the one before, from zeros and from those to come.
  pub overlap_loses_rest :
      (later : List Batch)
      → ((h : String) → verify (sign h) h ≡ valid_signature)
      → is_stored one.root_hash s.siem ≡ false
      → IsInSync s
      → one.root_hash ≢ genesis_hash
      → s.prev_root ≢ one.root_hash
      → All (λ r. r ≢ one.root_hash) (roots sha256 s.prev_root (second ∷ later))
      → ((flush_all sha256 sign verify later overlapped).siem ≡ s.siem ++ one ∷ [])
        × ((flush_all sha256 sign verify later overlapped).wal ≡ s.wal)
  overlap_loses_rest later signed new agree nonzero moved apart =
      let sent : Shipper = record { prev_root = one.root_hash; wal = s.wal; siem = chained } in
      let latest = latest-snoc s.siem one in
      let live : get_latest_root chained ≢ genesis_hash = λ e. nonzero (sym latest ∙ e) in
      let run : overlapped ≡ record sent { prev_root = other.root_hash } =
        ap (deliver verify (answered false) other)
          (flush_batch-IsInSync sha256 sign verify first s signed new agree).0
        ∙ stale_lost verify false other sent live (λ e. moved (e ∙ latest)) in
      let differ =
        subst (λ z. All (λ r. r ≢ z) (roots sha256 s.prev_root (second ∷ later))) (sym latest)
          apart in
      subst
        (λ t.
          ((flush_all sha256 sign verify later t).siem ≡ chained)
          × ((flush_all sha256 sign verify later t).wal ≡ s.wal))
        (sym run)
        (out_of_sync_loses_all sha256 sign verify later
          (record sent { prev_root = other.root_hash }) live differ.0 differ.1)
