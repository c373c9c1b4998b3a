-- ===== src/Shipping/OutOfSync.antt =====
-- What core/app/stages.py loses once it and the witness of siem_service.py disagree.
use sentinelai_v.Prelude.{
  String, ◌≡◌, ◌≢◌, refl, sym, ap, subst, ◌∙◌, inl, inr, false, Bool, List, [], ◌∷◌, ◌++◌, All,
}
use sentinelai_v.AuditChain.{genesis_hash}
use sentinelai_v.Siem.{
  RootHashPayload, SignatureCheck, valid_signature, is_stored, get_latest_root, ingest_root,
}
use sentinelai_v.Siem.Chain.{ingest-Ends}
use sentinelai_v.Merkle.{build_merkle_root}
use sentinelai_v.Shipping.{
  answered, unreachable, logged, Shipper, Batch, chain_hash_of, prepare, deliver, retry_lines,
  retry_wal, flush_batch, flush_all,
}
use sentinelai_v.Shipping.InSync.{IsInSync, latest-snoc, flush_batch-IsInSync}

module _ (verify : String → String → SignatureCheck) where
  -- The witness refuses what does not follow its latest root.
  stale_unchanged :
      (fails : Bool) (p : RootHashPayload) (rows : List RootHashPayload)
      → get_latest_root rows ≢ genesis_hash
      → p.prev_hash ≢ get_latest_root rows
      → (ingest_root verify fails p rows).1 ≡ rows
  stale_unchanged fails p rows nonzero stale = elim (ingest-Ends verify fails p rows) [
    | inr refused ↦ refused.1
    | inl (taken, out) ↦ elim taken.follows [
      | inl zeros ↦ absurd (nonzero zeros)
      | inr linked ↦ absurd (stale linked)
    ]
  ]

  pub stale_lost :
      (fails : Bool) (p : RootHashPayload) (s : Shipper)
      → get_latest_root s.siem ≢ genesis_hash
      → p.prev_hash ≢ get_latest_root s.siem
      → deliver verify (answered fails) p s ≡ record s { prev_root = p.root_hash }
  unfolding deliver
  stale_lost fails p s nonzero stale = rw (stale_unchanged fails p s.siem nonzero stale) refl

  -- So a retry of one stale line takes it off the log.
  stale_retry :
      (p : RootHashPayload) (s : Shipper)
      → get_latest_root s.siem ≢ genesis_hash
      → p.prev_hash ≢ get_latest_root s.siem
      → s.wal ≡ logged p ∷ []
      → retry_wal verify (answered false ∷ []) s ≡ record s { prev_root = p.root_hash; wal = [] }
  unfolding retry_wal retry_lines
  stale_retry p s nonzero stale one = rw (one, stale_unchanged false p s.siem nonzero stale) refl

-- The roots that the batches get, one after another.
abbrev pub roots : (String → String) → String → List Batch → List String
roots sha256 prev_root [] = []
roots sha256 prev_root (b ∷ bs) =
    chain_hash_of sha256 prev_root b ∷ roots sha256 (chain_hash_of sha256 prev_root b) bs

module _ (sha256 sign : String → String) (verify : String → String → SignatureCheck) where
  -- If the sender's root is not the witness's latest one, which is not all zeros, and none of the roots
  -- to come happens to be it, every batch from then on is lost: each is answered, none stands in the
  -- witness's table or in the log.
  pub out_of_sync_loses_all :
      (bs : List Batch) (s : Shipper)
      → get_latest_root s.siem ≢ genesis_hash
      → s.prev_root ≢ get_latest_root s.siem
      → All (λ r. r ≢ get_latest_root s.siem) (roots sha256 s.prev_root bs)
      → ((flush_all sha256 sign verify bs s).siem ≡ s.siem)
        × ((flush_all sha256 sign verify bs s).wal ≡ s.wal)
  unfolding flush_all
  out_of_sync_loses_all [] s nonzero apart others = (refl, refl)
  out_of_sync_loses_all (b ∷ bs) s nonzero apart others =
      subst
        (λ t.
          ((flush_all sha256 sign verify bs t).siem ≡ s.siem)
          × ((flush_all sha256 sign verify bs t).wal ≡ s.wal))
        (sym (stale_lost verify false (prepare sha256 sign s.prev_root b) s nonzero apart))
        (out_of_sync_loses_all bs (record s { prev_root = chain_hash_of sha256 s.prev_root b })
          nonzero others.0 others.1)

  -- An outage of one batch: the first batch finds the witness unreachable and goes to the log, the second
  -- is accepted, and then the log is sent and answered. The log is empty, the witness has the second
  -- batch and not the first, and the sender's root is no longer the witness's latest one. The two
  -- roots are taken to differ from each other, from zeros and from those stored.
  outage_loses_batch :
      (first second : Batch) (s : Shipper)
      → ((h : String) → verify (sign h) h ≡ valid_signature)
      → IsInSync s
      → s.wal ≡ []
      → is_stored (chain_hash_of sha256 s.prev_root second) s.siem ≡ false
      → chain_hash_of sha256 s.prev_root second ≢ genesis_hash
      → chain_hash_of sha256 s.prev_root first ≢ chain_hash_of sha256 s.prev_root second
      → s.prev_root ≢ chain_hash_of sha256 s.prev_root second
      → let down = flush_batch sha256 sign verify unreachable first s in
        let up = flush_batch sha256 sign verify (answered false) second down in
        let after = retry_wal verify (answered false ∷ []) up in
        (after.wal ≡ [])
        × (after.siem ≡ s.siem ++ prepare sha256 sign s.prev_root second ∷ [])
        × ¬ IsInSync after
  unfolding deliver build_merkle_root
  outage_loses_batch first second s signed agree empty new nonzero differ fresh =
      let p = prepare sha256 sign s.prev_root first in
      let q = prepare sha256 sign s.prev_root second in
      let down : Shipper = record s { wal = s.wal ++ logged p ∷ [] } in
      let up : Shipper = record {
        prev_root = q.root_hash;
        wal = logged p ∷ [];
        siem = s.siem ++ q ∷ [];
      } in
      let sent : flush_batch sha256 sign verify (answered false) second down ≡ up =
        (flush_batch-IsInSync sha256 sign verify second down signed new agree).0
        ∙ ap (λ w. record up { wal = w ++ logged p ∷ [] }) empty in
      let latest = latest-snoc s.siem q in
      let again =
        stale_retry verify p up (λ e. nonzero (sym latest ∙ e)) (λ e. fresh (e ∙ latest)) refl in
      subst (λ t. (t.wal ≡ []) × (t.siem ≡ s.siem ++ q ∷ []) × ¬ IsInSync t)
        (sym (ap (retry_wal verify (answered false ∷ [])) sent ∙ again))
        (refl, refl, λ e. differ (e ∙ latest))
