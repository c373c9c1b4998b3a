-- ===== src/Shipping/Restart.antt =====
-- What core/app/stages.py sends after its process has been started anew.
use sentinelai_v.Prelude.{String, ◌≡◌, ◌≢◌, sym, List, All}
use sentinelai_v.AuditChain.{genesis_hash}
use sentinelai_v.Siem.{SignatureCheck, get_latest_root}
use sentinelai_v.Shipping.{Shipper, Batch, flush_all, restart}
use sentinelai_v.Shipping.OutOfSync.{roots, out_of_sync_loses_all}

module _ (sha256 sign : String → String) (verify : String → String → SignatureCheck) where
  -- After a restart of the sender every batch is lost, if the witness has a batch: the first root is
  -- chained to zeros again, so each batch is answered, and none stands in the witness's table or in
  -- the log. The witness's latest root is taken to differ from zeros and from the roots to come.
  restart_loses_all :
      (bs : List Batch) (s : Shipper)
      → get_latest_root s.siem ≢ genesis_hash
      → All (λ r. r ≢ get_latest_root s.siem) (roots sha256 genesis_hash bs)
      → ((flush_all sha256 sign verify bs (restart s)).siem ≡ s.siem)
        × ((flush_all sha256 sign verify bs (restart s)).wal ≡ s.wal)
  restart_loses_all bs s nonzero apart =
      out_of_sync_loses_all sha256 sign verify bs (restart s) nonzero (λ e. nonzero (sym e)) apart
