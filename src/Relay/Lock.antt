-- ===== src/Relay/Lock.antt =====
-- What a failed commit of core/relay.py leads to.
use sentinelai_v.Prelude.{◌≡◌, refl, true, inl, inr, []}
use sentinelai_v.Database.{Db}
use sentinelai_v.Connection.Statements.{read-cases}
use sentinelai_v.Relay.{
  Relay, batch, publish_events, commit_if, poll, Step, polls, pays_elsewhere, Reach, start, after,
}

-- The worker's transaction is open over this database, and it sees no pending row in it.
pub record IsStuck (committed working : Db) (r : Relay) : Type 0 where
  pub open_tx : r.conn.in_transaction ≡ true
  pub durable : r.conn.committed ≡ committed
  pub seen : r.conn.working ≡ working

module _ (committed working : Db) (idle : batch working ≡ []) where
  poll-IsStuck : (r : Relay) → IsStuck committed working r → IsStuck committed working (poll r)
  unfolding poll publish_events commit_if
  poll-IsStuck r h = elim (read-cases batch r.conn) [
    | inl failed ↦ rw failed (record { open_tx = h.open_tx; durable = h.durable; seen = h.seen })
    | inr got ↦
        let nothing : batch r.conn.working ≡ [] = rw (h.seen) idle in
        rw (got, nothing) (record { open_tx = h.open_tx; durable = h.durable; seen = h.seen })
  ]

  Step-IsStuck :
      (r s : Relay) → Step r s → IsStuck committed working r → IsStuck committed working s
  Step-IsStuck r s polls h = poll-IsStuck r h
  Step-IsStuck r s (pays_elsewhere db closed more) h = cc (h.open_tx, closed)

  Reach-IsStuck :
      (r s : Relay) → Reach r s → IsStuck committed working r → IsStuck committed working s
  Reach-IsStuck r s start h = h
  Reach-IsStuck r s (after reached step) h = Step-IsStuck _ s step (Reach-IsStuck r _ reached h)

-- Once the worker holds an open transaction in which no row is pending, as after a commit that
-- failed, nothing is ever committed again: no later poll ends the transaction, so what it marked
-- stays uncommitted, and no payment gets through.
pub failed_commit_locks :
    (r s : Relay)
    → r.conn.in_transaction ≡ true
    → batch r.conn.working ≡ []
    → Reach r s
    → (s.conn.committed ≡ r.conn.committed) × (s.conn.in_transaction ≡ true)
failed_commit_locks r s open_tx idle reached =
    let h =
      Reach-IsStuck r.conn.committed r.conn.working idle r s reached
        (record { open_tx = open_tx; durable = refl; seen = refl }) in
    (h.durable, h.open_tx)
