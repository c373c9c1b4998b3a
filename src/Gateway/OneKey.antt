-- ===== src/Gateway/OneKey.antt =====
-- core/gateway.py and core/transaction.py under one idempotency key, with a Redis that may change.
use sentinelai_v.Prelude.{String, ◌≡◌, subst, ◌∙◌, inl, inr, List}
use sentinelai_v.Database.{Db}
use sentinelai_v.RustCore.{Core}
use sentinelai_v.Transaction.Growth.{HasUniqueKeys}
use sentinelai_v.Gateway.Serve.{Arrival, serve}
use sentinelai_v.Gateway.Stack.{Web, Call, Site, pass}
use sentinelai_v.Gateway.Day.{Occurrence, day, day-live, pass-IsServed}
use sentinelai_v.Gateway.Once.{key_at, Names, Reports, one_payment_per_key}

-- The request has reached the endpoint.
abbrev pub after_serving : Arrival → Site → Site
after_serving a site = let x = serve a site.db site.core in record site { db = x.1; core = x.2 }

module _ (web : Web) where
  -- One key, one payment: if a transfer request reaches the endpoint and is answered with a
  -- payment, then each later call with its key, after any calls, restarts and changes of what Redis
  -- holds, leaves the ledger as it finds it, and where the endpoint would answer it with a payment,
  -- it is the same one. Keys are taken to be unique at the start, as the table makes them.
  pub key_pays_once :
      (a : Arrival) (later : Call) (between : List Occurrence) (site : Site) (id : String)
      → HasUniqueKeys site.db
      → Reports id (serve a site.db site.core).0
      → key_at later.arrival ≡ key_at a
      → let s = day web between (after_serving a site) in
        ((pass web later s).1.db ≡ s.db) × Names id (serve later.arrival s.db s.core).0
  key_pays_once a later between site id unique reports same_key =
      let s = day web between (after_serving a site) in
      let (reached, same) = day-live web between (after_serving a site) in
      let (kept, names) =
        subst (λ (x : Db × Core). let y = serve later.arrival x.0 x.1 in (y.1 ≡ x.0) × Names id y.0)
          same
          (one_payment_per_key a later.arrival reached site.db site.core id unique reports
            same_key) in
      (elim (pass-IsServed web later s) [ inl (db, core) ↦ db | inr (db, core) ↦ db ∙ kept ], names)
