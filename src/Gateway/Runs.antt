-- ===== src/Gateway/Runs.antt =====
-- What the gateway leaves on the ledger in the course of its requests and restarts.
use sentinelai_v.Prelude.{
  refl, sym, subst, inl, inr, false, some, List, [], ◌∷◌, ◌++◌, Member-append, All-map,
}
use sentinelai_v.Database.{Db, Beneficiary, PaymentIntent, seed_beneficiary, init_db}
use sentinelai_v.Database.Seed.{init_db-cases}
use sentinelai_v.RustCore.{Core}
use sentinelai_v.Gateway.{proceed, refuse, Gate, security_gate}
use sentinelai_v.Gateway.Payments.{HasBacking, IsBacked}
use sentinelai_v.Gateway.Backing.{handle_transfer-IsBacked}
use sentinelai_v.Gateway.Serve.{
  Arrival, connect, behind_gate, serve, start_up, Event, arrives, restarts, live,
}

serve-IsBacked : (a : Arrival) (db : Db) (core : Core) → IsBacked db → IsBacked (serve a db core).1
unfolding serve
serve-IsBacked a db core backed = by_gate (security_gate (some a.recovery) core "POST" a.random)
  where
    by_gate : (g : Gate) → IsBacked (behind_gate g a db core).1
    by_gate proceed =
        handle_transfer-IsBacked a.env a.req a.headers (connect db a.faults) core refl refl backed
    by_gate (refuse status detail) = backed

-- A longer whitelist backs what a shorter one does.
longer-HasBacking :
    (b : Beneficiary) (rows : List Beneficiary) (p : PaymentIntent)
    → HasBacking rows p
    → HasBacking (rows ++ b ∷ []) p
longer-HasBacking b rows p k = record {
  beneficiary = k.beneficiary;
  listed = Member-append k.beneficiary rows (b ∷ []) k.listed;
  owned = k.owned;
  compliant = k.compliant;
  account = k.account;
  bounded = k.bounded;
}

init_db-IsBacked : (db : Db) → IsBacked db → IsBacked (init_db db)
init_db-IsBacked db backed = elim (init_db-cases db) [
  | inl same ↦ subst IsBacked (sym same) backed
  | inr seeded ↦ subst IsBacked (sym seeded) (
      All-map (HasBacking db.approved_beneficiaries)
        (HasBacking (db.approved_beneficiaries ++ seed_beneficiary ∷ [])) db.payment_intents
        (longer-HasBacking seed_beneficiary db.approved_beneficiaries) backed)
]

-- The gateway writes no unbacked payment: if every payment of the ledger goes to the IBAN of a
-- compliant beneficiary that its user has whitelisted, with an amount in bounds or `nan`, so does
-- every payment after any sequence of transfer requests and restarts, whatever the requests hold, in
-- any modes, and whichever statements of theirs fail.
pub live-IsBacked :
    (events : List Event) (db : Db) (core : Core) → IsBacked db → IsBacked (live events db core).0
unfolding live start_up
live-IsBacked [] db core backed = backed
live-IsBacked (arrives a ∷ rest) db core backed =
    live-IsBacked rest (serve a db core).1 (serve a db core).2 (serve-IsBacked a db core backed)
live-IsBacked (restarts ∷ rest) db core backed =
    live-IsBacked rest (init_db db) (record core { fail_safe = false }) (init_db-IsBacked db backed)
