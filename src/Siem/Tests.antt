-- ===== src/Siem/Tests.antt =====
-- The witness of siem_service.py on two roots. A signature is good if it is "signed".
use sentinelai_v.Prelude.{String, ◌≡◌, refl, false, none, some, [], ◌∷◌, ◌==◌, if◌then◌else◌}
use sentinelai_v.AuditChain.{genesis_hash}
use sentinelai_v.Siem.{
  RootHashPayload, SignatureCheck, valid_signature, bad_signature, accepted, chain_broken,
  is_stored, get_latest_root, insert_root, ingest_root, init_db, ingests, starts, live,
}
use sentinelai_v.Siem.Chain.{IsWitness}
use sentinelai_v.Siem.History.{Extends, live-IsWitness}

abbrev verify : String → String → SignatureCheck
verify signature root = if signature == "signed" then valid_signature else bad_signature

abbrev first : RootHashPayload
first = record {
  root_hash = "r1";
  prev_hash = genesis_hash;
  timestamp = "t1";
  signature = "signed";
}

abbrev second : RootHashPayload
second = record { root_hash = "r2"; prev_hash = "r1"; timestamp = "t2"; signature = "signed" }

abbrev stranger : RootHashPayload
stranger = record second { prev_hash = "r0" }

both_taken : ingest_root verify false second (first ∷ []) ≡ (accepted, first ∷ second ∷ [])
unfolding ingest_root insert_root is_stored get_latest_root
both_taken = refl

broken : ingest_root verify false stranger (first ∷ []) ≡ (chain_broken, first ∷ [])
unfolding ingest_root insert_root is_stored get_latest_root
broken = refl

first_taken : (ingest_root verify false first []).0 ≡ accepted
unfolding ingest_root insert_root is_stored get_latest_root
first_taken = refl

live-IsWitness_example :
    let table =
      live verify (starts ∷ ingests false first ∷ ingests false stranger ∷ starts ∷ []) none in
    IsWitness verify (init_db table) × Extends verify [] (init_db table)
live-IsWitness_example =
    live-IsWitness verify (starts ∷ ingests false first ∷ ingests false stranger ∷ starts ∷ []) none
      (record { signed = tt; distinct = tt; linked = tt })

-- The stranger is refused.
one_taken :
    live verify (starts ∷ ingests false first ∷ ingests false stranger ∷ []) none
    ≡ some (first ∷ [])
unfolding live ingest_root insert_root is_stored get_latest_root
one_taken = refl
