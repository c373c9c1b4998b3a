-- ===== src/Siem/History.antt =====
-- What becomes of the witness's table over all its requests and starts.
use sentinelai_v.Prelude.{
  String, ◌≡◌, sym, ap, ◌∙◌, Bool, Option, some, inl, inr, List, [], ◌∷◌, ◌++◌,
}
use mathlib.Core.List.{append-nil, append_assoc}
use sentinelai_v.Siem.{
  RootHashPayload, SignatureCheck, ingest_root, init_db, Event, ingests, starts, live,
}
use sentinelai_v.Siem.Chain.{IsWitness, ingest-Ends, ingest-IsWitness}

module _ (verify : String → String → SignatureCheck) where
  -- The later table begins with the earlier one.
  abbrev pub Extends : List RootHashPayload → List RootHashPayload → Type 0
  Extends rows after = (more : List RootHashPayload) × (after ≡ rows ++ more)

  ingest-Extends :
      (fails : Bool) (payload : RootHashPayload) (rows : List RootHashPayload)
      → Extends rows (ingest_root verify fails payload rows).1
  ingest-Extends fails payload rows = elim (ingest-Ends verify fails payload rows) [
    | inl (taken, out) ↦ (payload ∷ [], ap (λ x. x.1) out)
    | inr refused ↦ ([], refused.1 ∙ sym (append-nil rows))
  ]

  Extends-trans :
      (rows between after : List RootHashPayload)
      → Extends rows between
      → Extends between after
      → Extends rows after
  Extends-trans rows between after (more, e) (rest, e') =
      (more ++ rest, e' ∙ ap (λ x. x ++ rest) e ∙ append_assoc rows more rest)

  -- Whatever is sent to the witness, whichever insertions fail and however often it is started: it
  -- only ever adds to its table, so that no row is changed or lost, and a table that is a chain of
  -- signed roots stays one. So no root stands twice, and each row names the root of the row before
  -- it, or follows a root that is all zeros or no row.
  pub live-IsWitness :
      (events : List Event) (table : Option (List RootHashPayload))
      → IsWitness verify (init_db table)
      → IsWitness verify (init_db (live verify events table))
        × Extends (init_db table) (init_db (live verify events table))
  unfolding live
  live-IsWitness [] table sound = (sound, ([], sym (append-nil (init_db table))))
  live-IsWitness (starts ∷ rest) table sound = live-IsWitness rest (some (init_db table)) sound
  live-IsWitness (ingests fails payload ∷ rest) table sound =
      let next = (ingest_root verify fails payload (init_db table)).1 in
      let (sound', grown) =
        live-IsWitness rest (some next)
          (ingest-IsWitness verify fails payload (init_db table) sound) in
      (
        sound',
        Extends-trans (init_db table) next _ (ingest-Extends fails payload (init_db table)) grown,
      )
