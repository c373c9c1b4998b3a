-- ===== src/Siem/Chain.antt =====
-- What siem_service.py keeps true of its table.
use sentinelai_v.Prelude.{
  String, ◌≡◌, ◌≢◌, ◌⊎◌, ◌↔◌, refl, ap, subst, inl, inr, Bool, true, false, Bool-cases, List, [],
  ◌∷◌, ◌++◌, ◌==◌, eq_iff, eq_refl, get_last?-snoc, All, All-append, DistinctBy, DistinctBy-snoc,
  arith,
}
use sentinelai_v.AuditChain.{genesis_hash}
use sentinelai_v.Siem.{
  RootHashPayload, SignatureCheck, valid_signature, bad_signature, unreadable_signature, Reply,
  accepted, already_processed, is_stored, root_or_zero, get_latest_root, insert_root, check_chain,
  ingest_root,
}
use sentinelai_v.Siem.Links.{Follows, IsLinked, latest-last_from, IsLinked-snoc, unstored}

-- What the witness may be relied on for: every root is signed, none stands twice, and each row
-- follows the one before it.
pub record IsWitness (verify : String → String → SignatureCheck) (rows : List RootHashPayload)
    : Type 0 where
  pub signed : All (λ row. verify row.signature row.root_hash ≡ valid_signature) rows
  pub distinct : DistinctBy (λ row. row.root_hash) rows
  pub linked : IsLinked genesis_hash rows

module _ (verify : String → String → SignatureCheck) (fails : Bool) (payload : RootHashPayload)
    (rows : List RootHashPayload) where
  -- The conditions under which a root is taken into the table.
  pub record IsAccepted : Type 0 where
    pub sound : fails ≡ false
    pub new : is_stored payload.root_hash rows ≡ false
    pub signed : verify payload.signature payload.root_hash ≡ valid_signature
    pub follows : Follows (get_latest_root rows) payload

  -- How the request ends.
  abbrev pub Ends : Reply × List RootHashPayload → Type 0
  Ends out =
      (IsAccepted × (out ≡ (accepted, rows ++ payload ∷ [])))
      ⊎ ((out.0 ≢ accepted) × (out.1 ≡ rows))

  pub ingest-Ends : Ends (ingest_root verify fails payload rows)
  unfolding ingest_root insert_root
  ingest-Ends = elim (Bool-cases (is_stored payload.root_hash rows)) [
    | inl known ↦ rw known (inr ((λ e. cc e), refl))
    | inr new ↦ rw new (by_signature new (verify payload.signature payload.root_hash) refl)
  ]
    where
      by_insert :
          is_stored payload.root_hash rows ≡ false
          → verify payload.signature payload.root_hash ≡ valid_signature
          → Follows (get_latest_root rows) payload
          → Ends (insert_root fails payload rows)
      by_insert new signed follows = elim (Bool-cases fails) [
        | inl faulty ↦ rw faulty (inr ((λ e. cc e), refl))
        | inr sound ↦ inl (
          record { sound = sound; new = new; signed = signed; follows = follows },
          rw (sound, new) refl,
        )
      ]

      by_link :
          is_stored payload.root_hash rows ≡ false
          → verify payload.signature payload.root_hash ≡ valid_signature
          → Ends (check_chain fails payload rows valid_signature)
      by_link new signed = elim (Bool-cases (get_latest_root rows == genesis_hash)) [
        | inl zeros ↦ rw zeros (by_insert new signed (inl ((eq_iff _ _).0 zeros)))
        | inr other ↦ elim (Bool-cases (payload.prev_hash == get_latest_root rows)) [
          | inl linked ↦ rw (other, linked) (by_insert new signed (inr ((eq_iff _ _).0 linked)))
          | inr broken ↦ rw (other, broken) (inr ((λ e. cc e), refl))
        ]
      ]

      by_signature :
          is_stored payload.root_hash rows ≡ false
          → (check : SignatureCheck) → verify payload.signature payload.root_hash ≡ check
          → Ends (check_chain fails payload rows check)
      by_signature new bad_signature e = inr ((λ e. cc e), refl)
      by_signature new unreadable_signature e = inr ((λ e. cc e), refl)
      by_signature new valid_signature e = by_link new e

  inserted :
      fails ≡ false
      → is_stored payload.root_hash rows ≡ false
      → insert_root fails payload rows ≡ (accepted, rows ++ payload ∷ [])
  unfolding insert_root
  inserted sound new = rw (sound, new) refl

  IsAccepted-ingest :
      IsAccepted → ingest_root verify fails payload rows ≡ (accepted, rows ++ payload ∷ [])
  unfolding ingest_root
  IsAccepted-ingest h =
      let taken = inserted h.sound h.new in
      elim h.follows [
        | inl zeros ↦
            let is_zero = (eq_iff (get_latest_root rows) genesis_hash).1 zeros in
            rw (h.new, h.signed, is_zero) taken
        | inr linked ↦
            let is_linked = (eq_iff payload.prev_hash (get_latest_root rows)).1 linked in
            elim (Bool-cases (get_latest_root rows == genesis_hash)) [
              | inl is_zero ↦ rw (h.new, h.signed, is_zero) taken
              | inr other ↦ rw (h.new, h.signed, other, is_linked) taken
            ]
      ]

  -- A root is accepted, and then stands last in the table, exactly if it is not stored yet, its
  -- signature is good, its predecessor is the latest root or the latest root is all zeros, and the
  -- insertion does not fail. Any other answer leaves the table as it was.
  pub ingest-accepted_iff :
      ((ingest_root verify fails payload rows ≡ (accepted, rows ++ payload ∷ [])) ↔ IsAccepted)
      × (((ingest_root verify fails payload rows).0 ≢ accepted)
          → (ingest_root verify fails payload rows).1 ≡ rows)
  ingest-accepted_iff = ((forward, IsAccepted-ingest), unchanged)
    where
      forward :
          ingest_root verify fails payload rows ≡ (accepted, rows ++ payload ∷ []) → IsAccepted
      forward e = elim ingest-Ends [
        | inl taken ↦ taken.0
        | inr refused ↦ absurd (refused.0 (ap (λ x. x.0) e))
      ]

      unchanged :
          (ingest_root verify fails payload rows).0 ≢ accepted
          → (ingest_root verify fails payload rows).1 ≡ rows
      unchanged ne = elim ingest-Ends [
        | inl taken ↦ absurd (ne (ap (λ x. x.0) taken.1))
        | inr refused ↦ refused.1
      ]

  -- Every request, whatever it carries and whether its insertion fails, keeps the table a chain of
  -- signed roots: no root stands twice, and each row names the root of the row before it, or follows
  -- a root that is all zeros or no row.
  pub ingest-IsWitness :
      IsWitness verify rows → IsWitness verify (ingest_root verify fails payload rows).1
  ingest-IsWitness h = elim ingest-Ends [
    | inr refused ↦ rw (refused.1) h
    | inl (taken, out) ↦ rw out (record {
      signed =
          All-append (λ row. verify row.signature row.root_hash ≡ valid_signature) rows
            (payload ∷ []) h.signed (taken.signed, tt);
      distinct =
          DistinctBy-snoc (λ row. row.root_hash) rows payload h.distinct
            (unstored payload.root_hash rows taken.new);
      linked =
          IsLinked-snoc genesis_hash rows payload h.linked
            (subst (λ l. Follows l payload) (latest-last_from rows) taken.follows);
    })
  ]

stored_last :
    (payload : RootHashPayload) (xs : List RootHashPayload)
    → is_stored payload.root_hash (xs ++ payload ∷ []) ≡ true
unfolding is_stored
stored_last payload [] = rw (eq_refl payload.root_hash) refl
stored_last payload (x ∷ xs) = ground (arith, stored_last payload xs)

repeated :
    (verify : String → String → SignatureCheck) (fails : Bool) (payload : RootHashPayload)
    (rows : List RootHashPayload)
    → is_stored payload.root_hash rows ≡ true
    → ingest_root verify fails payload rows ≡ (already_processed, rows)
unfolding ingest_root
repeated verify fails payload rows known = rw known

-- An accepted root is the latest, and a request that repeats it is ignored, whatever else it says.
accepted_once :
    (verify : String → String → SignatureCheck) (fails fails' : Bool)
    (payload payload' : RootHashPayload) (rows : List RootHashPayload)
    → (ingest_root verify fails payload rows).0 ≡ accepted
    → payload'.root_hash ≡ payload.root_hash
    → let after = (ingest_root verify fails payload rows).1 in
      (get_latest_root after ≡ payload.root_hash)
      × (ingest_root verify fails' payload' after ≡ (already_processed, after))
unfolding get_latest_root
accepted_once verify fails fails' payload payload' rows was_accepted same =
    elim (ingest-Ends verify fails payload rows) [
      | inr refused ↦ absurd (refused.0 was_accepted)
      | inl (taken, out) ↦ rw out (
        ap root_or_zero (get_last?-snoc rows payload),
        repeated verify fails' payload' (rows ++ payload ∷ []) (rw same (stored_last payload rows)),
      )
    ]
