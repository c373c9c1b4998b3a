-- ===== src/Database/Seed.antt =====
-- What `init_db` of core/database.py does to a database, at every start of the gateway.
use sentinelai_v.Prelude.{
  ◌⊎◌, String, ◌≡◌, ◌≢◌, refl, inl, inr, true, false, Bool-cases, Bool, List, [], ◌∷◌, ◌++◌, ◌||◌,
  eq_refl, Member-snoc, DistinctBy-snoc, ◌==◌, eq_iff, All, Member, DistinctBy, arith,
}
use sentinelai_v.Database.{Db, Beneficiary, seed_beneficiary, has_beneficiary, init_db}

or_true : (b : Bool) → (b || true) ≡ true
or_true true = refl
or_true false = refl

absent :
    (key : String) (bs : List Beneficiary)
    → has_beneficiary key bs ≡ false
    → All (λ b. b.id ≢ key) bs
absent key [] h = tt
absent key (b ∷ bs) h = elim (Bool-cases (b.id == key)) [
  | inl same ↦ ground arith
  | inr other ↦ ((λ e. ground (arith, e, other, eq_iff b.id key)), absent key bs (rw other at h))
]

present :
    (key : String) (bs : List Beneficiary)
    → has_beneficiary key bs ≡ true
    → (b : Beneficiary) × Member b bs × (b.id ≡ key)
present key [] h = cc
present key (b ∷ bs) h = elim (Bool-cases (b.id == key)) [
  | inl same ↦ (b, inl refl, (eq_iff b.id key).0 same)
  | inr other ↦ let (found, m, e) = present key bs (rw other at h) in (found, inr m, e)
]

pub init_db-cases :
    (db : Db)
    → (init_db db ≡ db)
      ⊎ (init_db db ≡ record db {
        approved_beneficiaries = db.approved_beneficiaries ++ seed_beneficiary ∷ [];
      })
unfolding init_db
init_db-cases db =
    elim (Bool-cases (has_beneficiary seed_beneficiary.id db.approved_beneficiaries)) [
      | inl there ↦ inl (rw there refl)
      | inr missing ↦ inr (rw missing refl)
    ]

has_beneficiary-snoc :
    (b : Beneficiary) (bs : List Beneficiary) → has_beneficiary b.id (bs ++ b ∷ []) ≡ true
has_beneficiary-snoc b [] = rw (eq_refl b.id) refl
has_beneficiary-snoc b (x ∷ bs) = rw (has_beneficiary-snoc b bs) (or_true (x.id == b.id))

-- Initialising keeps identifiers of beneficiaries unique, if they are, leaves a beneficiary of the
-- seeded identifier in the table, and does nothing when it is done again.
init_db-seeded :
    (db : Db)
    → DistinctBy (λ b. b.id) db.approved_beneficiaries
    → DistinctBy (λ b. b.id) (init_db db).approved_beneficiaries
      × ((b : Beneficiary) × Member b (init_db db).approved_beneficiaries
          × (b.id ≡ seed_beneficiary.id))
      × (init_db (init_db db) ≡ init_db db)
unfolding init_db
init_db-seeded db unique =
    elim (Bool-cases (has_beneficiary seed_beneficiary.id db.approved_beneficiaries)) [
      | inl there ↦ rw there (unique, present _ db.approved_beneficiaries there, rw there refl)
      | inr missing ↦ rw missing (
        DistinctBy-snoc (λ b. b.id) db.approved_beneficiaries seed_beneficiary unique
            (absent _ db.approved_beneficiaries missing),
        (seed_beneficiary, Member-snoc seed_beneficiary db.approved_beneficiaries, refl),
        rw (has_beneficiary-snoc seed_beneficiary db.approved_beneficiaries) refl,
      )
    ]
