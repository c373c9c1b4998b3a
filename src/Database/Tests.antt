-- ===== src/Database/Tests.antt =====
-- The first start on an empty database, and the next one.
use sentinelai_v.Prelude.{◌≡◌, refl, [], ◌∷◌}
use sentinelai_v.Database.{empty_db, init_db, seed_beneficiary}

first_start : init_db empty_db ≡ record empty_db { approved_beneficiaries = seed_beneficiary ∷ [] }
unfolding init_db
first_start = refl

next_start : init_db (init_db empty_db) ≡ init_db empty_db
unfolding init_db
next_start = refl
