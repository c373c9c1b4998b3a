-- ===== src/Database.antt =====
-- core/database.py: the tables of data/ledger.db as `init_db` creates them, and the seeded row.
-- A table is the list of its rows in the order of insertion. Columns that only SQLite reads or
-- writes (`created_at`) are left out; a column that may be NULL is an `Option`.
pub mod Seed
mod Tests
use sentinelai_v.Prelude.{ℕ, String, Bool, false, Option, some, List, [], ◌∷◌, ◌==◌, if◌then◌else◌}
use sentinelai_v.Prelude.{◌||◌, ◌++◌}
use sentinelai_v.Prelude.Int.{ℤ, pos}
use sentinelai_v.Float.{Float}

-- approved_beneficiaries
pub record Beneficiary : Type 0 where
  pub id : String
  pub owner_user_id : String
  pub account_iban : String
  pub is_active : Option ℤ
  pub aml_risk_score : Option ℤ
  pub country_code : Option String

-- The values that the program writes to `payment_intents.status`.
pub data PaymentStatus : Type 0 where
  authorizing authorized failed : PaymentStatus

pub record PaymentIntent : Type 0 where
  pub id : String
  pub idempotency_key : String
  pub user_id : String
  pub amount : Float
  pub target : String
  pub status : PaymentStatus

-- The values that the program writes to `outbox_events.status`.
pub data EventStatus : Type 0 where
  pending published : EventStatus

pub record OutboxEvent : Type 0 where
  pub id : String
  pub aggregate_id : String
  pub event_type : String
  pub payload : String
  pub status : EventStatus

pub record AuditRow : Type 0 where
  pub seq_id : ℕ
  pub tx_id : String
  pub action : String
  pub payload : String
  pub prev_hash : String
  pub current_hash : String

pub record Db : Type 0 where
  pub payment_intents : List PaymentIntent
  pub outbox_events : List OutboxEvent
  pub approved_beneficiaries : List Beneficiary
  pub audit_ledger : List AuditRow

-- The row that `init_db` inserts, the columns that it does not name at their defaults.
abbrev pub seed_beneficiary : Beneficiary
seed_beneficiary = record {
  id = "1111-2222-3333-4444";
  owner_user_id = "ADMIN";
  account_iban = "ES12345678901234567890";
  is_active = some (pos 1);
  aml_risk_score = some (pos 10);
  country_code = some "ES";
}

abbrev has_beneficiary : String → List Beneficiary → Bool
has_beneficiary key [] = false
has_beneficiary key (b ∷ bs) = b.id == key || has_beneficiary key bs

-- `CREATE TABLE IF NOT EXISTS` keeps what is there, and `INSERT OR IGNORE` skips a row whose
-- primary key is taken.
unfoldable pub init_db : Db → Db
init_db db =
    if has_beneficiary seed_beneficiary.id db.approved_beneficiaries
    then db
    else record db { approved_beneficiaries = db.approved_beneficiaries ++ seed_beneficiary ∷ [] }

abbrev pub empty_db : Db
empty_db = record {
  payment_intents = [];
  outbox_events = [];
  approved_beneficiaries = [];
  audit_ledger = [];
}
