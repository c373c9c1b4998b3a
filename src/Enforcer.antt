-- ===== src/Enforcer.antt =====
-- security/enforcer.py: `DeterministicEnforcer`.
pub mod Decision
pub mod Compliance
pub mod Rejections
mod Tests
use sentinelai_v.Prelude.{
  ℕ, String, ◌≡◌, Bool, true, false, ◌&&◌, ◌||◌, not, Option, none, some, List, ◌==◌, if◌then◌else◌,
  find?,
}
use sentinelai_v.Prelude.Int.{ℤ, pos, leb_ℤ, ltb_ℤ}
use sentinelai_v.Prelude.Result.{Result, ok, err, Exception, type_error, value_error, ◌>>=◌}
use sentinelai_v.Float.{Float, zero_float, of_ℕ, lt_float, le_float, truthy_float}
use sentinelai_v.Database.{Beneficiary}

-- The value of the key "amount" in the payload: missing or null, a number, a text, or a list or a
-- dict (by whether it has any element).
pub data AmountValue : Type 0 where
  missing : AmountValue
  number : Float → AmountValue
  text : String → AmountValue
  container : Bool → AmountValue

-- `ai_payload`, at the two keys that are read.
pub record AiPayload : Type 0 where
  pub target_beneficiary_id : Option String
  pub amount : AmountValue

pub record SafeContext : Type 0 where
  pub user_id : String
  pub amount : Float
  pub target_iban : String
  pub internal_label : String

-- The reasons, by the words that follow their prefix.
pub data Reason : Type 0 where
  missing_required_fields : Reason
  amount_out_of_bounds : Reason
  invalid_amount_format : Reason
  unknown_beneficiary : Reason
  beneficiary_frozen : Reason
  high_aml_risk : Reason
  sanctioned_region : Reason

-- The tuple (success, reason, safe payload).
pub data Verdict : Type 0 where
  approved : SafeContext → Verdict
  rejected : Reason → Verdict

abbrev pub truthy : AmountValue → Bool
truthy missing = false
truthy (number a) = truthy_float a
truthy (text s) = not (s == "")
truthy (container b) = b

abbrev pub truthy_target : Option String → Bool
truthy_target none = false
truthy_target (some s) = not (s == "")

-- The limit that is written into the code.
abbrev pub max_amount : ℕ
max_amount = 50000

-- `WHERE id = ? AND owner_user_id = ?`, and `fetchone`
unfoldable pub get_trusted_beneficiary : List Beneficiary → String → String → Option Beneficiary
get_trusted_beneficiary rows user_id beneficiary_uuid =
    find? (λ b. b.id == beneficiary_uuid && b.owner_user_id == user_id) rows

-- `x == 1`, where NULL is not equal to 1
abbrev pub is_one : Option ℤ → Bool
is_one none = false
is_one (some a) = leb_ℤ a (pos 1) && leb_ℤ (pos 1) a

-- `x > 80`, which raises for NULL
abbrev pub above : ℕ → Option ℤ → Result Bool
above n none = err type_error
above n (some a) = ok (ltb_ℤ (pos n) a)

-- `x in ["NK", "IR", "SY"]`
abbrev pub is_sanctioned : Option String → Bool
is_sanctioned none = false
is_sanctioned (some c) = c == "NK" || c == "IR" || c == "SY"

unfoldable pub compliance : String → Float → Beneficiary → Result Verdict
compliance user_id amount beneficiary =
    if not (is_one beneficiary.is_active)
    then ok (rejected beneficiary_frozen)
    else above 80 beneficiary.aml_risk_score >>= λ risky.
        if risky
        then ok (rejected high_aml_risk)
        else if is_sanctioned beneficiary.country_code
        then ok (rejected sanctioned_region)
        else ok (
            approved (record {
              user_id = user_id;
              amount = amount;
              target_iban = beneficiary.account_iban;
              internal_label = "USER_INITIATED_TRANSFER";
            }))

abbrev pub semantic_check : String → Float → Option Beneficiary → Result Verdict
semantic_check user_id amount none = ok (rejected unknown_beneficiary)
semantic_check user_id amount (some b) = compliance user_id amount b

unfoldable pub check_amount : List Beneficiary → String → String → Float → Result Verdict
check_amount rows user_id target_uuid amount =
    if le_float amount zero_float || lt_float (of_ℕ max_amount) amount
    then ok (rejected amount_out_of_bounds)
    else semantic_check user_id amount (get_trusted_beneficiary rows user_id target_uuid)

abbrev pub or_empty : Option String → String
or_empty none = ""
or_empty (some s) = s

abbrev is_in_limit : Result Float → Bool
is_in_limit (ok amount) = not (le_float amount zero_float || lt_float (of_ℕ max_amount) amount)
is_in_limit (err e) = false

-- `parse_float` is Python's `float` on a text, `none` for its `ValueError`.
module _ (parse_float : String → Option Float) where
  -- `float(amount)`
  abbrev pub to_float : AmountValue → Result Float
  to_float missing = err type_error
  to_float (number a) = ok a
  to_float (text s) = elim (parse_float s) [ none ↦ err value_error | some a ↦ ok a ]
  to_float (container b) = err type_error

  -- `except ValueError`
  abbrev pub after_float : List Beneficiary → String → String → Result Float → Result Verdict
  after_float rows user_id target_uuid (ok amount) = check_amount rows user_id target_uuid amount
  after_float rows user_id target_uuid (err value_error) = ok (rejected invalid_amount_format)
  after_float rows user_id target_uuid (err e) = err e

  unfoldable pub validate_transfer_intent : List Beneficiary → String → AiPayload → Result Verdict
  validate_transfer_intent rows user_id ai_payload =
      if not (truthy_target ai_payload.target_beneficiary_id) || not (truthy ai_payload.amount)
      then ok (rejected missing_required_fields)
      else after_float rows user_id (or_empty ai_payload.target_beneficiary_id)
          (to_float ai_payload.amount)

  -- Whether the checks before the `SELECT` pass.
  unfoldable pub reads_table : AiPayload → Bool
  reads_table ai_payload =
      (truthy_target ai_payload.target_beneficiary_id && truthy ai_payload.amount)
      && is_in_limit (to_float ai_payload.amount)
