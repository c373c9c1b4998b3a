-- ===== src/Enforcer/Compliance.antt =====
-- The compliance rules of security/enforcer.py.
use sentinelai_v.Prelude.{String, ◌≡◌, false, some, arith, Option-cases, inl, inr}
use sentinelai_v.Prelude.Int.{ℤ, pos, ◌≤ℤ◌}
use sentinelai_v.Prelude.Result.{ok}
use sentinelai_v.Float.{Float}
use sentinelai_v.Database.{Beneficiary}
use sentinelai_v.Enforcer.{SafeContext, approved, compliance, is_sanctioned}

-- What the compliance rules ask of a beneficiary.
pub record IsCompliant (b : Beneficiary) : Type 0 where
  pub active : b.is_active ≡ some (pos 1)
  pub score : ℤ
  pub has_score : b.aml_risk_score ≡ some score
  pub low_risk : score ≤ℤ pos 80
  pub allowed_country : is_sanctioned b.country_code ≡ false

-- The only context that the compliance rules hand on for a beneficiary.
abbrev pub context_of : String → Float → Beneficiary → SafeContext
context_of user_id amount b = record {
  user_id = user_id;
  amount = amount;
  target_iban = b.account_iban;
  internal_label = "USER_INITIATED_TRANSFER";
}

pub compliance-approved :
    (u : String) (a : Float) (b : Beneficiary) (c : SafeContext)
    → compliance u a b ≡ ok (approved c)
    → IsCompliant b × (c ≡ context_of u a b)
unfolding compliance
compliance-approved u a b c h = elim (Option-cases b.aml_risk_score) [
  | inl none_score ↦ ground arith
  | inr (s, e) ↦ (
    record {
      active = ground arith;
      score = s;
      has_score = e;
      low_risk = ground arith;
      allowed_country = ground arith;
    },
    ground arith,
  )
]

pub approved-compliance :
    (u : String) (a : Float) (b : Beneficiary)
    → IsCompliant b
    → compliance u a b ≡ ok (approved (context_of u a b))
unfolding compliance
approved-compliance u a b h = ground (arith, h.active, h.has_score, h.low_risk, h.allowed_country)

-- The amounts that the limits let pass: more than zero, at most 50000; and `nan`, for which both
-- comparisons are false.
