-- ===== src/Enforcer/Tests.antt =====
-- Tests of the enforcer on the seeded whitelist.
use sentinelai_v.Prelude.{
  String, ◌≡◌, ◌≢◌, refl, Option, none, some, List, [], ◌∷◌, arith, eq_iff, inl, inr, DistinctBy,
  ◌↔◌, Member,
}
use sentinelai_v.Prelude.Int.{pos}
use sentinelai_v.Prelude.Result.{ok}
use sentinelai_v.Float.{Float, of_ℕ, unit, lt_float, le_float, truthy_float}
use sentinelai_v.Database.{Beneficiary, seed_beneficiary}
use sentinelai_v.Enforcer.{
  AiPayload, approved, rejected, text, amount_out_of_bounds, missing_required_fields,
  invalid_amount_format, validate_transfer_intent, compliance, check_amount,
  get_trusted_beneficiary,
}
use sentinelai_v.Enforcer.Decision.{IsPermitted, validate-approved_iff}
use sentinelai_v.Enforcer.Compliance.{IsCompliant, context_of}
use sentinelai_v.Enforcer.Rejections.{intent, nan_approved}

abbrev no_parse : String → Option Float
no_parse s = none

abbrev rows : List Beneficiary
rows = seed_beneficiary ∷ []

abbrev uuid : String
uuid = "1111-2222-3333-4444"

in_limit :
    validate_transfer_intent no_parse rows "ADMIN" (intent uuid (of_ℕ 50000))
    ≡ ok (approved (context_of "ADMIN" (of_ℕ 50000) seed_beneficiary))
unfolding validate_transfer_intent compliance check_amount get_trusted_beneficiary le_float lt_float
    truthy_float unit
in_limit = refl

over_limit :
    validate_transfer_intent no_parse rows "ADMIN" (intent uuid (of_ℕ 50001))
    ≡ ok (rejected amount_out_of_bounds)
unfolding validate_transfer_intent compliance check_amount get_trusted_beneficiary le_float lt_float
    truthy_float unit
over_limit = refl

zero_amount :
    validate_transfer_intent no_parse rows "ADMIN" (intent uuid (of_ℕ 0))
    ≡ ok (rejected missing_required_fields)
unfolding validate_transfer_intent compliance check_amount get_trusted_beneficiary le_float lt_float
    truthy_float unit
zero_amount = refl

bad_text :
    validate_transfer_intent no_parse rows "ADMIN"
      (record { target_beneficiary_id = some uuid; amount = text "ten" })
    ≡ ok (rejected invalid_amount_format)
unfolding validate_transfer_intent
bad_text = refl

seed-IsCompliant : IsCompliant seed_beneficiary
seed-IsCompliant = record {
  active = refl;
  score = pos 10;
  has_score = refl;
  low_risk = omega arith;
  allowed_country = refl;
}

uuid_nonempty : uuid ≢ ""
uuid_nonempty = ground (arith, eq_iff uuid "")

seed_unique : DistinctBy {A = Beneficiary} (λ r. r.id) rows
seed_unique = (tt, tt)

validate-approved_iff_example :
    (validate_transfer_intent no_parse rows "ADMIN" (intent uuid (of_ℕ 50000))
      ≡ ok (approved (context_of "ADMIN" (of_ℕ 50000) seed_beneficiary)))
    ↔ IsPermitted no_parse rows "ADMIN"
        (intent uuid (of_ℕ 50000))
        (context_of "ADMIN" (of_ℕ 50000) seed_beneficiary)
validate-approved_iff_example =
    validate-approved_iff no_parse rows "ADMIN" (intent uuid (of_ℕ 50000))
      (context_of "ADMIN" (of_ℕ 50000) seed_beneficiary) seed_unique

admin_only : (b : Beneficiary) → Member b rows → b.id ≡ uuid → b.owner_user_id ≡ "USER" → ⊥
admin_only b (inl e) same owner = ground (arith, eq_iff "ADMIN" "USER")
admin_only b (inr m) same owner = m

nan_approved_example :
    validate_transfer_intent no_parse rows "ADMIN" (intent uuid Float.nan)
    ≡ ok (approved (context_of "ADMIN" Float.nan seed_beneficiary))
nan_approved_example =
    nan_approved no_parse rows seed_beneficiary seed_unique (inl refl) uuid_nonempty
      seed-IsCompliant

text_payload : AiPayload
text_payload = record { target_beneficiary_id = some uuid; amount = text "ten" }
