-- ===== src/Enforcer/Rejections.antt =====
-- The refusals of `DeterministicEnforcer`, and what its amount limit misses.
use sentinelai_v.Prelude.{
  String, ◌≡◌, ◌≢◌, refl, Bool, true, false, Option, none, some, List, [], ◌∷◌, eq_iff, arith,
  Bool-cases, Option-cases, ◌||◌, not, ◌⊎◌, find?, inl, inr, Member, DistinctBy, All, All-Member,
}
use sentinelai_v.Prelude.Result.{ok, value_error, err, Result-cases}
use sentinelai_v.Float.{Float, truthy_float, le_float, lt_float, zero_float, of_ℕ}
use sentinelai_v.Database.{Beneficiary}
use sentinelai_v.Enforcer.{
  AiPayload, number, Verdict, approved, rejected, missing_required_fields, unknown_beneficiary,
  amount_out_of_bounds, get_trusted_beneficiary, check_amount, validate_transfer_intent, compliance,
  AmountValue, to_float, text, container, missing, max_amount, truthy, truthy_target, or_empty,
  after_float, invalid_amount_format,
}
use sentinelai_v.Enforcer.Decision.{
  InBounds, tests-InBounds, validate-approved_iff, out_of_bounds_test, trusted-Member,
}
use sentinelai_v.Enforcer.Compliance.{IsCompliant, context_of}

find?-none :
    {A : Type 0} (p : A → Bool) (xs : List A)
    → ((x : A) → Member x xs → p x ≡ false)
    → find? p xs ≡ none
find?-none p [] h = refl
find?-none p (x ∷ xs) h = rw (h x (inl refl)) (find?-none p xs (λ y m. h y (inr m)))

abbrev pub intent : String → Float → AiPayload
intent t a = record { target_beneficiary_id = some t; amount = number a }

module _ (parse_float : String → Option Float) (rows : List Beneficiary) (u t : String)
    (a : Float) where
  -- Whatever amount in bounds is asked for, other than zero, an identifier that is not empty and
  -- not on the user's own whitelist is refused as unknown.
  stranger_rejected :
      t ≢ ""
      → truthy_float a ≡ true
      → InBounds a
      → ((b : Beneficiary) → Member b rows → b.id ≡ t → b.owner_user_id ≡ u → ⊥)
      → validate_transfer_intent parse_float rows u (intent t a) ≡ ok (rejected unknown_beneficiary)
  unfolding validate_transfer_intent check_amount get_trusted_beneficiary
  stranger_rejected nonempty given bounded stranger =
      let nobody : get_trusted_beneficiary rows u t ≡ none =
        find?-none _ rows
          λ b m. ground (arith, stranger b m, eq_iff b.id t, eq_iff b.owner_user_id u) in
      ground (arith, nobody, tests-InBounds a bounded, eq_iff t "")

  -- An amount out of bounds, other than zero, is refused as such for any target that is not empty,
  -- whatever the whitelist holds.
  out_of_bounds_rejected :
      t ≢ ""
      → truthy_float a ≡ true
      → ¬ InBounds a
      → validate_transfer_intent parse_float rows u (intent t a)
        ≡ ok (rejected amount_out_of_bounds)
  unfolding validate_transfer_intent check_amount
  out_of_bounds_rejected nonempty given out = ground (arith, out_of_bounds_test a out, eq_iff t "")

-- `nan` passes the hard limit: where identifiers of rows are unique, every compliant beneficiary
-- of the user, of an identifier that is not empty, gets it approved.
pub nan_approved :
    (parse_float : String → Option Float) (rows : List Beneficiary) (b : Beneficiary)
    → DistinctBy (λ r. r.id) rows
    → Member b rows
    → b.id ≢ ""
    → IsCompliant b
    → validate_transfer_intent parse_float rows b.owner_user_id (intent b.id Float.nan)
      ≡ ok (approved (context_of b.owner_user_id Float.nan b))
unfolding truthy_float
nan_approved parse_float rows b unique m nonempty compliant =
    (validate-approved_iff parse_float rows b.owner_user_id (intent b.id Float.nan)
        (context_of b.owner_user_id Float.nan b) unique).1
      (record {
        beneficiary = b;
        listed = m;
        owned = refl;
        named = refl;
        nonempty = nonempty;
        compliant = compliant;
        amount = Float.nan;
        given = refl;
        reads = refl;
        bounded = tt;
        context = refl;
      })

-- The risk score of the row is there.
abbrev pub HasScore : Beneficiary → Type 0
HasScore b = b.aml_risk_score ≢ none

compliance_total :
    (u : String) (a : Float) (b : Beneficiary)
    → HasScore b
    → (v : Verdict) × (compliance u a b ≡ ok v)
unfolding compliance
compliance_total u a b h = elim (Result-cases (compliance u a b)) [
  | inl done ↦ done
  | inr (e, raised) ↦ absurd (ground arith)
]

check_amount_total :
    (rows : List Beneficiary) (u t : String) (a : Float)
    → All HasScore rows
    → (v : Verdict) × (check_amount rows u t a ≡ ok v)
unfolding check_amount
check_amount_total rows u t a scores = elim (Option-cases (get_trusted_beneficiary rows u t)) [
  | inl unknown ↦ elim (Result-cases (check_amount rows u t a)) [
    | inl done ↦ done
    | inr (e, raised) ↦ absurd (ground arith)
  ]
  | inr (b, found) ↦
      let (v, complies) =
        compliance_total u a b
          (All-Member HasScore b rows scores (trusted-Member rows u t found).0) in
      elim (Bool-cases (le_float a zero_float || lt_float (of_ℕ max_amount) a)) [
        | inl out ↦ (rejected amount_out_of_bounds, rw out)
        | inr inside ↦ (v, rw (inside, found) complies)
      ]
]

-- A given amount that is no container is converted, or raises `ValueError`.
to_float_given :
    (parse_float : String → Option Float) (v : AmountValue)
    → truthy v ≡ true
    → ((full : Bool) → v ≢ container full)
    → ((a : Float) × (to_float parse_float v ≡ ok a)) ⊎ (to_float parse_float v ≡ err value_error)
to_float_given parse_float missing given plain = cc
to_float_given parse_float (number a) given plain = inl (a, refl)
to_float_given parse_float (text s) given plain = elim (Option-cases (parse_float s)) [
  | inl bad ↦ inr (rw (bad, to_float))
  | inr (a, e) ↦ inl (a, rw (e, to_float))
]
to_float_given parse_float (container full) given plain = absurd (plain full refl)

after_float_total :
    (parse_float : String → Option Float) (rows : List Beneficiary) (u t : String) (v : AmountValue)
    → All HasScore rows
    → truthy v ≡ true
    → ((full : Bool) → v ≢ container full)
    → (w : Verdict) × (after_float parse_float rows u t (to_float parse_float v) ≡ ok w)
after_float_total parse_float rows u t v scores given plain =
    elim (to_float_given parse_float v given plain) [
      | inl (a, e) ↦ rw e (check_amount_total rows u t a scores)
      | inr e ↦ (rejected invalid_amount_format, rw e)
    ]

-- Whatever the payload's amount is, if it is not a list or a dict and no row lacks its risk score,
-- validation returns a verdict and raises nothing.
validate_total :
    (parse_float : String → Option Float) (rows : List Beneficiary) (u : String) (p : AiPayload)
    → All HasScore rows
    → ((full : Bool) → p.amount ≢ container full)
    → (v : Verdict) × (validate_transfer_intent parse_float rows u p ≡ ok v)
unfolding validate_transfer_intent
validate_total parse_float rows u p scores plain =
    elim (Bool-cases (not (truthy_target p.target_beneficiary_id) || not (truthy p.amount))) [
      | inl absent ↦ (rejected missing_required_fields, rw absent)
      | inr there ↦ rw there (
          after_float_total parse_float rows u (or_empty p.target_beneficiary_id) p.amount scores
            (ground arith) plain)
    ]
