-- ===== src/Enforcer/Decision.antt =====
-- What `DeterministicEnforcer` lets through.
use sentinelai_v.Prelude.{
  String, ◌≡◌, ◌≢◌, ◌↔◌, refl, true, false, ◌&&◌, ◌||◌, Option, some, List, ◌==◌, eq_iff, arith,
  Option-cases, inl, inr, ◌*◌, Member, DistinctBy, find?-Member, find?-unique, eq_refl,
}
use sentinelai_v.Prelude.Int.{pos, ◌≤ℤ◌, ◌<ℤ◌}
use sentinelai_v.Prelude.Result.{Result, ok, err, Exception}
use sentinelai_v.Float.{Float, zero_float, of_ℕ, lt_float, le_float, unit}
use sentinelai_v.Database.{Beneficiary}
use sentinelai_v.Enforcer.{
  AiPayload, SafeContext, approved, truthy, to_float, max_amount, get_trusted_beneficiary,
  compliance, check_amount, validate_transfer_intent, after_float,
}
use sentinelai_v.Enforcer.Compliance.{
  IsCompliant, context_of, compliance-approved, approved-compliance,
}

abbrev pub InBounds : Float → Type 0
InBounds Float.nan = Unit
InBounds Float.neg_inf = ⊥
InBounds Float.pos_inf = ⊥
InBounds (Float.finite a) = (pos 0 <ℤ a) × (a ≤ℤ pos (max_amount * unit))

InBounds-tests :
    (a : Float) → (le_float a zero_float || lt_float (of_ℕ max_amount) a) ≡ false → InBounds a
unfolding le_float lt_float
InBounds-tests Float.nan h = tt
InBounds-tests Float.neg_inf h = cc
InBounds-tests Float.pos_inf h = cc
InBounds-tests (Float.finite a) h = ground arith

pub tests-InBounds :
    (a : Float) → InBounds a → (le_float a zero_float || lt_float (of_ℕ max_amount) a) ≡ false
unfolding le_float lt_float
tests-InBounds Float.nan h = refl
tests-InBounds Float.neg_inf h = absurd h
tests-InBounds Float.pos_inf h = absurd h
tests-InBounds (Float.finite a) h = ground arith

pub out_of_bounds_test :
    (a : Float) → ¬ InBounds a → (le_float a zero_float || lt_float (of_ℕ max_amount) a) ≡ true
out_of_bounds_test a h = ground (arith, InBounds-tests a)

-- The row that `_get_trusted_beneficiary` finds has the identifier and the owner that are asked for.
pub trusted-Member :
    (rows : List Beneficiary) (u t : String) {b : Beneficiary}
    → get_trusted_beneficiary rows u t ≡ some b
    → Member b rows × (b.id ≡ t) × (b.owner_user_id ≡ u)
unfolding get_trusted_beneficiary
trusted-Member rows u t {b} h =
    let found = find?-Member (λ r. r.id == t && r.owner_user_id == u) rows h in
    (
      found.0,
      ground (arith, found.1, eq_iff b.id t),
      ground (arith, found.1, eq_iff b.owner_user_id u),
    )

pub Member-trusted :
    (rows : List Beneficiary) (b : Beneficiary)
    → DistinctBy (λ r. r.id) rows
    → Member b rows
    → get_trusted_beneficiary rows b.owner_user_id b.id ≡ some b
unfolding get_trusted_beneficiary
Member-trusted rows b unique m =
    find?-unique (λ r. r.id == b.id && r.owner_user_id == b.owner_user_id) (λ r. r.id) rows b unique
      m (ground (arith, eq_refl b.id, eq_refl b.owner_user_id))
      (λ y h. ground (arith, eq_iff y.id b.id))

check_amount-approved :
    (rows : List Beneficiary) (u t : String) (a : Float) (c : SafeContext)
    → check_amount rows u t a ≡ ok (approved c)
    → InBounds a
      × (b : Beneficiary) × (get_trusted_beneficiary rows u t ≡ some b)
      × IsCompliant b
      × (c ≡ context_of u a b)
unfolding check_amount
check_amount-approved rows u t a c h = elim (Option-cases (get_trusted_beneficiary rows u t)) [
  | inl unknown ↦ ground arith
  | inr (b, found) ↦
      let done : compliance u a b ≡ ok (approved c) = ground arith in
      let (compliant, context) = compliance-approved u a b c done in
      (InBounds-tests a (ground arith), b, found, compliant, context)
]

module _ (parse_float : String → Option Float) where
  -- A transfer that the whitelist, the limits and the compliance rules permit.
  pub record IsPermitted (rows : List Beneficiary) (u : String) (p : AiPayload) (c : SafeContext)
      : Type 0 where
    pub beneficiary : Beneficiary
    pub listed : Member beneficiary rows
    pub owned : beneficiary.owner_user_id ≡ u
    pub named : p.target_beneficiary_id ≡ some beneficiary.id
    pub nonempty : beneficiary.id ≢ ""
    pub compliant : IsCompliant beneficiary
    pub amount : Float
    pub given : truthy p.amount ≡ true
    pub reads : to_float parse_float p.amount ≡ ok amount
    pub bounded : InBounds amount
    pub context : c ≡ context_of u amount beneficiary

  after_float-approved :
      (rows : List Beneficiary) (u t : String) (r : Result Float) (c : SafeContext)
      → after_float parse_float rows u t r ≡ ok (approved c)
      → (a : Float) × (r ≡ ok a) × (check_amount rows u t a ≡ ok (approved c))
  after_float-approved rows u t (ok a) c h = (a, refl, h)
  after_float-approved rows u t (err Exception.value_error) c h = cc
  after_float-approved rows u t (err _) c h = cc

  -- An approval passed the first guard and the conversion.
  validate-inversion :
      (rows : List Beneficiary) (u : String) (p : AiPayload) (c : SafeContext)
      → validate_transfer_intent parse_float rows u p ≡ ok (approved c)
      → (t : String) × (p.target_beneficiary_id ≡ some t)
        × (t ≢ "")
        × (truthy p.amount ≡ true)
        × (after_float parse_float rows u t (to_float parse_float p.amount) ≡ ok (approved c))
  unfolding validate_transfer_intent
  validate-inversion rows u p c h = elim (Option-cases p.target_beneficiary_id) [
    | inl absent ↦ ground arith
    | inr (t, e) ↦ (t, e, ground (arith, eq_iff t ""), ground arith, ground (arith, eq_iff t ""))
  ]

  pub approved-IsPermitted :
      (rows : List Beneficiary) (u : String) (p : AiPayload) (c : SafeContext)
      → validate_transfer_intent parse_float rows u p ≡ ok (approved c)
      → IsPermitted rows u p c
  approved-IsPermitted rows u p c h =
      let (t, named, nonempty, given, after) = validate-inversion rows u p c h in
      let (a, reads, checked) = after_float-approved rows u t _ c after in
      let (bounded, b, found, compliant, context) = check_amount-approved rows u t a c checked in
      let (listed, same_id, owned) = trusted-Member rows u t found in
      record {
        beneficiary = b;
        listed = listed;
        owned = owned;
        named = rw same_id named;
        nonempty = rw same_id nonempty;
        compliant = compliant;
        amount = a;
        given = given;
        reads = reads;
        bounded = bounded;
        context = context;
      }

  IsPermitted-approved :
      (rows : List Beneficiary) (u : String) (p : AiPayload) (c : SafeContext)
      → DistinctBy (λ r. r.id) rows
      → IsPermitted rows u p c
      → validate_transfer_intent parse_float rows u p ≡ ok (approved c)
  unfolding validate_transfer_intent check_amount
  IsPermitted-approved rows u p c unique h = ground (
    arith,
    tests-InBounds h.amount h.bounded,
    Member-trusted rows h.beneficiary unique h.listed,
    approved-compliance u h.amount h.beneficiary h.compliant,
    eq_iff h.beneficiary.id "",
  )

  -- Exactly when is an intent approved: the target names a whitelisted beneficiary that the user owns,
  -- that is active, of AML score at most 80 and outside the sanctioned countries, and the amount is
  -- given, reads as a float and is in bounds (which lets `nan` pass). The context handed on is then
  -- the user, the amount, and the IBAN of the whitelist. Identifiers of rows are taken to be
  -- unique, as the primary key makes them.
  pub validate-approved_iff :
      (rows : List Beneficiary) (u : String) (p : AiPayload) (c : SafeContext)
      → DistinctBy (λ r. r.id) rows
      → (validate_transfer_intent parse_float rows u p ≡ ok (approved c)) ↔ IsPermitted rows u p c
  validate-approved_iff rows u p c unique =
      (approved-IsPermitted rows u p c, IsPermitted-approved rows u p c unique)
