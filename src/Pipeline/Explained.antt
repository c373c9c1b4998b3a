-- ===== src/Pipeline/Explained.antt =====
-- What the pipeline of core/app decides and explains when the engine of core/sentinel-core
-- evaluates.
use sentinelai_v.Prelude.{
  String, ◌≡◌, ◌≢◌, ◌↔◌, ◌⊎◌, refl, sym, ap, subst, ◌∙◌, false, Bool-cases, inl, inr, none, some,
  Option, Option-cases, List, [], ◌∷◌, ◌++◌, map, find?, get_last?, All, if◌then◌else◌, eq_iff,
  arith,
}
use mathlib.Core.List.{append-nil}
use mathlib.Core.Option.{some-injective}
use sentinelai_v.Engine.{
  PolicyValue, enforce, Decision, allow, deny, abstain, Policy, ToolEntry, EvaluationResult,
  get_policies, evaluate,
}
use sentinelai_v.Engine.Verdict.{
  matches, verdict, traced, of_mode, mode-cases, by_first, by_last, evaluate-absent, evaluate-found,
}
use sentinelai_v.Pipeline.{
  Context, decision_text, with_result, block_reason, block_reasons, explain,
}

abbrev denied_text : String
denied_text = "DENIED"

unlike : denied_text ≢ "SUCCESS"
unlike e = ground (arith, e, eq_iff denied_text "SUCCESS")

-- What a tool has: nothing where there is no entry for it.
abbrev pub policies_of : Option (List Policy) → List Policy
policies_of none = []
policies_of (some ps) = ps

-- Explaining adds what the traces say, but where the engine allows.
explain-cases :
    (ctx : Context) (res : EvaluationResult)
    → ((res.decision ≡ allow) × ((explain (with_result ctx res)).reasons ≡ ctx.reasons))
      ⊎ ((explain (with_result ctx res)).reasons ≡ ctx.reasons ++ block_reasons res.traces)
unfolding explain
explain-cases ctx res = by_decision res.decision refl
  where
    by_decision :
        (d : Decision)
        → res.decision ≡ d
        → ((res.decision ≡ allow) × ((explain (with_result ctx res)).reasons ≡ ctx.reasons))
          ⊎ ((explain (with_result ctx res)).reasons ≡ ctx.reasons ++ block_reasons res.traces)
    by_decision allow e = inl (e, rw e refl)
    by_decision deny e = inr (rw e refl)
    by_decision abstain e = inr (rw e refl)

last_of : {A : Type 0} (x : A) (xs : List A) → (y : A) × (get_last? (x ∷ xs) ≡ some y)
last_of x [] = (x, refl)
last_of x (y ∷ ys) = last_of y ys

module _ (context : List (String × PolicyValue)) where
  -- The policies that match, in their order.
  abbrev pub matching : List Policy → List Policy
  matching [] = []
  matching (p ∷ ps) = if matches context p then p ∷ matching ps else matching ps

  abbrev pub reasons_for : List Policy → List String
  reasons_for ps = map (λ p. block_reason p.id) (matching (of_mode enforce ps))

  traced-reasons : (ps : List Policy) → block_reasons (traced context ps) ≡ reasons_for ps
  unfolding block_reasons
  traced-reasons [] = refl
  traced-reasons (p ∷ ps) = elim (mode-cases p.mode) [
    | inl enforcing ↦ elim (Bool-cases (matches context p)) [
      | inl hit ↦ rw (enforcing, hit) (ap (λ l. block_reason p.id ∷ l) (traced-reasons ps))
      | inr miss ↦ rw (enforcing, miss) (traced-reasons ps)
    ]
    | inr shadowing ↦ elim (Bool-cases (matches context p)) [
      | inl hit ↦ rw (shadowing, hit) (traced-reasons ps)
      | inr miss ↦ rw (shadowing, miss) (traced-reasons ps)
    ]
  ]

  matching-none : (ps : List Policy) → find? (matches context) ps ≡ none → matching ps ≡ []
  matching-none [] h = refl
  matching-none (p ∷ ps) h = elim (Bool-cases (matches context p)) [
    | inl hit ↦ ground (arith, hit)
    | inr miss ↦ rw miss (matching-none ps (rw miss at h))
  ]

  All-unmatched :
      (ps : List Policy)
      → (find? (matches context) ps ≡ none) ↔ All (λ p. matches context p ≡ false) ps
  All-unmatched [] = ((λ h. tt), (λ h. refl))
  All-unmatched (p ∷ ps) = elim (Bool-cases (matches context p)) [
    | inl hit ↦ ((λ h. ground (arith, hit)), (λ h. ground (arith, hit)))
    | inr miss ↦ (
      (λ h. (miss, (All-unmatched ps).0 (rw miss at h))),
      λ h. rw miss ((All-unmatched ps).1 h.1),
    )
  ]

  -- An approval is the verdict exactly of policies none of which matches, if there is one.
  verdict-allow :
      (ps : List Policy)
      → ((verdict context ps).0 ≡ allow) ↔ ((ps ≢ []) × All (λ p. matches context p ≡ false) ps)
  verdict-allow [] = ((λ h. cc h), (λ h. absurd (h.0 refl)))
  verdict-allow (p ∷ ps) =
      let (q, last) = last_of p ps in
      elim (Option-cases (find? (matches context) (p ∷ ps))) [
        | inl unmatched ↦ (
          (λ h. ((λ e. cc e), (All-unmatched (p ∷ ps)).0 unmatched)),
          λ h.
              ap (λ o. (by_first o (get_last? (p ∷ ps))).0) unmatched
              ∙ ap (λ o. (by_last o).0) last,
        )
        | inr (r, hit) ↦ (
          (λ h.
              let bad : deny ≡ allow =
                sym (ap (λ o. (by_first o (get_last? (p ∷ ps))).0) hit) ∙ h in
              cc bad),
          λ h. (let bad : none ≡ some r = sym ((All-unmatched (p ∷ ps)).1 h.1) ∙ hit in cc bad),
        )
      ]

  decision_text-allow : (d : Decision) → (decision_text d ≡ "SUCCESS") ↔ (d ≡ allow)
  decision_text-allow allow = ((λ h. refl), (λ h. refl))
  decision_text-allow deny = ((λ h. absurd (unlike h)), (λ h. cc h))
  decision_text-allow abstain = ((λ h. absurd (unlike h)), (λ h. cc h))

  module _ (by_tool : List ToolEntry) (version tool : String) where
    abbrev result : EvaluationResult
    result = evaluate by_tool version tool context

    -- The pipeline's decision on what the engine answers is SUCCESS exactly if the tool has
    -- policies, some of them enforced, and no enforced one matches. So it is DENIED for a tool
    -- without policies and for one with shadow policies alone.
    pub success_iff :
        (decision_text (evaluate by_tool version tool context).decision ≡ "SUCCESS") ↔ (
          (ps : List Policy) × (get_policies tool by_tool ≡ some ps)
          × (of_mode enforce ps ≢ [])
          × All (λ p. matches context p ≡ false) (of_mode enforce ps))
    success_iff = elim (Option-cases (get_policies tool by_tool)) [
      | inl absent ↦
          let denied : result.decision ≡ deny =
            ap (λ (r : EvaluationResult). r.decision)
              (evaluate-absent context by_tool version tool absent) in
          (
            (λ h.
                (let bad : deny ≡ allow = sym denied ∙ (decision_text-allow result.decision).0 h in
                  cc bad)),
            λ (ps, found, rest, unmatched).
                (let bad : none ≡ some ps = sym absent ∙ found in cc bad),
          )
      | inr (ps, found) ↦
          let decided : result.decision ≡ (verdict context (of_mode enforce ps)).0 =
            ap (λ (r : EvaluationResult). r.decision)
              (evaluate-found context by_tool version tool ps found) in
          (
            (λ h.
                let (some_enforced, unmatched) =
                  (verdict-allow (of_mode enforce ps)).0
                    (sym decided ∙ (decision_text-allow result.decision).0 h) in
                (ps, found, some_enforced, unmatched)),
            λ (qs, found', some_enforced, unmatched).
                let same : ps ≡ qs = some-injective ps qs (sym found ∙ found') in
                (decision_text-allow result.decision).1 (
                  decided
                  ∙ subst (λ l. (verdict context (of_mode enforce l)).0 ≡ allow) (sym same)
                      ((verdict-allow (of_mode enforce qs)).1 (some_enforced, unmatched))),
          )
    ]

    found_reasons :
        (ctx : Context) (ps : List Policy)
        → get_policies tool by_tool ≡ some ps
        → (explain (with_result ctx result)).reasons ≡ ctx.reasons ++ reasons_for ps
    found_reasons ctx ps found =
        let evaluated = evaluate-found context by_tool version tool ps found in
        elim (explain-cases ctx result) [
          | inr added ↦
              added
              ∙ ap (λ (r : EvaluationResult). ctx.reasons ++ block_reasons r.traces) evaluated
              ∙ ap (λ l. ctx.reasons ++ l) (traced-reasons ps)
          | inl (allowed, unchanged) ↦
              let approved : (verdict context (of_mode enforce ps)).0 ≡ allow =
                sym (ap (λ (r : EvaluationResult). r.decision) evaluated) ∙ allowed in
              let unmatched =
                (All-unmatched (of_mode enforce ps)).1
                  ((verdict-allow (of_mode enforce ps)).0 approved).1 in
              unchanged
              ∙ sym (append-nil ctx.reasons)
              ∙ ap (λ l. ctx.reasons ++ map (λ (p : Policy). block_reason p.id) l)
                  (sym (matching-none (of_mode enforce ps) unmatched))
        ]

    absent_reasons :
        (ctx : Context)
        → get_policies tool by_tool ≡ none
        → (explain (with_result ctx result)).reasons ≡ ctx.reasons
    unfolding block_reasons
    absent_reasons ctx absent = elim (explain-cases ctx result) [
      | inl (allowed, unchanged) ↦ unchanged
      | inr added ↦
          added
          ∙ ap (λ (r : EvaluationResult). ctx.reasons ++ block_reasons r.traces)
              (evaluate-absent context by_tool version tool absent)
          ∙ append-nil ctx.reasons
    ]

    -- The reasons that a request gets, denied or not, are those that it had and one for each
    -- enforced policy of its tool that matches, in the order of the policies. So a denial gives no
    -- reason of its own where the tool has no policies, or none that is enforced.
    pub explain-reasons :
        (ctx : Context)
        → (explain (with_result ctx (evaluate by_tool version tool context))).reasons
          ≡ ctx.reasons ++ reasons_for (policies_of (get_policies tool by_tool))
    explain-reasons ctx = elim (Option-cases (get_policies tool by_tool)) [
      | inl absent ↦ rw absent (absent_reasons ctx absent ∙ sym (append-nil ctx.reasons))
      | inr (ps, found) ↦ rw found (found_reasons ctx ps found)
    ]
