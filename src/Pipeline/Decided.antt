-- ===== src/Pipeline/Decided.antt =====
-- The four stages of core/app/stages.py in the order in which they need each other.
use sentinelai_v.Prelude.{
  ◌≡◌, refl, sym, ap, subst, ◌∙◌, Bool-cases, inl, inr, String, Option, arith, some, List, [], ◌∷◌,
  ◌++◌, if◌then◌else◌,
}
use sentinelai_v.Prelude.Result.{Result, ok, err, Exception, Result-cases, ok_inj, ◌>>=◌}
use sentinelai_v.Engine.{Decision, allow, deny, abstain, EvaluationResult}
use sentinelai_v.Forensic.{Auditor, audit_event}
use sentinelai_v.Forensic.Order.{recorded, IsSteady, event-recorded}
use sentinelai_v.Pipeline.{
  Context, text, get_or, find_profile, enrich, decision_text, with_result, explain, Stage,
  enrichment, rust_evaluation, explanation, forensic_audit, Imports, event_hash, execute, process,
  audited, is_denied, is_empty,
}

abbrev pub all_stages : List Stage
all_stages = enrichment ∷ rust_evaluation ∷ explanation ∷ forensic_audit ∷ []

-- Explaining touches the reasons alone.
explain-fields :
    (ctx : Context)
    → ((explain ctx).tx_id ≡ ctx.tx_id)
      × ((explain ctx).decision ≡ ctx.decision)
      × ((explain ctx).policy_id ≡ ctx.policy_id)
      × ((explain ctx).errors ≡ ctx.errors)
unfolding explain
explain-fields ctx = elim (Bool-cases (is_denied ctx.decision)) [
  | inl denied ↦ rw denied (refl, refl, refl, refl)
  | inr other ↦ rw other (refl, refl, refl, refl)
]

-- The text that stands for a decision of the engine.
abbrev pub Decides : Decision → Option String → Type 0
Decides allow d = d ≡ some "SUCCESS"
Decides deny d = d ≡ some "DENIED"
Decides abstain d = d ≡ some "DENIED"

text-Decides : (d : Decision) → Decides d (some (decision_text d))
text-Decides allow = refl
text-Decides deny = refl
text-Decides abstain = refl

enrich-fields :
    (ctx enriched : Context)
    → enrich ctx ≡ ok enriched
    → (enriched.tx_id ≡ ctx.tx_id) × (enriched.errors ≡ ctx.errors)
unfolding enrich
enrich-fields ctx enriched took =
    elim (Result-cases (find_profile (get_or "user_tier" (text "unverified") ctx.raw_payload))) [
      | inl (profile, found) ↦
          let same = ok_inj (rw found at took) in
          (ap (λ (x : Context). x.tx_id) (sym same), ap (λ (x : Context). x.errors) (sym same))
      | inr (e, raised) ↦ ground (arith, raised, took)
    ]

module _ (lib : Imports) where
  -- The hash of an audit event with this identifier, decision and policy.
  abbrev pub hash_of : String → Option String → Option String → String
  hash_of tx_id decision policy = lib.sha256 (lib.dumps_event tx_id decision policy)

  -- How a run of the request with this identifier ends, by the answer of the engine.
  abbrev pub EndsAs : String → Auditor → Result EvaluationResult → Result Context × Auditor → Type 0
  EndsAs tx_id a (err e) out = out ≡ (err e, a)
  EndsAs tx_id a (ok res) (err e, b) = ⊥
  EndsAs tx_id a (ok res) (ok final, b) =
      Decides res.decision final.decision
      × (final.policy_id ≡ some res.policy_id)
      × (recorded b ≡ recorded a ++ hash_of tx_id final.decision (some res.policy_id) ∷ [])
      × IsSteady b

  abbrev next_stages : List Stage → Result Context × Auditor → Result Context × Auditor
  next_stages stages out = elim out.0 as (λ _. Result Context × Auditor) [
    | ok next ↦ if is_empty lib next.errors then execute lib stages next out.1 else (ok next, out.1)
    | err e ↦ (err e, out.1)
  ]

  -- A stage that leaves no errors hands on to those after it.
  execute-ok :
      (stage : Stage) (stages : List Stage) (ctx next : Context) (a b : Auditor)
      → process lib stage ctx a ≡ (ok next, b)
      → next.errors ≡ []
      → execute lib (stage ∷ stages) ctx a ≡ execute lib stages next b
  unfolding execute
  execute-ok stage stages ctx next a b h clean = ap (next_stages stages) h ∙ rw clean refl

  execute-err :
      (stage : Stage) (stages : List Stage) (ctx : Context) (a b : Auditor) (e : Exception)
      → process lib stage ctx a ≡ (err e, b)
      → execute lib (stage ∷ stages) ctx a ≡ (err e, b)
  unfolding execute
  execute-err stage stages ctx a b e h = ap (next_stages stages) h

  execute-nil : (ctx : Context) (a : Auditor) → execute lib [] ctx a ≡ (ok ctx, a)
  unfolding execute
  execute-nil ctx a = refl

  -- The last two stages, on a context that carries the engine's answer.
  answered-EndsAs :
      (a : Auditor) (res : EvaluationResult) (ctx : Context)
      → IsSteady a
      → ctx.errors ≡ []
      → EndsAs ctx.tx_id a
          (ok res)
          (execute lib (explanation ∷ forensic_audit ∷ []) (with_result ctx res) a)
  answered-EndsAs a res ctx steady clean =
      let shown = explain (with_result ctx res) in
      let (same_id, decided, named, no_errors) = explain-fields (with_result ctx res) in
      let (taken, steady', now) = event-recorded (event_hash lib shown) a steady in
      let b = (audit_event (event_hash lib shown) a).1 in
      let run : execute lib (explanation ∷ forensic_audit ∷ []) (with_result ctx res) a
          ≡ (ok shown, b) =
        execute-ok explanation (forensic_audit ∷ []) (with_result ctx res) shown a a refl
          (no_errors ∙ clean)
        ∙ execute-ok forensic_audit [] shown shown a b (ap (λ r. audited lib shown (r, b)) taken)
            (no_errors ∙ clean)
        ∙ execute-nil shown b in
      subst (EndsAs ctx.tx_id a (ok res)) (sym run) (
        subst (Decides res.decision) (sym decided) (text-Decides res.decision),
        named,
        now ∙ (λ i. recorded a ++ hash_of (same_id i) shown.decision (named i) ∷ []),
        steady',
      )

  -- From the second stage on.
  engine_ends :
      (ctx : Context) (a : Auditor)
      → IsSteady a
      → ctx.errors ≡ []
      → EndsAs ctx.tx_id a
          (lib.fast_evaluate "transfer_funds" ctx.domain_data)
          (execute lib (rust_evaluation ∷ explanation ∷ forensic_audit ∷ []) ctx a)
  engine_ends ctx a steady clean =
      by_answer (lib.fast_evaluate "transfer_funds" ctx.domain_data) refl
    where
      rest : List Stage
      rest = explanation ∷ forensic_audit ∷ []

      by_answer :
          (r : Result EvaluationResult)
          → lib.fast_evaluate "transfer_funds" ctx.domain_data ≡ r
          → EndsAs ctx.tx_id a r (execute lib (rust_evaluation ∷ rest) ctx a)
      by_answer (ok res) h =
          subst (EndsAs ctx.tx_id a (ok res))
            (sym (
              execute-ok rust_evaluation rest ctx (with_result ctx res) a a
                (ap (λ r. (r >>= (λ x. ok (with_result ctx x)), a)) h) clean))
            (answered-EndsAs a res ctx steady clean)
      by_answer (err e) h =
          execute-err rust_evaluation rest ctx a a e
            (ap (λ r. (r >>= (λ x. ok (with_result ctx x)), a)) h)

  -- The four stages in the order enrichment, evaluation, explanation, audit, which the source
  -- leaves to the caller to assemble, on a request without errors that the enrichment takes, and an
  -- audit buffer below its threshold: if the engine answers, the pipeline ends with SUCCESS for
  -- Allow and DENIED for any other decision, and with the policy that the engine names; the one
  -- event that is added to the audit, last, is the hash of just the request's identifier, that
  -- decision and that policy, and the buffer is again below its threshold. If the engine raises,
  -- the pipeline raises the same, and nothing is audited.
  pub pipeline-EndsAs :
      (ctx enriched : Context) (a : Auditor)
      → IsSteady a
      → enrich ctx ≡ ok enriched
      → ctx.errors ≡ []
      → EndsAs ctx.tx_id a
          (lib.fast_evaluate "transfer_funds" enriched.domain_data)
          (execute lib all_stages ctx a)
  pipeline-EndsAs ctx enriched a steady took no_errors =
      let (same_id, same_errors) = enrich-fields ctx enriched took in
      let clean = same_errors ∙ no_errors in
      rw
        (execute-ok enrichment (rust_evaluation ∷ explanation ∷ forensic_audit ∷ []) ctx enriched a
          a (ap (λ r. (r, a)) took) clean)
        (subst
          (λ id.
            EndsAs id a (lib.fast_evaluate "transfer_funds" enriched.domain_data)
              (execute lib (rust_evaluation ∷ explanation ∷ forensic_audit ∷ []) enriched a))
          same_id (engine_ends enriched a steady clean))
