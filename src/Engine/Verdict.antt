-- ===== src/Engine/Verdict.antt =====
-- What the evaluation of core/sentinel-core/src/engine.rs decides.
use sentinelai_v.Prelude.{
  String, ◌≡◌, refl, sym, ap, ◌∙◌, ◌⊎◌, inl, inr, Bool, true, false, Bool-cases, Option, none, some,
  Option-cases, List, [], ◌∷◌, ◌++◌, map, find?, get_last?, if◌then◌else◌,
}
use mathlib.Core.List.{append-nil, append_assoc}
use sentinelai_v.Engine.{
  PolicyValue, ExecutionMode, enforce, shadow, Decision, allow, deny, abstain, EvaluationTrace,
  EvaluationResult, Policy, ToolEntry, check_condition, Progress, next_state, trace_of, step_policy,
  run_policies, initial, default_deny, get_policies, evaluate,
}

pub mode-cases : (m : ExecutionMode) → (m ≡ enforce) ⊎ (m ≡ shadow)
mode-cases enforce = inl refl
mode-cases shadow = inr refl

abbrev pub has_mode : ExecutionMode → Policy → Bool
has_mode enforce p = elim p.mode [ enforce ↦ true | shadow ↦ false ]
has_mode shadow p = elim p.mode [ enforce ↦ false | shadow ↦ true ]

-- The policies of a mode, in their order.
abbrev pub of_mode : ExecutionMode → List Policy → List Policy
of_mode m [] = []
of_mode m (p ∷ ps) = if has_mode m p then p ∷ of_mode m ps else of_mode m ps

abbrev pub by_last : Option Policy → Decision × String
by_last none = (abstain, "default")
by_last (some p) = (allow, p.id)

abbrev pub by_first : Option Policy → Option Policy → Decision × String
by_first (some p) last = (deny, p.id)
by_first none last = by_last last

module _ (context : List (String × PolicyValue)) where
  abbrev pub matches : Policy → Bool
  matches p = check_condition context p.condition

  -- The decision over the policies of one mode: a denial by the first that matches, or else an approval
  -- in the name of the last, or no decision where there is none.
  abbrev pub verdict : List Policy → Decision × String
  verdict ps = by_first (find? matches ps) (get_last? ps)

  -- The same decision, as the loop arrives at it from a state.
  abbrev continued : List Policy → Decision × String → Decision × String
  continued [] s = s
  continued (p ∷ ps) s = continued ps (next_state (matches p) p.id s)

  continued-deny : (ps : List Policy) (id : String) → continued ps (deny, id) ≡ (deny, id)
  continued-deny [] id = refl
  continued-deny (p ∷ ps) id = continued-deny ps id

  by_first-skip : (p q : Policy) (ps : List Policy) → get_last? (p ∷ q ∷ ps) ≡ get_last? (q ∷ ps)
  by_first-skip p q ps = refl

  continued-allow :
      (ps : List Policy) (p : Policy)
      → continued ps (allow, p.id) ≡ by_first (find? matches ps) (get_last? (p ∷ ps))
  continued-allow [] p = refl
  continued-allow (q ∷ ps) p = elim (Bool-cases (matches q)) [
    | inl hit ↦ rw hit (continued-deny ps q.id)
    | inr miss ↦ rw miss (continued-allow ps q)
  ]

  continued-verdict : (ps : List Policy) → continued ps (abstain, "default") ≡ verdict ps
  continued-verdict [] = refl
  continued-verdict (p ∷ ps) = elim (Bool-cases (matches p)) [
    | inl hit ↦ rw hit (continued-deny ps p.id)
    | inr miss ↦ rw miss (continued-allow ps p)
  ]

  abbrev pub traced : List Policy → List EvaluationTrace
  traced ps = map (λ p. trace_of (matches p) p) ps

  run_policies-continued :
      (ps : List Policy) (g : Progress)
      → run_policies context ps g ≡ record {
        enforce_state = continued (of_mode enforce ps) g.enforce_state;
        shadow_state = continued (of_mode shadow ps) g.shadow_state;
        traces = g.traces ++ traced ps;
      }
  unfolding run_policies
  run_policies-continued [] g = ap (λ t. record g { traces = t }) (sym (append-nil g.traces))
  run_policies-continued (p ∷ ps) g =
      let shown : (g.traces ++ trace_of (matches p) p ∷ []) ++ traced ps
          ≡ g.traces ++ traced (p ∷ ps) =
        append_assoc g.traces (trace_of (matches p) p ∷ []) (traced ps) in
      elim (mode-cases p.mode) [
        | inl enforcing ↦
            run_policies-continued ps (step_policy context p g)
            ∙ rw enforcing (
                ap
                  (λ t. record {
                    enforce_state =
                        continued (of_mode enforce ps)
                          (next_state (matches p) p.id g.enforce_state);
                    shadow_state = continued (of_mode shadow ps) g.shadow_state;
                    traces = t;
                  })
                  (rw enforcing at shown))
        | inr shadowing ↦
            run_policies-continued ps (step_policy context p g)
            ∙ rw shadowing (
                ap
                  (λ t. record {
                    enforce_state = continued (of_mode enforce ps) g.enforce_state;
                    shadow_state =
                        continued (of_mode shadow ps) (next_state (matches p) p.id g.shadow_state);
                    traces = t;
                  })
                  (rw shadowing at shown))
      ]

  -- What a tool with these policies is meant to get: the verdicts of the two modes, and a trace of
  -- every policy.
  abbrev pub judged : String → List Policy → EvaluationResult
  judged version ps = record {
    decision = (verdict (of_mode enforce ps)).0;
    policy_id = (verdict (of_mode enforce ps)).1;
    shadow_decision = (verdict (of_mode shadow ps)).0;
    shadow_policy_id = (verdict (of_mode shadow ps)).1;
    reason = "Tree evaluation complete";
    version = version;
    traces = traced ps;
  }

  abbrev pub judged_if_any : String → Option (List Policy) → EvaluationResult
  judged_if_any version none = default_deny version "No policies found"
  judged_if_any version (some ps) = judged version ps

  -- The decision on a tool that has policies, and the policy it names, are the verdict of the
  -- policies that are enforced, those of the shadow that of the shadow policies, so that neither mode
  -- has a part in the other's decision; and there is a trace of every policy, in their order. A tool
  -- without policies is denied.
  pub evaluate-verdict :
      (by_tool : List ToolEntry) (version tool : String)
      → evaluate by_tool version tool context ≡ judged_if_any version (get_policies tool by_tool)
  unfolding evaluate
  evaluate-verdict by_tool version tool = elim (Option-cases (get_policies tool by_tool)) [
    | inl absent ↦ rw absent refl
    | inr (ps, found) ↦
        rw
          (
            found,
            run_policies-continued ps initial,
            continued-verdict (of_mode enforce ps),
            continued-verdict (of_mode shadow ps),
          )
          refl
  ]

  pub evaluate-absent :
      (by_tool : List ToolEntry) (version tool : String)
      → get_policies tool by_tool ≡ none
      → evaluate by_tool version tool context ≡ default_deny version "No policies found"
  evaluate-absent by_tool version tool absent =
      evaluate-verdict by_tool version tool ∙ ap (judged_if_any version) absent

  pub evaluate-found :
      (by_tool : List ToolEntry) (version tool : String) (ps : List Policy)
      → get_policies tool by_tool ≡ some ps
      → evaluate by_tool version tool context ≡ judged version ps
  evaluate-found by_tool version tool ps found =
      evaluate-verdict by_tool version tool ∙ ap (judged_if_any version) found
