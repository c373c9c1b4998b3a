-- ===== src/Control/Answers.antt =====
-- When the control plane authorizes the tool calls of an agent, and what it refuses.
use sentinelai_v.Prelude.{
  String, ◌≡◌, ◌↔◌, ◌⊎◌, refl, sym, ap, ◌∙◌, false, Bool-cases, inl, inr, Option, none, List, map,
  All, ◌==◌, eq_iff,
}
use sentinelai_v.Prelude.Result.{Result, ok, err, Exception, Result-cases, ok_inj}
use sentinelai_v.Control.{
  Function, Cache, run_task_async, AgentRequest, AgentIdentity, get_current_agent, Firewall,
  with_firewall, server_error, Response, invalid_token, shield_failure, forbidden, success,
  check_tools, after_shield, for_agent, handle_agent_request,
}
use sentinelai_v.Control.Tools.{
  bot, Permits, DeniedAt, all_permitted, first_denied, success-permitted, forbidden-denied,
}

success_content : {c c' : String} {n n' : List String} → success c n ≡ success c' n' → c ≡ c'
success_content h = cc

success_names : {c c' : String} {n n' : List String} → success c n ≡ success c' n' → n ≡ n'
success_names h = cc

wrong_token :
    (token : String) → (token == "valid_secret_token") ≡ false → get_current_agent token ≡ none
unfolding get_current_agent
wrong_token token wrong = rw wrong refl

module _ {Arguments : Type 0} (action_firewall : AgentIdentity → Result (Firewall Arguments))
    (import : String → String → Result Function) (payload : AgentRequest Arguments)
    (cache : Cache) where
  -- What the shield makes of the prompt.
  abbrev pub shielded : Result String
  shielded = (run_task_async import "security.pii_scrub" "scrub_pii" payload.prompt cache).0

  abbrev pub answer_to : String → Response
  answer_to token = (handle_agent_request action_firewall import token payload cache).0

  abbrev pub checked_tools : String → Response
  checked_tools content = with_firewall (action_firewall bot) payload content

  valid_answer :
      (x : Result String × Cache)
      → x ≡ run_task_async import "security.pii_scrub" "scrub_pii" payload.prompt cache
      → answer_to "valid_secret_token" ≡ (after_shield action_firewall bot payload x).0
  unfolding handle_agent_request get_current_agent
  valid_answer x e = ap (λ y. (after_shield action_firewall bot payload y).0) (sym e)

  shielded_answer :
      (content : String)
      → shielded ≡ ok content
      → answer_to "valid_secret_token" ≡ checked_tools content
  shielded_answer content h = by_shield _ refl h
    where
      by_shield :
          (x : Result String × Cache)
          → x ≡ run_task_async import "security.pii_scrub" "scrub_pii" payload.prompt cache
          → x.0 ≡ ok content
          → answer_to "valid_secret_token" ≡ checked_tools content
      by_shield (ok c, k) e h = valid_answer (ok c, k) e ∙ ap checked_tools (ok_inj h)
      by_shield (err x, k) e h = cc h

  failed_answer :
      (x : Exception) → shielded ≡ err x → answer_to "valid_secret_token" ≡ shield_failure
  failed_answer x h = by_shield _ refl h
    where
      by_shield :
          (y : Result String × Cache)
          → y ≡ run_task_async import "security.pii_scrub" "scrub_pii" payload.prompt cache
          → y.0 ≡ err x
          → answer_to "valid_secret_token" ≡ shield_failure
      by_shield (ok c, k) e h = cc h
      by_shield (err z, k) e h = valid_answer (err z, k) e

  made_answer :
      (content : String) (validate_action : Firewall Arguments)
      → shielded ≡ ok content
      → action_firewall bot ≡ ok validate_action
      → answer_to "valid_secret_token"
        ≡ check_tools validate_action payload.tool_calls
            (success content (map (λ t. t.name) payload.tool_calls))
  made_answer content validate_action h made =
      shielded_answer content h ∙ ap (λ f. with_firewall f payload content) made

  -- Past the token, the shield and the making of the firewall.
  abbrev IsChecked : String → Response → Type 0
  IsChecked token r =
      (token ≡ "valid_secret_token")
      × ((content : String) × (validate_action : Firewall Arguments) × (shielded ≡ ok content)
          × (action_firewall bot ≡ ok validate_action)
          × (r
              ≡ check_tools validate_action payload.tool_calls
                  (success content (map (λ t. t.name) payload.tool_calls))))

  answer-cases_of :
      (token : String)
      → (answer_to token ≡ invalid_token)
        ⊎ ((answer_to token ≡ shield_failure)
            ⊎ (((e : Exception) × (answer_to token ≡ server_error e))
                ⊎ IsChecked token (answer_to token)))
  unfolding handle_agent_request
  answer-cases_of token = elim (Bool-cases (token == "valid_secret_token")) [
    | inr wrong ↦
        inl
          (ap (λ a. (for_agent action_firewall import a payload cache).0) (wrong_token token wrong))
    | inl valid ↦
        let same = (eq_iff token "valid_secret_token").0 valid in
        elim (Result-cases shielded) [
          | inl (content, h) ↦ elim (Result-cases (action_firewall bot)) [
            | inl (validate_action, made) ↦ inr (
                inr (
                  inr (
                    same,
                    (
                      content,
                      validate_action,
                      h,
                      made,
                      ap answer_to same ∙ made_answer content validate_action h made,
                    ),
                  )))
            | inr (e, raised) ↦ inr (
                inr (
                  inl (
                    e,
                    ap answer_to same
                        ∙ shielded_answer content h
                        ∙ ap (λ f. with_firewall f payload content) raised,
                  )))
          ]
          | inr (x, h) ↦ inr (inl (ap answer_to same ∙ failed_answer x h))
        ]
  ]

  -- A firewall has been made that permits all tool calls.
  abbrev pub AllPermitted : Type 0
  AllPermitted =
      (validate_action : Firewall Arguments) × (action_firewall bot ≡ ok validate_action)
      × All (Permits validate_action) payload.tool_calls

  -- A firewall has been made, and this is the first tool call that it does not permit.
  abbrev pub FirstDenied : Option String → String → Type 0
  FirstDenied reason name =
      (validate_action : Firewall Arguments) × (action_firewall bot ≡ ok validate_action)
      × DeniedAt validate_action payload.tool_calls reason name

  -- A request is answered SUCCESS exactly if its token is the valid one, the shield returns the
  -- content of the answer, the firewall can be made, denies none of the tool calls and raises on
  -- none, and the answer names all of them in their order.
  pub success_iff_permitted :
      (token content : String) (names : List String)
      → (answer_to token ≡ success content names) ↔ (
          (token ≡ "valid_secret_token")
          × (shielded ≡ ok content)
          × AllPermitted
          × (map (λ t. t.name) payload.tool_calls ≡ names))
  success_iff_permitted token content names = (forth, back)
    where
      forth :
          answer_to token ≡ success content names
          → (token ≡ "valid_secret_token")
            × (shielded ≡ ok content)
            × AllPermitted
            × (map (λ t. t.name) payload.tool_calls ≡ names)
      forth h = elim (answer-cases_of token) [
        | inl bad ↦ let b = sym bad ∙ h in cc b
        | inr (inl bad) ↦ let b = sym bad ∙ h in cc b
        | inr (inr (inl (e, bad))) ↦ let b = sym bad ∙ h in cc b
        | inr (inr (inr (same, (c, validate_action, shield, made, past)))) ↦
            let (permitted, done) =
              success-permitted validate_action payload.tool_calls _ content names (sym past ∙ h) in
            (
              same,
              shield ∙ ap ok (success_content done),
              (validate_action, made, permitted),
              success_names done,
            )
      ]

      back :
          (token ≡ "valid_secret_token")
            × (shielded ≡ ok content)
            × AllPermitted
            × (map (λ t. t.name) payload.tool_calls ≡ names)
          → answer_to token ≡ success content names
      back (same, shield, (validate_action, made, permitted), named) =
          ap answer_to same
          ∙ made_answer content validate_action shield made
          ∙ all_permitted validate_action payload.tool_calls _ permitted
          ∙ ap (success content) named

  -- A request is answered 403 exactly if its token is the valid one, the shield returns, the
  -- firewall can be made, and the answer names the first tool call that it denies, with its reason,
  -- before which it raises on none.
  pub forbidden_iff_denied :
      (token : String) (reason : Option String) (name : String)
      → (answer_to token ≡ forbidden reason name) ↔ (
          (token ≡ "valid_secret_token")
          × ((content : String) × (shielded ≡ ok content))
          × FirstDenied reason name)
  forbidden_iff_denied token reason name = (forth, back)
    where
      forth :
          answer_to token ≡ forbidden reason name
          → (token ≡ "valid_secret_token")
            × ((content : String) × (shielded ≡ ok content))
            × FirstDenied reason name
      forth h = elim (answer-cases_of token) [
        | inl bad ↦ let b = sym bad ∙ h in cc b
        | inr (inl bad) ↦ let b = sym bad ∙ h in cc b
        | inr (inr (inl (e, bad))) ↦ let b = sym bad ∙ h in cc b
        | inr (inr (inr (same, (c, validate_action, shield, made, past)))) ↦ (
          same,
          (c, shield),
          (
            validate_action,
            made,
            forbidden-denied validate_action payload.tool_calls c _ reason name (sym past ∙ h),
          ),
        )
      ]

      back :
          (token ≡ "valid_secret_token")
            × ((content : String) × (shielded ≡ ok content))
            × FirstDenied reason name
          → answer_to token ≡ forbidden reason name
      back (same, (c, shield), (validate_action, made, denied)) =
          let (before, tool, after, split, permitted, stopped, named) = denied in
          ap answer_to same
          ∙ made_answer c validate_action shield made
          ∙ ap
              (λ l.
                check_tools validate_action l (success c (map (λ t. t.name) payload.tool_calls)))
              split
          ∙ first_denied validate_action before tool after _ reason permitted stopped
          ∙ ap (forbidden reason) named

  -- Both answers of the firewall: a request is answered SUCCESS exactly if its token is the valid one,
  -- the shield returns the content of the answer, the firewall can be made, denies none of the tool
  -- calls and raises on none, and the answer names all of them in their order; and 403 exactly if
  -- token, shield and firewall are as before, and the answer names the first tool call that is
  -- denied, with its reason, before which the firewall raises on none.
  pub answers_iff :
      (token content name : String) (names : List String) (reason : Option String)
      → ((answer_to token ≡ success content names) ↔ (
          (token ≡ "valid_secret_token")
          × (shielded ≡ ok content)
          × AllPermitted
          × (map (λ t. t.name) payload.tool_calls ≡ names)))
        × ((answer_to token ≡ forbidden reason name) ↔ (
            (token ≡ "valid_secret_token")
            × ((shown : String) × (shielded ≡ ok shown))
            × FirstDenied reason name))
  answers_iff token content name names reason =
      (success_iff_permitted token content names, forbidden_iff_denied token reason name)
