-- ===== src/Control/Tools.antt =====
-- The loop of main.py over the tool calls of a request.
use sentinelai_v.Prelude.{
  String, ◌≡◌, ◌⊎◌, refl, sym, ap, ◌∙◌, true, false, Bool-cases, inl, inr, Option, List, [], ◌∷◌,
  ◌++◌, All,
}
use sentinelai_v.Prelude.Result.{ok, err, Exception, Result-cases}
use sentinelai_v.Control.{
  ToolCall, AgentIdentity, AuthStatus, Firewall, Response, forbidden, server_error, success,
  is_denied, check_tools,
}

-- The agent that every valid token stands for.
abbrev pub bot : AgentIdentity
bot = record { id = "bot_01"; permissions = "read_balance" ∷ "transfer_funds" ∷ [] }

forbidden_reason : {r r' : Option String} {n n' : String} → forbidden r n ≡ forbidden r' n' → r ≡ r'
forbidden_reason h = cc

forbidden_name : {r r' : Option String} {n n' : String} → forbidden r n ≡ forbidden r' n' → n ≡ n'
forbidden_name h = cc

module _ {Arguments : Type 0} (validate_action : Firewall Arguments) where
  -- The firewall answers, and not with DENIED.
  abbrev pub Permits : ToolCall Arguments → Type 0
  Permits tool = (s : AuthStatus) × (validate_action tool ≡ ok s) × (is_denied s.decision ≡ false)

  -- The firewall answers DENIED, with this reason.
  abbrev pub Denies : ToolCall Arguments → Option String → Type 0
  Denies tool reason =
      (s : AuthStatus) × (validate_action tool ≡ ok s)
      × (is_denied s.decision ≡ true)
      × (s.reason ≡ reason)

  -- The tool calls before one that is denied.
  abbrev pub DeniedAt : List (ToolCall Arguments) → Option String → String → Type 0
  DeniedAt tools reason name =
      (before : List (ToolCall Arguments)) × (tool : ToolCall Arguments) × (after : List
        (ToolCall Arguments))
      × (tools ≡ before ++ tool ∷ after)
      × All Permits before
      × Denies tool reason
      × (tool.name ≡ name)

  permitted_goes_on :
      (tool : ToolCall Arguments) (rest : List (ToolCall Arguments)) (done : Response)
      → Permits tool
      → check_tools validate_action (tool ∷ rest) done ≡ check_tools validate_action rest done
  unfolding check_tools
  permitted_goes_on tool rest done (s, answer, passes) = rw (answer, passes) refl

  denied_stops :
      (tool : ToolCall Arguments) (rest : List (ToolCall Arguments)) (done : Response)
      (reason : Option String)
      → Denies tool reason
      → check_tools validate_action (tool ∷ rest) done ≡ forbidden reason tool.name
  unfolding check_tools
  denied_stops tool rest done reason (s, answer, denied, why) =
      rw (answer, denied) (ap (λ r. forbidden r tool.name) why)

  raised_stops :
      (tool : ToolCall Arguments) (rest : List (ToolCall Arguments)) (done : Response)
      (e : Exception)
      → validate_action tool ≡ err e
      → check_tools validate_action (tool ∷ rest) done ≡ server_error e
  unfolding check_tools
  raised_stops tool rest done e answer = rw answer refl

  answer-cases :
      (tool : ToolCall Arguments)
      → Permits tool
        ⊎ (((reason : Option String) × Denies tool reason)
            ⊎ ((e : Exception) × (validate_action tool ≡ err e)))
  answer-cases tool = elim (Result-cases (validate_action tool)) [
    | inr raised ↦ inr (inr raised)
    | inl (s, answer) ↦ elim (Bool-cases (is_denied s.decision)) [
      | inl denied ↦ inr (inl (s.reason, (s, answer, denied, refl)))
      | inr passes ↦ inl (s, answer, passes)
    ]
  ]

  pub all_permitted :
      (tools : List (ToolCall Arguments)) (done : Response)
      → All Permits tools
      → check_tools validate_action tools done ≡ done
  unfolding check_tools
  all_permitted [] done h = refl
  all_permitted (tool ∷ rest) done (h, hs) =
      permitted_goes_on tool rest done h ∙ all_permitted rest done hs

  pub first_denied :
      (before : List (ToolCall Arguments)) (tool : ToolCall Arguments)
      (after : List (ToolCall Arguments)) (done : Response) (reason : Option String)
      → All Permits before
      → Denies tool reason
      → check_tools validate_action (before ++ tool ∷ after) done ≡ forbidden reason tool.name
  first_denied [] tool after done reason h denied = denied_stops tool after done reason denied
  first_denied (t ∷ before) tool after done reason (h, hs) denied =
      permitted_goes_on t (before ++ tool ∷ after) done h
      ∙ first_denied before tool after done reason hs denied

  pub success-permitted :
      (tools : List (ToolCall Arguments)) (done : Response) (content : String) (names : List String)
      → check_tools validate_action tools done ≡ success content names
      → All Permits tools × (done ≡ success content names)
  unfolding check_tools
  success-permitted [] done content names h = (tt, h)
  success-permitted (tool ∷ rest) done content names h = elim (answer-cases tool) [
    | inl permitted ↦
        let later =
          success-permitted rest done content names
            (sym (permitted_goes_on tool rest done permitted) ∙ h) in
        ((permitted, later.0), later.1)
    | inr (inl (reason, denied)) ↦
        let bad = sym (denied_stops tool rest done reason denied) ∙ h in cc bad
    | inr (inr (e, raised)) ↦ let bad = sym (raised_stops tool rest done e raised) ∙ h in cc bad
  ]

  pub forbidden-denied :
      (tools : List (ToolCall Arguments)) (content : String) (names : List String)
      (reason : Option String) (name : String)
      → check_tools validate_action tools (success content names) ≡ forbidden reason name
      → DeniedAt tools reason name
  unfolding check_tools
  forbidden-denied [] content names reason name h = cc h
  forbidden-denied (tool ∷ rest) content names reason name h = elim (answer-cases tool) [
    | inl permitted ↦
        let (before, t, after, split, passed, denied, named) =
          forbidden-denied rest content names reason name
            (sym (permitted_goes_on tool rest (success content names) permitted) ∙ h) in
        (tool ∷ before, t, after, ap (λ l. tool ∷ l) split, (permitted, passed), denied, named)
    | inr (inl (why, (s, answer, denied, given))) ↦
        let same : forbidden why tool.name ≡ forbidden reason name =
          sym (denied_stops tool rest (success content names) why (s, answer, denied, given)) ∙ h in
        (
          [],
          tool,
          rest,
          refl,
          tt,
          (s, answer, denied, given ∙ forbidden_reason same),
          forbidden_name same,
        )
    | inr (inr (e, raised)) ↦
        let bad = sym (raised_stops tool rest (success content names) e raised) ∙ h in cc bad
  ]
