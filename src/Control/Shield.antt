-- ===== src/Control/Shield.antt =====
-- What the control plane's shield, a cached import of scrub_pii.py, does to a prompt.
use sentinelai_v.Prelude.{
  String, ◌≡◌, refl, sym, ap, ◌∙◌, false, Bool, Bool-cases, Option-cases, inl, inr, none, some,
  List, [], ◌∷◌, map, All, ◌==◌, Option,
}
use sentinelai_v.Prelude.Result.{Result, ok, err, ◌>>=◌}
use sentinelai_v.Control.{
  compiled_patterns, redaction, mask, scrub_pii, Function, Cache, cached, cache_key, call_imported,
  run_task_async, AgentRequest, AgentIdentity, Firewall, Response, success, after_shield,
  get_current_agent, for_agent, handle_agent_request,
}
use sentinelai_v.Control.Answers.{success_iff_permitted, AllPermitted}

some_inj : {f g : Function} → Path (Option Function) (some f) (some g) → f ≡ g
some_inj h = cc

module _ (import : String → String → Result Function) where
  abbrev scrubber : Result Function
  scrubber = import "security.pii_scrub" "scrub_pii"

  abbrev scrubber_key : String
  scrubber_key = cache_key "security.pii_scrub" "scrub_pii"

  -- The cache holds nothing else for the shield than what the import gives.
  abbrev IsCurrent : Cache → Type 0
  IsCurrent cache = (f : Function) → cached scrubber_key cache ≡ some f → scrubber ≡ ok f

  nothing_cached : IsCurrent []
  unfolding cached
  nothing_cached f h = cc h

  abbrev run : String → Cache → Result String × Cache
  run = run_task_async import "security.pii_scrub" "scrub_pii"

  run-cases :
      (prompt : String) (cache : Cache)
      → IsCurrent cache
      → ((run prompt cache).0 ≡ (scrubber >>= λ f. f prompt)) × IsCurrent (run prompt cache).1
  unfolding run_task_async cached
  run-cases prompt cache current = elim (Option-cases (cached scrubber_key cache)) [
    | inr (f, held) ↦
        rw held (ap (λ (r : Result Function). r >>= λ g. g prompt) (sym (current f held)), current)
    | inl absent ↦ rw absent (by_import scrubber refl)
  ]
    where
      first : (f : Function) → cached scrubber_key ((scrubber_key, f) ∷ cache) ≡ some f
      first f = refl

      by_import :
          (r : Result Function)
          → r ≡ scrubber
          → let x = call_imported import r scrubber_key prompt cache in
            (x.0 ≡ (r >>= λ f. f prompt)) × IsCurrent x.1
      by_import (err e) h = (refl, current)
      by_import (ok f) h = (refl, λ g held. sym h ∙ ap ok (some_inj (sym (first f) ∙ held)))

  module _ {Arguments : Type 0}
      (action_firewall : AgentIdentity → Result (Firewall Arguments)) where
    -- A token and a body.
    abbrev pub Call : Type 0
    Call = String × AgentRequest Arguments

    -- The answers to requests, one after another, with the cache of the process.
    unfoldable pub answers : List Call → Cache → List Response
    answers [] cache = []
    answers ((token, payload) ∷ rest) cache =
        let (response, next) = handle_agent_request action_firewall import token payload cache in
        response ∷ answers rest next

    same_answer :
        (token : String) (payload : AgentRequest Arguments) (cache : Cache)
        → IsCurrent cache
        → let x = handle_agent_request action_firewall import token payload cache in
          (x.0 ≡ (handle_agent_request action_firewall import token payload []).0) × IsCurrent x.1
    unfolding handle_agent_request
    same_answer token payload cache current = by_agent (get_current_agent token)
      where
        by_shield :
            (agent : AgentIdentity) (x y : Result String × Cache)
            → x.0 ≡ y.0
            → IsCurrent x.1
            → ((after_shield action_firewall agent payload x).0
                ≡ (after_shield action_firewall agent payload y).0)
              × IsCurrent (after_shield action_firewall agent payload x).1
        by_shield agent (ok s, c) (ok t, d) same good =
            (ap (λ r. (after_shield action_firewall agent payload (r, c)).0) same, good)
        by_shield agent (ok s, c) (err e, d) same good = cc same
        by_shield agent (err e, c) (ok t, d) same good = cc same
        by_shield agent (err e, c) (err e', d) same good = (refl, good)

        by_agent :
            (a : Option AgentIdentity)
            → let x = for_agent action_firewall import a payload cache in
              (x.0 ≡ (for_agent action_firewall import a payload []).0) × IsCurrent x.1
        by_agent none = (refl, current)
        by_agent (some agent) =
            let here = run-cases payload.prompt cache current in
            let there = run-cases payload.prompt [] nothing_cached in
            by_shield agent (run payload.prompt cache) (run payload.prompt [])
              (here.0 ∙ sym there.0) here.1

    answers_current :
        (calls : List Call) (cache : Cache)
        → IsCurrent cache
        → answers calls cache
          ≡ map
              (λ (token, payload). (handle_agent_request action_firewall import token payload []).0)
              calls
    unfolding answers
    answers_current [] cache current = refl
    answers_current ((token, payload) ∷ rest) cache current =
        let x = handle_agent_request action_firewall import token payload cache in
        let (same, next) = same_answer token payload cache current in
        ap (λ r. r ∷ answers rest x.1) same
        ∙ ap (λ rs. (handle_agent_request action_firewall import token payload []).0 ∷ rs)
            (answers_current rest x.1 next)

    -- The cache cannot be seen: every request of a process gets the answer that it would get first, with
    -- nothing imported yet, if importing a function gives the same each time.
    pub answers_uncached :
        (calls : List Call)
        → answers calls []
          ≡ map
              (λ (token, payload). (handle_agent_request action_firewall import token payload []).0)
              calls
    answers_uncached calls = answers_current calls [] nothing_cached

module _ (sub : String → String → String → String) (found : String → String → Bool)
    (unchanged : (pattern replacement text_ : String)
      → found pattern text_ ≡ false
      → sub pattern replacement text_ ≡ text_) where
  -- None of these patterns is found.
  abbrev pub Lacks : List (String × String) → String → Type 0
  Lacks patterns prompt = All (λ (label, pattern). found pattern prompt ≡ false) patterns

  mask_plain :
      (patterns : List (String × String)) (prompt : String)
      → Lacks patterns prompt
      → mask sub patterns prompt ≡ prompt
  unfolding mask
  mask_plain [] prompt h = refl
  mask_plain ((label, pattern) ∷ rest) prompt (h, hs) =
      ap (mask sub rest) (unchanged pattern (redaction label) prompt h) ∙ mask_plain rest prompt hs

  scrub_plain : (prompt : String) → Lacks compiled_patterns prompt → scrub_pii sub prompt ≡ prompt
  unfolding scrub_pii
  scrub_plain prompt h = elim (Bool-cases (prompt == "")) [
    | inl empty ↦ rw empty refl
    | inr nonempty ↦ rw nonempty (mask_plain compiled_patterns prompt h)
  ]

  module _ {Arguments : Type 0} (action_firewall : AgentIdentity → Result (Firewall Arguments))
      (import : String → String → Result Function) (payload : AgentRequest Arguments) where
    -- A request with the valid token, a prompt in which none of the patterns is found and tool calls all
    -- of which the firewall, which can be made, permits is answered SUCCESS with the prompt as it was sent, if the
    -- imported function is `scrub_pii` and `sub` leaves a text without a match as it is.
    pub plain_prompt_returned :
        import "security.pii_scrub" "scrub_pii" ≡ ok (λ t. ok (scrub_pii sub t))
        → Lacks compiled_patterns payload.prompt
        → AllPermitted action_firewall import payload []
        → (handle_agent_request action_firewall import "valid_secret_token" payload []).0
          ≡ success payload.prompt (map (λ t. t.name) payload.tool_calls)
    plain_prompt_returned imported plain permitted =
        (success_iff_permitted action_firewall import payload [] "valid_secret_token" payload.prompt
            _).1
          (refl, shield, permitted, refl)
      where
        shield :
            (run_task_async import "security.pii_scrub" "scrub_pii" payload.prompt []).0
            ≡ ok payload.prompt
        shield =
            (run-cases import payload.prompt [] (nothing_cached import)).0
            ∙ ap (λ (r : Result Function). r >>= λ f. f payload.prompt) imported
            ∙ ap ok (scrub_plain payload.prompt plain)
