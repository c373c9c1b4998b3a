-- ===== src/Control/Tests.antt =====
-- Tests of the control plane, with a firewall that denies one tool and a `sub` that finds nothing.
use sentinelai_v.Prelude.{String, ◌≡◌, ◌↔◌, refl, some, [], ◌∷◌, map, ◌==◌, if◌then◌else◌}
use sentinelai_v.Prelude.Result.{Result, ok, err, value_error, runtime_error}
use sentinelai_v.Control.{
  scrub_pii, mask, Function, cached, run_task_async, AgentRequest, AgentIdentity, Firewall,
  server_error, invalid_token, shield_failure, forbidden, success, get_current_agent, check_tools,
  handle_agent_request,
}
use sentinelai_v.Control.Answers.{answers_iff, AllPermitted, FirstDenied}
use sentinelai_v.Control.Shield.{answers, answers_uncached}

abbrev no_match : String → String → String → String
no_match pattern replacement t = t

abbrev scrubber : String → String → Result Function
scrubber module_path function_name = ok (λ t. ok (scrub_pii no_match t))

abbrev no_scrubber : String → String → Result Function
no_scrubber module_path function_name = err value_error

abbrev by_limit : Firewall String
by_limit tool = ok (record {
  decision = some (if tool.name == "transfer_funds" then "DENIED" else "ALLOWED");
  reason = some "limit";
})

abbrev firewall : AgentIdentity → Result (Firewall String)
firewall agent = ok by_limit

abbrev no_firewall : AgentIdentity → Result (Firewall String)
no_firewall agent = err runtime_error

abbrev request : AgentRequest String
request = record {
  prompt = "hello";
  tool_calls =
      record { name = "read_balance"; arguments = "" }
      ∷ record { name = "transfer_funds"; arguments = "" }
      ∷ [];
}

abbrev reading : AgentRequest String
reading = record {
  prompt = "hello";
  tool_calls = record { name = "read_balance"; arguments = "" } ∷ [];
}

wrong_token : (handle_agent_request firewall scrubber "x" request []).0 ≡ invalid_token
unfolding handle_agent_request get_current_agent
wrong_token = refl

shield_fails :
    (handle_agent_request firewall no_scrubber "valid_secret_token" request []).0 ≡ shield_failure
unfolding handle_agent_request get_current_agent run_task_async cached
shield_fails = refl

firewall_raises :
    (handle_agent_request no_firewall scrubber "valid_secret_token" request []).0
    ≡ server_error runtime_error
unfolding handle_agent_request get_current_agent run_task_async cached
firewall_raises = refl

second_denied :
    (handle_agent_request firewall scrubber "valid_secret_token" request []).0
    ≡ forbidden (some "limit") "transfer_funds"
unfolding handle_agent_request get_current_agent run_task_async cached check_tools
second_denied = refl

authorized :
    (handle_agent_request firewall scrubber "valid_secret_token" reading []).0
    ≡ success "hello" ("read_balance" ∷ [])
unfolding handle_agent_request get_current_agent run_task_async cached check_tools scrub_pii mask
authorized = refl

answers_iff_example :
    (((handle_agent_request firewall scrubber "valid_secret_token" request []).0
        ≡ success "hello" ("read_balance" ∷ []))
      ↔ ((◌≡◌ {A = String} "valid_secret_token" "valid_secret_token")
          × ((run_task_async scrubber "security.pii_scrub" "scrub_pii" "hello" []).0 ≡ ok "hello")
          × AllPermitted firewall scrubber request []
          × (map (λ t. t.name) request.tool_calls ≡ "read_balance" ∷ [])))
    × (((handle_agent_request firewall scrubber "valid_secret_token" request []).0
          ≡ forbidden (some "limit") "transfer_funds")
        ↔ ((◌≡◌ {A = String} "valid_secret_token" "valid_secret_token")
            × ((shown : String) × ((run_task_async scrubber "security.pii_scrub" "scrub_pii" "hello"
                    []).0
                  ≡ ok shown))
            × FirstDenied firewall scrubber request [] (some "limit") "transfer_funds"))
answers_iff_example =
    answers_iff firewall scrubber request [] "valid_secret_token" "hello" "transfer_funds"
      ("read_balance" ∷ []) (some "limit")

answers_uncached_example :
    answers scrubber firewall (("valid_secret_token", request) ∷ ("x", reading) ∷ []) []
    ≡ map
        (λ (token, payload). (handle_agent_request firewall scrubber token payload []).0)
        (("valid_secret_token", request) ∷ ("x", reading) ∷ [])
answers_uncached_example =
    answers_uncached scrubber firewall (("valid_secret_token", request) ∷ ("x", reading) ∷ [])
