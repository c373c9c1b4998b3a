-- ===== src/Gateway/Tests/Stack.antt =====
-- Tests of the gateway's requests as a whole.
use sentinelai_v.Prelude.{List, arith, eq_iff, String, ◌≡◌, refl, true, some, [], ◌∷◌}
use sentinelai_v.Float.{unit, lt_float, le_float, truthy_float}
use sentinelai_v.Database.{AuditRow, seed_beneficiary, authorized}
use sentinelai_v.Enforcer.{
  validate_transfer_intent, check_amount, compliance, get_trusted_beneficiary, reads_table,
}
use sentinelai_v.AuditChain.{append_record, last_hash, next_seq_id, hash_taken}
use sentinelai_v.Connection.{begin, read, write, commit, rollback}
use sentinelai_v.Transaction.{
  insert_intent, insert_event, insert_audit, update_status, intent_taken, event_taken, create,
  record_result, settle, append_outbox, append_audit, authorize_transfer,
}
use sentinelai_v.RustCore.{lookup, audit_and_verify}
use sentinelai_v.Gateway.{proceed, security_gate}
use sentinelai_v.Gateway.Handler.{
  intervention, integrity_mismatch, success, server_error, validate_intent, handle_transfer,
}
use sentinelai_v.Gateway.Payments.{IsBacked}
use sentinelai_v.Gateway.Serve.{answered, serve}
use sentinelai_v.Gateway.Day.{calls, boots, redis_holds, day, day-IsBacked}
use sentinelai_v.Gateway.Once.{Names}
use sentinelai_v.Gateway.OneKey.{after_serving, key_pays_once}
use sentinelai_v.Idempotency
use sentinelai_v.Idempotency.{fresh, route, check_state, stored, fresh_world}
use sentinelai_v.Idempotency.Scope.{redis_key}
use sentinelai_v.Gateway.Stack.{
  Web, Call, Site, through, get_state, key_of_call, call_next, dispatch_keyed, pass, pass_all,
}
use sentinelai_v.Gateway.Done.{again}
use sentinelai_v.Gateway.Final.{Under, AnswersOnly, response_is_final}
use sentinelai_v.Gateway.Refines.{served_under, Matches, pass_all-Matches}
use sentinelai_v.Prelude.Result.{ok, err}
use sentinelai_v.Enforcer.{SafeContext}
use sentinelai_v.Enforcer.Decision.{IsPermitted, validate-approved_iff}
use sentinelai_v.Gateway.Handler.{payload_of, transfer_of}
use sentinelai_v.Gateway.Pays.{verified, permitted_request_pays}
use sentinelai_v.Transaction.Fresh.{IsFresh, with_payment}
use sentinelai_v.Gateway.Tests.{core, arrival, seeded, request, headers, env, first_paid}

-- A body is named by its answer's kind alone.
abbrev web : Web
web = record {
  lower = λ s. s;
  decode = λ s. s;
  body_of = λ r. elim r [
    | intervention reason ↦ "intervention"
    | integrity_mismatch ↦ "mismatch"
    | success trace payment ↦ payment.id
    | server_error e ↦ "error"
  ];
  headers_of = λ r. ("content-length", "2") ∷ [];
}

abbrev call_of : String → Call
call_of h = record { arrival = arrival; host = some "10.0.0.1"; payload_hash = h }

abbrev site : Site
site = record { redis = []; db = seeded.committed; core = core }

abbrev state_key : String
state_key = key_of_call "k1" (call_of "h")

call_of-Under : (h : String) → Under state_key (call_of h)
unfolding route redis_key
call_of-Under h = ("k1", refl, refl)

abbrev paid : Idempotency.Response
paid = record { status_code = 200; body = "p1"; headers = ("content-length", "2") ∷ [] }

first_through : (pass web (call_of "h") site).0 ≡ through (fresh paid)
unfolding pass route redis_key dispatch_keyed check_state get_state call_next security_gate
    handle_transfer validate_intent reads_table validate_transfer_intent check_amount compliance
    get_trusted_beneficiary le_float lt_float truthy_float unit audit_and_verify lookup
    authorize_transfer create settle record_result append_outbox append_audit begin read write
    commit rollback insert_intent update_status insert_event insert_audit append_record intent_taken
    event_taken last_hash next_seq_id hash_taken
first_through = refl

response_is_final_example :
    let later = pass_all web (call_of "g" ∷ []) (pass web (call_of "h") site).1 in
    ((pass web (call_of "g") later).1 ≡ later)
    × AnswersOnly
        (again "h" (stored web.lower web.decode paid) "g")
        (pass web (call_of "g") later).0
response_is_final_example =
    response_is_final web (call_of "h") (call_of "g") (call_of "g" ∷ []) site state_key paid
      (call_of-Under "h") (call_of-Under "g") first_through refl

pass_all-Matches_example :
    Matches web fresh_world state_key
      (served_under web state_key (call_of "h" ∷ call_of "g" ∷ []) site [])
      (pass_all web (call_of "h" ∷ call_of "g" ∷ []) site)
unfolding get_state
pass_all-Matches_example =
    pass_all-Matches web fresh_world state_key (call_of "h" ∷ call_of "g" ∷ []) site refl refl

day-IsBacked_example :
    IsBacked
      (day web (boots ∷ calls (call_of "h") ∷ redis_holds [] ∷ calls (call_of "h") ∷ []) site).db
day-IsBacked_example =
    day-IsBacked web (boots ∷ calls (call_of "h") ∷ redis_holds [] ∷ calls (call_of "h") ∷ []) site
      tt

key_pays_once_example :
    let s = day web (redis_holds [] ∷ boots ∷ []) (after_serving arrival site) in
    ((pass web (call_of "h") s).1.db ≡ s.db) × Names "p1" (serve arrival s.db s.core).0
key_pays_once_example =
    key_pays_once web arrival (call_of "h") (redis_holds [] ∷ boots ∷ []) site "p1" tt first_paid
      refl

abbrev context : SafeContext
context = record {
  user_id = request.role;
  amount = request.amount;
  target_iban = seed_beneficiary.account_iban;
  internal_label = "USER_INITIATED_TRANSFER";
}

request-IsPermitted :
    IsPermitted env.parse_float seeded.committed.approved_beneficiaries request.role
      (payload_of request)
      context
unfolding validate_transfer_intent check_amount compliance get_trusted_beneficiary le_float lt_float
    truthy_float unit
request-IsPermitted =
    (validate-approved_iff env.parse_float seeded.committed.approved_beneficiaries request.role
        (payload_of request) context (tt, tt)).0
      refl

-- The audit ledger after one more record of the payment.
abbrev recorded : List AuditRow → String → String → List AuditRow
recorded rows action payload = elim (append_record env.runtime.sha256 rows "p1" action payload) [
  | ok l ↦ l
  | err e ↦ []
]

abbrev first_row : List AuditRow
first_row = recorded [] "INTENT_CREATED" "{}"

abbrev both_rows : List AuditRow
both_rows = recorded first_row "AUTH_APPROVED" "{}"

arrival-IsFresh :
    IsFresh env.runtime env.uuids
      (transfer_of env request headers context)
      seeded.committed
      both_rows
unfolding append_record intent_taken event_taken last_hash next_seq_id hash_taken
arrival-IsFresh = record {
  not_null = refl;
  new_payment = refl;
  new_started = refl;
  new_result = refl;
  two_events = λ e. ground (arith, e, eq_iff "e1" "e2");
  between = first_row;
  first_record = refl;
  second_record = refl;
}

hash_accepted : (verified arrival core).0 ≡ ok true
unfolding audit_and_verify lookup
hash_accepted = refl

gate_open : security_gate (some arrival.recovery) core "POST" arrival.random ≡ proceed
unfolding security_gate
gate_open = refl

permitted_request_pays_example : serve arrival seeded.committed core ≡ (
  answered (success "unknown" (record { id = "p1"; status = authorized })),
  with_payment env.runtime env.uuids
      (transfer_of env request headers context)
      seeded.committed
      both_rows,
  (verified arrival core).1,
)
permitted_request_pays_example =
    permitted_request_pays arrival seeded.committed both_rows core context refl gate_open (tt, tt)
      request-IsPermitted hash_accepted arrival-IsFresh
