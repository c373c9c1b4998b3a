-- ===== src/Gateway/Tests.antt =====
-- Tests of the gateway.
mod Stack
use sentinelai_v.Prelude.{
  All, List, ◌==◌, if◌then◌else◌, String, ◌≡◌, ◌↔◌, refl, true, false, none, some, [], ◌∷◌,
}
use sentinelai_v.Float.{of_ℕ, unit, lt_float, le_float, truthy_float}
use sentinelai_v.Database.{empty_db, seed_beneficiary, authorized}
use sentinelai_v.Enforcer.{
  unknown_beneficiary, validate_transfer_intent, check_amount, compliance, get_trusted_beneficiary,
  reads_table,
}
use sentinelai_v.AuditChain.{append_record, last_hash, next_seq_id, hash_taken}
use sentinelai_v.Connection.{Conn, begin, read, write, commit, rollback}
use sentinelai_v.Transaction.{
  insert_intent, insert_event, insert_audit, update_status, intent_taken, event_taken, create,
  record_result, settle, append_outbox, append_audit, authorize_transfer,
}
use sentinelai_v.RustCore.{Core, lookup, audit_and_verify}
use sentinelai_v.Gateway.{
  SystemMode, read_only, ramp_up, RecoveryState, initial_state, proceed, refuse, security_gate,
}
use sentinelai_v.Gateway.Admission.{security_gate-proceed_iff}
use sentinelai_v.Gateway.Handler.{
  TransferRequest, Headers, intervention, integrity_mismatch, success, server_error, Surroundings,
  validate_intent, handle_transfer,
}
use sentinelai_v.Gateway.Payments.{IsBacked}
use sentinelai_v.Gateway.Serve.{Arrival, answered, refused, serve, serve_all, start_up}
use sentinelai_v.Gateway.Freeze.{mismatch_stops_payments}
use sentinelai_v.Gateway.Day.{calls, boots, redis_holds, day, day-IsBacked}
use sentinelai_v.Gateway.Once.{Reports, Names}
use sentinelai_v.Gateway.OneKey.{after_serving, key_pays_once}
use sentinelai_v.Gateway.Plane.{
  Text, Plane, Happening, commands, syncs, requests, happen_all, answers,
}
use sentinelai_v.Gateway.Command.{IsSystemFrozen, frozen_by_command}
use sentinelai_v.Gateway.Responses.{Tells, handle_transfer-Tells}
use sentinelai_v.Idempotency
use sentinelai_v.Idempotency.{fresh, route, check_state, stored, fresh_world}
use sentinelai_v.Idempotency.Scope.{redis_key}
use sentinelai_v.Gateway.Stack.{
  Web, Call, Site, through, get_state, key_of_call, call_next, dispatch_keyed, pass, pass_all,
}
use sentinelai_v.Gateway.Done.{again}
use sentinelai_v.Gateway.Final.{Under, AnswersOnly, response_is_final}
use sentinelai_v.Gateway.Refines.{served_under, Matches, pass_all-Matches}
use sentinelai_v.Prelude.Result.{Result, ok, err}
use sentinelai_v.Database.{Db}
use sentinelai_v.Transaction.Phases.{created, settled}
use sentinelai_v.Enforcer.{SafeContext, approved}
use sentinelai_v.Enforcer.Decision.{IsPermitted, validate-approved_iff}
use sentinelai_v.Gateway.Handler.{payload_of, transfer_of}
use sentinelai_v.Gateway.Pays.{verified, permitted_request_pays}

abbrev core : Core
core = record { fail_safe = false; hashes = [] }

abbrev at_mode : SystemMode → RecoveryState
at_mode m = record { mode = m; rate_limit = of_ℕ 0 }

gate_read_only :
    security_gate (some (at_mode read_only)) core "POST" (of_ℕ 0) ≡ refuse 403 "SYSTEM_READ_ONLY"
unfolding security_gate
gate_read_only = refl

gate_ramp_up :
    security_gate (some (at_mode ramp_up)) core "GET" (of_ℕ 1) ≡ refuse 429 "RECOVERY_RAMP_UP"
unfolding security_gate lt_float unit
gate_ramp_up = refl

security_gate-proceed_iff_example :
    (security_gate (some (at_mode read_only)) core "GET" (of_ℕ 0) ≡ proceed)
    ↔ ((core.fail_safe ≡ false) × (◌≡◌ {A = String} "GET" "GET"))
security_gate-proceed_iff_example =
    security_gate-proceed_iff (at_mode read_only) core "GET" (of_ℕ 0)

abbrev env : Surroundings
env = record {
  runtime = record { sha256 = λ s. s; dumps = λ p. "{}"; dumps_sorted = λ p. "{}" };
  parse_float = λ s. none;
  uuids = record { intent_id = "p1"; started_event_id = "e1"; result_event_id = "e2" };
  disk = record { get_fails = false; put_fails = false };
}

abbrev request : TransferRequest
request = record {
  tx_id = "t1";
  tx_hash = "h";
  role = "ADMIN";
  amount = of_ℕ 100;
  target = "1111-2222-3333-4444";
}

abbrev headers : Headers
headers = record { correlation_id = none; idempotency_key = some "k1" }

abbrev seeded : Conn
seeded = record {
  committed = record empty_db { approved_beneficiaries = seed_beneficiary ∷ [] };
  working = record empty_db { approved_beneficiaries = seed_beneficiary ∷ [] };
  in_transaction = false;
  faults = [];
}

pays :
    (handle_transfer env request headers seeded core).0
    ≡ success "unknown" (record { id = "p1"; status = authorized })
unfolding handle_transfer validate_intent reads_table validate_transfer_intent check_amount
    compliance get_trusted_beneficiary le_float lt_float truthy_float unit audit_and_verify lookup
    authorize_transfer create settle record_result append_outbox append_audit begin read write
    commit rollback insert_intent update_status insert_event insert_audit append_record intent_taken
    event_taken last_hash next_seq_id hash_taken
pays = refl

other_role :
    (handle_transfer env (record request { role = "USER" }) headers seeded core).0
    ≡ intervention unknown_beneficiary
unfolding handle_transfer validate_intent reads_table validate_transfer_intent check_amount
    compliance get_trusted_beneficiary le_float lt_float truthy_float unit read
other_role = refl

abbrev arrival : Arrival
arrival = record {
  env = env;
  recovery = initial_state;
  random = of_ℕ 0;
  req = request;
  headers = headers;
  faults = [];
}

abbrev other_hash : Core
other_hash = record { fail_safe = false; hashes = ("t1", "x") ∷ [] }

mismatched : (serve arrival seeded.committed other_hash).0 ≡ answered integrity_mismatch
unfolding serve security_gate lt_float unit handle_transfer validate_intent reads_table
    validate_transfer_intent check_amount compliance get_trusted_beneficiary le_float truthy_float
    audit_and_verify lookup read
mismatched = refl

mismatch_stops_payments_example : serve_all (arrival ∷ arrival ∷ []) seeded.committed other_hash ≡ (
  answered integrity_mismatch ∷ refused 503 "SYSTEM_FROZEN" ∷ [],
  seeded.committed,
  (serve arrival seeded.committed other_hash).2,
)
mismatch_stops_payments_example =
    mismatch_stops_payments arrival seeded.committed other_hash (arrival ∷ []) mismatched

-- A restart forgets that the core and the operator have frozen the gateway.
restart_admits :
    let (state, db, restarted) = start_up seeded.committed (record core { fail_safe = true }) in
    security_gate (some state) restarted "POST" (of_ℕ 1) ≡ proceed
unfolding start_up security_gate
restart_admits = refl

handle_transfer-Tells_example :
    let x = handle_transfer env request headers seeded core in
    Tells env request headers seeded.committed x.0 x.1.committed
handle_transfer-Tells_example = handle_transfer-Tells env request headers seeded core refl refl

first_paid : Reports "p1" (serve arrival seeded.committed core).0
unfolding serve security_gate handle_transfer validate_intent reads_table validate_transfer_intent
    check_amount compliance get_trusted_beneficiary le_float lt_float truthy_float unit
    audit_and_verify lookup authorize_transfer create settle record_result append_outbox
    append_audit begin read write commit rollback insert_intent update_status insert_event
    insert_audit append_record intent_taken event_taken last_hash next_seq_id hash_taken
first_paid = refl

-- `str` and `float` that know one rate, and `upper` that knows one word.
abbrev py : Text
py = record {
  print_float = λ f. "1.0";
  parse_float = λ s. some (of_ℕ 1);
  upper = λ s. if s == "frozen" then "FROZEN" else s;
}

abbrev plane : Plane
plane = record {
  keys = record { mode_key = none; rate_key = none };
  state = initial_state;
  db = seeded.committed;
  core = core;
}

abbrev happenings : List Happening
happenings = requests arrival ∷ syncs true false ∷ requests arrival ∷ []

frozen_by_command_example :
    let q = happen_all py (commands ("frozen" ∷ "0.5" ∷ []) ∷ syncs false false ∷ []) plane in
    ((happen_all py happenings q).db ≡ seeded.committed)
    × ((happen_all py happenings q).core ≡ core)
    × All IsSystemFrozen (answers py happenings q)
frozen_by_command_example =
    frozen_by_command py plane "frozen" ("0.5" ∷ []) happenings refl (of_ℕ 1, refl)
      (tt, (tt, (tt, tt)))
