-- ===== src/Lib.antt =====
-- SentinelAI: a gateway that lets AI agents ask for bank transfers. A request passes the request
-- gate (the mode that the operators set, and the kill switch), the enforcer, which reads the
-- recipient from a whitelist and not from the request, the Rust core, which pins one hash to a
-- transaction, and the transaction manager, which writes the payment, its events and the audit
-- chain. A relay publishes the events, and an offline audit checks the chain. Beside it stand a
-- pipeline of stages, which has the policies of the Rust engine evaluated and the decisions audited
-- in batches that a witness chains, and a control plane that scrubs prompts and checks tool calls.
--
-- What models what:
--   Database.antt      core/database.py: the tables, their rows in the order of insertion, `init_db`.
--   Connection.antt    the connection to SQLite: BEGIN, statements, commit, ROLLBACK. An action is a
--     function of the connection that returns a result or an exception, and what it changed stays
--     changed. Connection/Effects.antt and Connection/Statements.antt reason about it.
--   Enforcer.antt      security/enforcer.py: `validate_transfer_intent`.
--   AuditChain.antt    security/audit_chain.py: `append_record`; verify_chain.py:
--     `verify_audit_chain`.
--   Transaction.antt   core/transaction.py: `authorize_transfer`, its two transactions and their
--     handlers of errors.
--   RustCore.antt      core/sentinel-core/src/lib.rs: `audit_and_verify`.
--   Gateway.antt       core/gateway.py: `security_gate` and `sync_with_redis`; admin_panel.py:
--     `set_mode`. Gateway/Handler.antt is `handle_transfer`, which calls the enforcer, the core and
--     the transaction manager; Gateway/Serve.antt runs it behind the gate, request after
--     request, with the restarts of `lifespan` in between; Gateway/Plane.antt
--     adds the operator's command line of admin_panel.py and the rounds of `sync_with_redis`;
--     Gateway/Stack.antt has the gate, the idempotency middleware and the endpoint in the order in
--     which a request passes them, one request after another, and Gateway/Day.antt runs them with
--     restarts in between and with whatever else changes Redis, as the expiry of a key.
--   Idempotency.antt   core/idempotency.py: the middleware before the gateway's endpoints; what the
--     requests under one key do to Redis is a step relation. Idempotency/Scope.antt has the keys.
--   Policy.antt        execution/policy_engine.py: `evaluate` and `reload_policies`.
--   Relay.antt         core/relay.py: `outbox_relay_worker`, its loop a step relation.
--   Siem.antt          siem_service.py: `ingest_root`, `get_latest_root` and `init_db`, over the list of
--     stored roots.
--   Scopes.antt        identity/scopes.py: `resolve_agent_scopes`.
--   Ledger.antt        all that writes to data/ledger.db, side by side: the committed transactions of
--     payment calls, the relay and `init_db` as the steps of a relation.
--   Engine.antt        core/sentinel-core/src/models.rs, engine.rs and store.rs: the policies of the Rust
--     engine, their evaluation and their loading.
--   Pipeline.antt      core/app/context.py and pipeline.py, and the four stages of core/app/stages.py.
--   Forensic.antt      core/app/stages.py: the audit buffer, filled by `ForensicAuditStage` and emptied
--     by it and by `periodic_flush`.
--   Merkle.antt        core/crypto_audit.py: `build_merkle_root`.
--   Shipping.antt      core/app/stages.py: `flush_batch` and `retry_worker`, which send the roots of
--     batches to the witness of Siem.antt, and the start of the sender.
--   Trust.antt         admin_signer.py: `sign_policy`; core/trust.py: `verify_policy_integrity`.
--   Control.antt       main.py: `handle_agent_request`; core/sub_manager.py: `run_task_async`;
--     security/pii_scrub.py: `scrub_pii`.
--   Float.antt         Python's floats, as far as they are compared.
-- The files below a component's folder prove its theorems, and its Tests.antt runs it on small
-- inputs.
--
-- Bounds and conventions. Loops are structural but for the levels of a Merkle tree, which run on
-- the number of hashes as fuel: each level is shorter than the one below, so that this is enough,
-- and the recursion of the code is proved. The endless loop of the relay, the concurrent requests
-- of the middleware and the concurrent writers of the ledger are relations between states. Which
-- statements fail for a reason outside the program (a lock, the disk) is a schedule of the
-- connection, so a theorem for every connection covers every pattern of failures. A finite float is
-- a whole multiple of 2 ^ -1074, which all binary64 numbers are; no arithmetic is done on floats.
-- Row numbers of the audit table grow by one, as they do where no row is deleted. A failed
-- statement changes nothing, and SQLite's rollbacks of its own are not told apart from it.
--
-- Parameters: SHA-256, RSA-PSS, JSON and float printing and parsing, `str`, regular expressions,
-- the decoding of bytes, UUIDs, random numbers, the importing of modules, reading YAML, what a POST
-- to the witness meets, and the two names that the code imports and does not define:
-- `fast_evaluate` of the Rust module and `ActionFirewall` of the policy engine. Of SHA-256 nothing
-- is assumed but, for the trees, that digests have 64 characters: where a theorem needs two digests
-- to differ it says so, or it ends in the collision.
--
-- Not modelled: opening the database file; FastAPI's routing and pydantic's validation of requests;
-- the tasks that start-up makes and shut-down cancels; `created_at` columns; the conversion of Python values to those of the
-- Rust engine; core/sentinel-core/src/logger.rs, which nothing calls.
pub mod Prelude
pub mod Float
pub mod Database
pub mod Enforcer
pub mod AuditChain
pub mod Connection
pub mod Control
pub mod Transaction
pub mod RustCore
pub mod Gateway
pub mod Policy
pub mod Relay
pub mod Scopes
pub mod Siem
pub mod Idempotency
pub mod Merkle
pub mod Forensic
pub mod Shipping
pub mod Engine
pub mod Pipeline
pub mod Trust
pub mod Ledger
