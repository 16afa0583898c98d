-- ===== src/Lib.antt =====
-- Verification of evgl-api, the HTTP service that stores organisers' events, cross-posts them to
-- event platforms by background jobs, and issues and checks admission to them.
--
-- The parts and how they interact. At the start the configuration (src/config.rs) is read from
-- the environment and decides which providers are registered (src/registry.rs). A handler
-- (src/events.rs, src/jobs.rs, src/oauth.rs) takes the user from the request's bearer token
-- (src/auth.rs), works on the shared state (src/state.rs) and calls the store (src/store.rs),
-- which keeps sessions, connections, events, jobs and targets in the tables of
-- migrations/0001_initial.sql. A new event is also sent to the open event streams. Enqueuing a
-- job stores it with its targets and spawns the task of src/worker.rs, which claims the targets,
-- calls the provider's adapter for each with retries and pauses, writes each result through the
-- store, and sends an update on the job's channel at each step. Offline admission
-- (src/admission.rs) stands beside that: tokens signed for tickets, verified by scanners at a
-- snapshot of keys and revocations, and receipts of scans that are reconciled later; and the
-- stock of an event's tickets (src/ticketing.rs).
--
-- - Base, Base/Tests, Base/Lists, Base/Int, Base/Maps: Boolean tests, lists over native numbers,
--   signed integers. Base/Tables and Base/Search: how lists that stand for tables answer after a
--   change. Rust: Result, `?`, early returns, `format!`.
-- - Domain: types of evgl-domain and the provider crates that the code names, and the functions
--   of those crates as the parameter Crates. Error: src/error.rs.
-- - Database: the tables of migrations/0001_initial.sql as lists of rows, queries, transactions,
--   and the tests behind primary keys and unique constraints. Database/Integrity: the consistency
--   that the constraints and the code keep.
-- - Store/Sessions, Store/Connections, Store/Events, Store/Jobs, Store/Targets: the functions of
--   src/store.rs under their own names (create_oauth_session, consume_oauth_session,
--   upsert_connection, list_connections, get_connection, delete_connection, create_event,
--   get_event, list_events, enqueue_job, get_job, claim_targets, finish_job, target_running,
--   target_complete, target_failed); their child modules hold the proofs. Store/Operations: the
--   functions that change the tables, as the steps of a run; its children say what each keeps and
--   Isolated whom it concerns, and Database/Keep what a sequence of queries keeps.
-- - Worker: src/worker.rs, the function run with its loop over targets (run_targets), over
--   attempts (attempts), fail_target and emit. Worker/Attempts, Worker/Targets, Worker/Loop,
--   Worker/Run, Worker/Settlement, Worker/Progress, Worker/Effort, Worker/Keep and Worker/Tells
--   hold the proofs.
-- - Admission/Wire: the values, errors and decoders of src/admission.rs (decode_compact,
--   decode_verifying_key, decode_signature, decode_bytes, validate_descriptor). Admission/Tokens:
--   AdmissionTokenSigner::new and sign as new_signer and sign_token, and verify_admission_token.
--   Admission/Receipts: ScannerReceiptSigner::sign and public_key as sign_receipt and public_key,
--   verify_scan_receipt, reconcile_verified_receipts. Admission/Registry, Enrolment and
--   Recording: AdmissionService's register_signing_key, register_scanner_key,
--   register_entitlement, register_token, revoke_entitlement and record_receipt over lists of
--   rows. Admission/Outcomes: its outcomes. Admission/Laws: what is relied on in the crates.
--   Admission/Acceptance, RoundTrip, ReceiptRoundTrip, Winners, Reconcile, Binding, Entitled and
--   Recorded hold the proofs.
-- - OAuth/Webhook: validate_webhook_endpoint of src/oauth.rs with the address tests of std::net.
--   OAuth/Handlers: its routes start, callback and create_manual over the store.
--   OAuth/Connections: list_connections and delete_connection. OAuth/Endpoints, OAuth/Routes,
--   OAuth/Manual and OAuth/Keep hold the proofs.
-- - App: src/state.rs, the state AppState with the function channel, and handlers, which work on
--   it as queries work on the tables. App/Channels holds the proofs. Web: the requests and JSON
--   texts of the handlers.
-- - Stream: what the WebSocket loops of src/events.rs and src/jobs.rs share, with the loop as
--   select. Stream/Relay: what a client is shown of a channel, and when; Stream/Live: when a loop
--   runs on.
-- - Events: src/events.rs under its own names (create, list, get, cross_post, websocket,
--   stream_events). Jobs: src/jobs.rs (get, websocket, stream). Their children hold the proofs.
-- - Service: the routes of src/main.rs that change the state and the calls and runs of workers,
--   as the requests of a run; Service/Keys, Routes, Sound and Isolated hold the proofs.
-- - Config: src/config.rs (from_env, oauth, required, env_or). Providers: src/registry.rs (build,
--   get, capabilities, static_capability) and the route providers of src/oauth.rs. Auth:
--   src/auth.rs (from_request_parts). Their children hold the proofs.
-- - Ticketing/Tables and Ticketing/Inventory: src/ticketing.rs, TicketingService under its own
--   names. Ticketing/Covered and Ticketing/Configured hold the proofs.
-- - Examples: the theorems at concrete inputs.
--
-- State and errors. A function that awaits the database is a query: from the tables it gives a
-- result or an error, and the tables after it. A transaction that fails leaves the tables as they
-- were. The statements of a worker's run take the parameter Refusals, which says which of them
-- the database refuses: each may end the function, and with it the run, at that place. A refusal
-- at the other callers of the store, whose functions then return an internal error and keep or
-- roll back what was done, is left out. The statements of one function of the store run without
-- those of another between them, but for enqueue_job, of which enqueue_after is the part after
-- its first statement, which other calls may precede (Store/Jobs/Race); a run of the service
-- takes requests, single calls by workers and whole runs of workers in any order, and cross_posts
-- that looked for their key before other requests. The worker's state is the tables and the trace
-- of what it did (requests, pauses, updates); Service makes the channels that its updates go out
-- on, as emit does; the clock, the vault, and the adapters are functions of that state, so that a
-- provider may answer differently each time. Uuids drawn at random and readings of the clock are
-- arguments of the store's functions.
--
-- Numbers. Uuids are their 128-bit numbers and points in time are nanoseconds, both natural
-- numbers; an i64 and a Duration are integers, and no arithmetic on them in the source can leave
-- their range but the subtraction of two points in time, which chrono itself bounds. The loop
-- over attempts recurs on the attempts that are left, three at first, and needs no fuel.
--
-- Encodings. Ed25519, base64, serde, url parsing, the vault and the adapters of the OAuth routes
-- are parameters. The theorems that need their behaviour take it as the record CrateLaws of
-- Admission/Laws, and Examples/AdmissionRuns shows functions that meet it. The text of a token, a
-- key or a signature is the list of its bytes.
--
-- Admission's tables. Their migration, ADMISSION_MIGRATION, stands in evgl_interfaces: the
-- columns and the unique key of each table are those that the statements of src/admission.rs
-- name, the functions of the database that they call and the defaults of the columns that they
-- leave out are the parameter AdmissionSchema, and further constraints, which could make a
-- statement fail, are left out.
--
-- Streams. A broadcast receiver is a parameter: the loops take the list of the branches of
-- select! that become ready, with what each returns, and Delivers of Stream/Relay states what
-- tokio documents of a receiver, in order and with the number of the values that it skipped.
-- Whether a send succeeds is a function of what was sent before.
--
-- Ticketing's tables. Their migration stands in evgl_interfaces: the columns are those that the
-- statements of src/ticketing.rs name, and its constraints, the functions of the database and the
-- validation of requests are the parameter TicketInterfaces. Capacities and quantities are
-- integers.
--
-- Not modelled: the migrations that AdmissionService and TicketingService run, which stand in
-- evgl_interfaces; the deserialization of requests by axum; and of src/main.rs the connection to
-- the database, CORS, request ids, tracing and listening, which only call libraries.
pub mod Base
pub mod Rust
pub mod Domain
pub mod Error
pub mod Database
pub mod Store
pub mod Worker
pub mod Admission
pub mod OAuth
pub mod App
pub mod Stream
pub mod Web
pub mod Events
pub mod Jobs
pub mod Service
pub mod Config
pub mod Providers
pub mod Auth
pub mod Ticketing
mod Examples
