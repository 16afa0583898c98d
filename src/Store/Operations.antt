-- ===== src/Store/Operations.antt =====
-- The functions of src/store.rs that change the tables, as the steps of any run of the service: its
-- requests and its workers reach the tables through them alone.
pub mod Consistent
pub mod Keys
pub mod Isolated
use evgl_api.Base.{ℕ, Bool, String, Option, List, [], ◌∷◌}
use evgl_api.Domain.{Crates, ProviderKind, PublicationStatus, EventDraft, PublishTarget}
use evgl_api.Database.{Database, JobRow, Refusals}
use evgl_api.Store.Sessions.{create_oauth_session, consume_oauth_session}
use evgl_api.Store.Connections.{upsert_connection, delete_connection}
use evgl_api.Store.Events.{create_event}
use evgl_api.Store.Jobs.{enqueue_job, enqueue_after, claim_targets, finish_job}
use evgl_api.Store.Targets.{target_running, target_complete, target_failed}

-- A call, by the function's arguments; `enqueues_after` is the rest of a call of `enqueue_job` whose
-- first statement, before other calls, has found a job or none.
pub data Operation (C : Crates) : Type 0 where
  creates_session : ℕ → String → ℕ → ProviderKind → Option String → Bool → Operation C
  consumes_session : ℕ → String → Operation C
  upserts_connection : ℕ → ℕ → ℕ → ProviderKind → String → String → C.Json → String → Operation C
  deletes_connection : ℕ → ℕ → Operation C
  creates_event : ℕ → EventDraft C.types → Operation C
  enqueues_job : ℕ → (ℕ → ℕ) → ℕ → ℕ → String → List (PublishTarget C.Json) → Operation C
  enqueues_after :
      Option JobRow → ℕ → (ℕ → ℕ) → ℕ → ℕ → String → List (PublishTarget C.Json) → Operation C
  claims_targets finishes_job : Refusals C.Json → ℕ → ℕ → Operation C
  runs_target : Refusals C.Json → ℕ → ℕ → Operation C
  completes_target : Refusals C.Json → ℕ → PublicationStatus → C.Json → Operation C
  fails_target : Refusals C.Json → ℕ → ℕ → String → Operation C

module _ {C : Crates} where
  -- The tables after a call, whether it returns or fails.
  abbrev pub perform : Operation C → Database C.Json → Database C.Json
  perform (creates_session now hash user provider verifier uses_pkce) db =
      (create_oauth_session C now hash user provider verifier uses_pkce db).1
  perform (consumes_session now hash) db = (consume_oauth_session now hash db).1
  perform (upserts_connection now id user provider key name metadata envelope) db =
      (upsert_connection C now id user provider key name metadata envelope db).1
  perform (deletes_connection user id) db = (delete_connection user id db).1
  perform (creates_event now event) db = (create_event C now event db).1
  perform (enqueues_job now fresh user event_id key targets) db =
      (enqueue_job C now fresh user event_id key targets db).1
  perform (enqueues_after read now fresh user event_id key targets) db =
      (enqueue_after C read now fresh user event_id key targets db).1
  perform (claims_targets R now job_id) db = (claim_targets R now job_id db).1
  perform (finishes_job R now job_id) db = (finish_job R now job_id db).1
  perform (runs_target R id attempt) db = (target_running R id attempt db).1
  perform (completes_target R id status result) db = (target_complete R id status result db).1
  perform (fails_target R id attempt error) db = (target_failed R id attempt error db).1

  -- Calls one after the other, of however many requests and workers.
  abbrev pub perform_all : List (Operation C) → Database C.Json → Database C.Json
  perform_all [] db = db
  perform_all (o ∷ os) db = perform_all os (perform o db)

-- Every one of the functions keeps `P`, however it ends.
abbrev pub StoreKeeps : (C : Crates) → (Database C.Json → Type 0) → Type 0
StoreKeeps C P = (o : Operation C) (db : Database C.Json) → P db → P (perform o db)

-- Those of the functions that `K` allows keep `P`.
abbrev pub KeepsOf : (C : Crates) → (Operation C → Type 0) → (Database C.Json → Type 0) → Type 0
KeepsOf C K P = (o : Operation C) → K o → (db : Database C.Json) → P db → P (perform o db)
