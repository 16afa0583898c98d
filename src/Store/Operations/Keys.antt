-- ===== src/Store/Operations/Keys.antt =====
-- Every run of the functions of src/store.rs keeps the keys of the jobs that it has stored.
use evgl_api.Base.{
  ℕ, String, List, [], ◌∷◌, ◌≡◌, refl, ap, true, any, find, ◌∙◌, arith, inl, inr, Bool-cases,
  Option-cases, Bool, Option, some, none, update_where, ◌==◌,
}
use evgl_api.Base.Tables.{any-update}
use evgl_api.Rust.{Result-cases}
use evgl_api.Domain.{Crates, EventDraft, ProviderKind, PublishTarget}
use evgl_api.Database.{Database, JobRow, same_key, same_connection, same_account, settle-keep}
use evgl_api.Store.Jobs.Claims.{claim_targets_keeps, finish_job_keeps}
use evgl_api.Store.Sessions.{create_oauth_session, consume_oauth_session, is_live}
use evgl_api.Store.Connections.{upsert_connection, connection_row, delete_connection, is_users}
use evgl_api.Store.Events.{create_event}
use evgl_api.Store.Jobs.{
  enqueue_job, enqueue_after, enqueue_unless, enqueue_new, is_job, with_status,
}
use evgl_api.Store.Jobs.Enqueue.{enqueue_new_lem}
use evgl_api.Store.Jobs.Idempotency.{enqueue_job_ways, enqueue_job_atomic}
use evgl_api.Store.Targets.Updates.{
  target_running_keeps, target_complete_keeps, target_failed_keeps,
}
use evgl_api.Store.Operations.{
  creates_session, consumes_session, upserts_connection, deletes_connection, creates_event,
  enqueues_job, enqueues_after, claims_targets, finishes_job, runs_target, completes_target,
  fails_target, StoreKeeps, Operation, perform, perform_all,
}

-- A job of the user has the key of `j`.
abbrev pub HasKeyOf : {Json : Type 0} → JobRow → Database Json → Type 0
HasKeyOf j db = any (same_key j) db.cross_post_jobs ≡ true

module _ (C : Crates) where
  create_oauth_session-jobs :
      (now : ℕ) (hash : String) (user : ℕ) (provider : ProviderKind) (verifier : Option String)
      (uses_pkce : Bool) (db : Database C.Json)
      → (create_oauth_session C now hash user provider verifier uses_pkce db).1.cross_post_jobs
        ≡ db.cross_post_jobs
  unfolding create_oauth_session
  create_oauth_session-jobs now hash user provider verifier uses_pkce db = ground arith

  consume_oauth_session-jobs :
      (now : ℕ) (hash : String) (db : Database C.Json)
      → (consume_oauth_session now hash db).1.cross_post_jobs ≡ db.cross_post_jobs
  unfolding consume_oauth_session
  consume_oauth_session-jobs now hash db =
      elim (Option-cases (find (is_live now hash) db.oauth_sessions)) [
        | inl missing ↦ rw missing refl
        | inr (_, found) ↦ rw found refl
      ]

  upsert_connection-jobs :
      (now id user : ℕ) (provider : ProviderKind) (key name : String) (metadata : C.Json)
      (envelope : String) (db : Database C.Json)
      → (upsert_connection C now id user provider key name metadata envelope db).1.cross_post_jobs
        ≡ db.cross_post_jobs
  unfolding upsert_connection
  upsert_connection-jobs now id user provider key name metadata envelope db =
      let row = connection_row C now id user provider key name metadata envelope in
      elim (Option-cases (find (same_account row) db.provider_connections)) [
        | inr (old, found) ↦ rw found refl
        | inl missing ↦ elim (Bool-cases (any (same_connection row) db.provider_connections)) [
          | inl taken ↦ rw (missing, taken) refl
          | inr free ↦ rw (missing, free) refl
        ]
      ]

  delete_connection-jobs :
      (user id : ℕ) (db : Database C.Json)
      → (delete_connection user id db).1.cross_post_jobs ≡ db.cross_post_jobs
  unfolding delete_connection
  delete_connection-jobs user id db =
      elim (Bool-cases (any (is_users user id) db.provider_connections)) [
        | inr missing ↦ rw missing refl
        | inl hit ↦ elim (Bool-cases (any (λ t. t.connection_id == id) db.cross_post_targets)) [
          | inl used ↦ rw (hit, used) refl
          | inr free ↦ rw (hit, free) refl
        ]
      ]

  create_event-jobs :
      (now : ℕ) (event : EventDraft C.types) (db : Database C.Json)
      → (create_event C now event db).1.cross_post_jobs ≡ db.cross_post_jobs
  unfolding create_event
  create_event-jobs now event db = elim (Result-cases (C.validate_event event)) [
    | inr (_, invalid) ↦ rw invalid refl
    | inl (_, valid) ↦ elim (Result-cases (C.event_to_value event)) [
      | inr (_, unprintable) ↦ rw (valid, unprintable) refl
      | inl (v, printed) ↦ ground arith
    ]
  ]

  enqueue_job-HasKeyOf :
      (j : JobRow) (now : ℕ) (fresh : ℕ → ℕ) (user event_id : ℕ) (key : String)
      (targets : List (PublishTarget C.Json)) (db : Database C.Json)
      → HasKeyOf j db
      → HasKeyOf j (enqueue_job C now fresh user event_id key targets db).1
  enqueue_job-HasKeyOf j now fresh user event_id key targets db h =
      let q = enqueue_job C now fresh user event_id key targets in
      elim (Result-cases (q db).0) [
        | inr (e, failed) ↦
            rw
              (enqueue_job_atomic C now fresh user event_id key targets db e (q db).1
                (λ i. (failed i, (q db).1)))
              h
        | inl (r, made) ↦
            elim (enqueue_job_ways C now fresh user event_id key targets db r (q db).1
              (λ i. (made i, (q db).1))) [
                | inl (_, _, same) ↦ rw same h
                | inr (_, _, same) ↦ rw same (ground arith)
              ]
      ]

  enqueue_after-HasKeyOf :
      (j : JobRow) (read : Option JobRow) (now : ℕ) (fresh : ℕ → ℕ) (user event_id : ℕ)
      (key : String) (targets : List (PublishTarget C.Json)) (db : Database C.Json)
      → HasKeyOf j db
      → HasKeyOf j (enqueue_after C read now fresh user event_id key targets db).1
  unfolding enqueue_after enqueue_unless
  enqueue_after-HasKeyOf j (some found) now fresh user event_id key targets db h = h
  enqueue_after-HasKeyOf j none now fresh user event_id key targets db h =
      settle-keep (HasKeyOf j) (enqueue_new C now fresh user event_id key targets db) db
        (λ r db' made.
          rw ((enqueue_new_lem C now fresh user event_id key targets db r db' made).1)
            (ground (arith, h)))
        h

  update_jobs-HasKeyOf :
      (j : JobRow) (now job_id : ℕ) (status : String) (jobs : List JobRow)
      → any (same_key j) jobs ≡ true
      → any (same_key j) (update_where (is_job job_id) (with_status now status) jobs) ≡ true
  update_jobs-HasKeyOf j now job_id status jobs h =
      any-update (same_key j) (is_job job_id) (with_status now status) jobs (λ k. refl) ∙ h

  pub store-HasKeyOf : (j : JobRow) → StoreKeeps C (HasKeyOf j)
  store-HasKeyOf j (creates_session now hash user provider verifier uses_pkce) db h =
      ap (any (same_key j)) (create_oauth_session-jobs now hash user provider verifier uses_pkce db)
      ∙ h
  store-HasKeyOf j (consumes_session now hash) db h =
      ap (any (same_key j)) (consume_oauth_session-jobs now hash db) ∙ h
  store-HasKeyOf j (upserts_connection now id user provider key name metadata envelope) db h =
      ap (any (same_key j))
        (upsert_connection-jobs now id user provider key name metadata envelope db)
      ∙ h
  store-HasKeyOf j (deletes_connection user id) db h =
      ap (any (same_key j)) (delete_connection-jobs user id db) ∙ h
  store-HasKeyOf j (creates_event now event) db h =
      ap (any (same_key j)) (create_event-jobs now event db) ∙ h
  store-HasKeyOf j (enqueues_job now fresh user event_id key targets) db h =
      enqueue_job-HasKeyOf j now fresh user event_id key targets db h
  store-HasKeyOf j (enqueues_after read now fresh user event_id key targets) db h =
      enqueue_after-HasKeyOf j read now fresh user event_id key targets db h
  store-HasKeyOf j (claims_targets R now job_id) db h =
      claim_targets_keeps R now job_id db (HasKeyOf j) h
        (update_jobs-HasKeyOf j now job_id "running" db.cross_post_jobs h)
  store-HasKeyOf j (finishes_job R now job_id) db h =
      finish_job_keeps R now job_id db (HasKeyOf j) h
        (λ status. update_jobs-HasKeyOf j now job_id status db.cross_post_jobs h)
  store-HasKeyOf j (runs_target R id attempt) db h =
      target_running_keeps R id (HasKeyOf j) attempt db h h
  store-HasKeyOf j (completes_target R id status result) db h =
      target_complete_keeps R id (HasKeyOf j) status result db h h
  store-HasKeyOf j (fails_target R id attempt error) db h =
      target_failed_keeps R id (HasKeyOf j) attempt error db h h

  pub perform_all-HasKeyOf :
      (j : JobRow) (os : List (Operation C)) (db : Database C.Json)
      → HasKeyOf j db
      → HasKeyOf j (perform_all os db)
  perform_all-HasKeyOf j [] db h = h
  perform_all-HasKeyOf j (o ∷ os) db h =
      perform_all-HasKeyOf j os (perform o db) (store-HasKeyOf j o db h)
