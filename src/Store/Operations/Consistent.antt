-- ===== src/Store/Operations/Consistent.antt =====
-- Every run of the functions of src/store.rs keeps the tables consistent.
use evgl_api.Base.{ℕ, String, refl, none, some}
use evgl_api.Domain.{Crates, PublicationStatus}
use evgl_api.Database.{Database, Refusals}
use evgl_api.Database.Integrity.{IsConsistent}
use evgl_api.Store.Sessions.Integrity.{
  create_oauth_session-IsConsistent, consume_oauth_session-IsConsistent,
}
use evgl_api.Store.Connections.Integrity.{
  upsert_connection-IsConsistent, delete_connection-IsConsistent,
}
use evgl_api.Store.Events.Integrity.{create_event-IsConsistent}
use evgl_api.Store.Jobs.Integrity.{
  enqueue_job-IsConsistent, enqueue_after-IsConsistent, claim_targets-IsConsistent,
  finish_job-IsConsistent,
}
use evgl_api.Store.Targets.{target_running, target_complete, target_failed, status_name}
use evgl_api.Store.Targets.Updates.{
  update_target-IsConsistent, target_running_keeps, target_complete_keeps, target_failed_keeps,
}
use evgl_api.Store.Operations.{
  creates_session, consumes_session, upserts_connection, deletes_connection, creates_event,
  enqueues_job, enqueues_after, claims_targets, finishes_job, runs_target, completes_target,
  fails_target, StoreKeeps,
}

module _ {Json : Type 0} (R : Refusals Json) (id : ℕ) (db : Database Json)
    (h : IsConsistent db) where
  target_running-IsConsistent : (attempt : ℕ) → IsConsistent (target_running R id attempt db).1
  target_running-IsConsistent attempt = target_running_keeps R id IsConsistent attempt db h (
      update_target-IsConsistent id
        (λ t. record t { status = "running"; attempt = attempt; error = none }) db
        (λ t. record {
          id = refl;
          job_id = refl;
          connection_id = refl;
          provider = refl;
          options = refl;
        })
        h)

  target_complete-IsConsistent :
      (status : PublicationStatus) (result : Json)
      → IsConsistent (target_complete R id status result db).1
  target_complete-IsConsistent status result =
      target_complete_keeps R id IsConsistent status result db h (
        update_target-IsConsistent id
          (λ t. record t { status = status_name status; result = some result; error = none }) db
          (λ t. record {
            id = refl;
            job_id = refl;
            connection_id = refl;
            provider = refl;
            options = refl;
          })
          h)

  target_failed-IsConsistent :
      (attempt : ℕ) (error : String) → IsConsistent (target_failed R id attempt error db).1
  target_failed-IsConsistent attempt error =
      target_failed_keeps R id IsConsistent attempt error db h (
        update_target-IsConsistent id
          (λ t. record t { status = "failed"; attempt = attempt; error = some error }) db
          (λ t. record {
            id = refl;
            job_id = refl;
            connection_id = refl;
            provider = refl;
            options = refl;
          })
          h)

module _ (C : Crates) where
  pub store-IsConsistent : StoreKeeps C IsConsistent
  store-IsConsistent (creates_session now hash user provider verifier uses_pkce) db h =
      create_oauth_session-IsConsistent C now hash user provider verifier uses_pkce db h
  store-IsConsistent (consumes_session now hash) db h =
      consume_oauth_session-IsConsistent now hash db h
  store-IsConsistent (upserts_connection now id user provider key name metadata envelope) db h =
      upsert_connection-IsConsistent C now id user provider key name metadata envelope db h
  store-IsConsistent (deletes_connection user id) db h = delete_connection-IsConsistent user id db h
  store-IsConsistent (creates_event now event) db h = create_event-IsConsistent C now event db h
  store-IsConsistent (enqueues_job now fresh user event_id key targets) db h =
      enqueue_job-IsConsistent C now fresh user event_id key targets db h
  store-IsConsistent (enqueues_after read now fresh user event_id key targets) db h =
      enqueue_after-IsConsistent C now fresh user event_id key targets read db h
  store-IsConsistent (claims_targets R now job_id) db h =
      claim_targets-IsConsistent now job_id R db h
  store-IsConsistent (finishes_job R now job_id) db h = finish_job-IsConsistent now job_id R db h
  store-IsConsistent (runs_target R id attempt) db h = target_running-IsConsistent R id db h attempt
  store-IsConsistent (completes_target R id status result) db h =
      target_complete-IsConsistent R id db h status result
  store-IsConsistent (fails_target R id attempt error) db h =
      target_failed-IsConsistent R id db h attempt error
