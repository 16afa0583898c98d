-- ===== src/Store/Jobs.antt =====
-- src/store.rs: cross-post jobs, from their enqueueing to their end.
pub mod Enqueue
pub mod Idempotency
pub mod Integrity
pub mod Race
pub mod Claims
use evgl_api.Base.{
  ℕ, suc, Bool, true, false, String, Option, none, some, List, [], ◌∷◌, not, ◌&&◌, ◌==◌, ltb, leb,
  str_eq, any, find, filter, count, sort_by, update_where, if◌then◌else◌,
}
use evgl_api.Rust.{format}
use evgl_api.Error.{unique_violation, foreign_key_violation, bad_request, not_found}
use evgl_api.Domain.{Crates, ProviderKind, PublishTarget}
use evgl_api.Database.{
  Refusals, claims_job, lists_targets, counts_rows, ends_job, execute, fetch, ConnectionRow,
  EventRow, JobRow, TargetRow, Database, Query, ◌>>=◌, ◌>>◌, gets, modify, refuse_if, found_or,
  pure, raise, transaction, same_job, same_key, same_target,
}
use evgl_api.Store.Connections.{is_users}

pub record EnqueueResult : Type 0 where
  pub job : JobRow
  pub created : Bool

abbrev pub has_key : ℕ → String → JobRow → Bool
has_key user_id key j = j.user_id == user_id && str_eq j.idempotency_key key

module _ {Json : Type 0} where
  -- INSERT INTO cross_post_jobs, under its two unique keys and its foreign key
  unfoldable pub insert_job : JobRow → Query Json JobRow
  insert_job job = do
    db ← gets (λ db. db)
    refuse_if (any (same_job job) db.cross_post_jobs) unique_violation
    refuse_if (any (same_key job) db.cross_post_jobs) unique_violation
    refuse_if (not (any (λ e. e.id == job.event_id) db.events)) foreign_key_violation
    modify (λ db. record db { cross_post_jobs = job ∷ db.cross_post_jobs })
    pure job

  -- INSERT INTO cross_post_targets, under its primary key and its two foreign keys
  unfoldable pub insert_target : TargetRow Json → Query Json (Unit {0})
  insert_target t = do
    db ← gets (λ db. db)
    refuse_if (any (same_target t) db.cross_post_targets) unique_violation
    refuse_if (not (any (λ j. j.id == t.job_id) db.cross_post_jobs)) foreign_key_violation
    refuse_if (not (any (λ c. c.id == t.connection_id) db.provider_connections))
        foreign_key_violation
    modify (λ db. record db { cross_post_targets = t ∷ db.cross_post_targets })

module _ (C : Crates) where
  unfoldable pub target_row : ℕ → ℕ → PublishTarget C.Json → TargetRow C.Json
  target_row id job_id target = record {
    id = id;
    job_id = job_id;
    connection_id = target.connection_id;
    provider = C.as_str target.provider;
    options = target.options;
    status = "queued";
    attempt = 0;
    result = none;
    error = none;
  }

  -- The body of the loop over the targets; `id` is the value of `Uuid::new_v4()`.
  unfoldable pub enqueue_target : ℕ → ℕ → ℕ → PublishTarget C.Json → Query C.Json (Unit {0})
  unfolding target_row insert_target
  enqueue_target user_id job_id id target = do
    row ← gets (λ db. find (is_users user_id target.connection_id) db.provider_connections)
    connection ←
        found_or
          (bad_request
            (format ("connection " ∷ C.show_uuid target.connection_id ∷ " was not found" ∷ [])))
          row
    (if str_eq connection.provider (C.as_str target.provider)
        then insert_target (target_row id job_id target)
        else raise (
            bad_request (
              format (
                "connection "
                ∷ C.show_uuid target.connection_id
                ∷ " belongs to "
                ∷ connection.provider
                ∷ ", not "
                ∷ C.show_provider target.provider
                ∷ []))))

  -- `for target in targets`; `fresh n` is the n-th Uuid that the loop draws
  unfoldable pub enqueue_targets :
      ℕ → ℕ → (ℕ → ℕ) → List (PublishTarget C.Json) → Query C.Json (Unit {0})
  unfolding enqueue_target
  enqueue_targets user_id job_id fresh [] = pure tt
  enqueue_targets user_id job_id fresh (target ∷ targets) =
      enqueue_target user_id job_id (fresh 0) target
      >> enqueue_targets user_id job_id (λ n. fresh (suc n)) targets

  unfoldable pub new_job : ℕ → ℕ → ℕ → ℕ → String → JobRow
  new_job now id user_id event_id key = record {
    id = id;
    user_id = user_id;
    event_id = event_id;
    idempotency_key = key;
    status = "queued";
    created_at = now;
    updated_at = now;
  }

  -- The branch of `enqueue_job` for a key that is new.
  unfoldable pub enqueue_new :
      ℕ → (ℕ → ℕ) → ℕ → ℕ → String → List (PublishTarget C.Json) → Query C.Json EnqueueResult
  unfolding new_job insert_job enqueue_targets
  enqueue_new now fresh user_id event_id key targets = do
    job ← insert_job (new_job now (fresh 0) user_id event_id key)
    enqueue_targets user_id (fresh 0) (λ n. fresh (suc n)) targets
    pure (record { job = job; created = true })

  -- `if let Some(existing)`
  unfoldable pub enqueue_unless :
      Option JobRow
      → ℕ
      → (ℕ → ℕ)
      → ℕ
      → ℕ
      → String
      → List (PublishTarget C.Json)
      → Query C.Json EnqueueResult
  enqueue_unless (some existing) now fresh user_id event_id key targets =
      pure (record { job = existing; created = false })
  enqueue_unless none now fresh user_id event_id key targets =
      enqueue_new now fresh user_id event_id key targets

  unfoldable pub enqueue_job :
      ℕ → (ℕ → ℕ) → ℕ → ℕ → String → List (PublishTarget C.Json) → Query C.Json EnqueueResult
  unfolding enqueue_unless
  enqueue_job now fresh user_id event_id key targets = transaction λ db.
      enqueue_unless (find (has_key user_id key) db.cross_post_jobs) now fresh user_id event_id key
        targets db

  -- The rest of `enqueue_job`'s transaction, after its first statement has found `read`, when other
  -- transactions may have committed in between.
  unfoldable pub enqueue_after :
      Option JobRow
      → ℕ
      → (ℕ → ℕ)
      → ℕ
      → ℕ
      → String
      → List (PublishTarget C.Json)
      → Query C.Json EnqueueResult
  unfolding enqueue_unless
  enqueue_after read now fresh user_id event_id key targets =
      transaction (enqueue_unless read now fresh user_id event_id key targets)

abbrev pub is_job : ℕ → JobRow → Bool
is_job job_id j = j.id == job_id

abbrev pub with_status : ℕ → String → JobRow → JobRow
with_status now status j = record j { status = status; updated_at = now }

abbrev pub is_users_job : ℕ → ℕ → JobRow → Bool
is_users_job user_id job_id j = j.id == job_id && j.user_id == user_id

-- The status that the counts of failed targets and of required actions decide.
unfoldable pub final_status : ℕ → ℕ → String
final_status failures actions =
    if ltb 0 failures then "failed" else if ltb 0 actions then "action_required" else "published"

module _ {Json : Type 0} where
  -- SELECT * FROM cross_post_targets WHERE job_id = $1 ORDER BY id
  abbrev pub targets_of : ℕ → Database Json → List (TargetRow Json)
  targets_of job_id db =
      sort_by (λ a b. leb a.id b.id) (filter (λ t. t.job_id == job_id) db.cross_post_targets)

  unfoldable pub get_job : ℕ → ℕ → Query Json (JobRow × List (TargetRow Json))
  get_job user_id job_id = do
    row ← gets (λ db. find (is_users_job user_id job_id) db.cross_post_jobs)
    job ← found_or (not_found "job not found") row
    targets ← gets (targets_of job_id)
    pure (job, targets)

  -- UPDATE cross_post_jobs SET status = .., updated_at = now() WHERE id = $1
  abbrev pub set_job_status : ℕ → ℕ → String → Database Json → Database Json
  set_job_status now job_id status db = record db {
    cross_post_jobs = update_where (is_job job_id) (with_status now status) db.cross_post_jobs;
  }

  unfoldable pub claim_targets : Refusals Json → ℕ → ℕ → Query Json (List (TargetRow Json))
  claim_targets refuses now job_id = do
    execute (refuses (claims_job job_id)) (set_job_status now job_id "running")
    fetch (refuses (lists_targets job_id)) (targets_of job_id)

  abbrev pub has_status : ℕ → String → TargetRow Json → Bool
  has_status job_id status t = t.job_id == job_id && str_eq t.status status

  unfoldable pub finish_job : Refusals Json → ℕ → ℕ → Query Json (Unit {0})
  unfolding final_status
  finish_job refuses now job_id = do
    failures ←
        fetch (refuses (counts_rows job_id "failed"))
          (λ db. count (has_status job_id "failed") db.cross_post_targets)
    actions ←
        fetch (refuses (counts_rows job_id "action_required"))
          (λ db. count (has_status job_id "action_required") db.cross_post_targets)
    execute (refuses (ends_job job_id (final_status failures actions)))
        (set_job_status now job_id (final_status failures actions))
