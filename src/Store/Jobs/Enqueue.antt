-- ===== src/Store/Jobs/Enqueue.antt =====
-- What `enqueue_job` of src/store.rs leaves in the tables.
use evgl_api.Base.{
  ℕ, suc, true, false, List, [], ◌∷◌, ◌≡◌, refl, none, arith, find, any, ap, sym, ◌∙◌, String, ◌==◌,
  inl, inr, Option-cases,
}
use evgl_api.Rust.{ok}
use evgl_api.Domain.{Crates, PublishTarget}
use evgl_api.Database.{
  Database, JobRow, TargetRow, same_target, same_job, same_key, >>=-eq-ok, pure-injective,
}
use evgl_api.Database.Integrity.{owned_by}
use evgl_api.Base.Tables.{find_passes, any_of_find}
use evgl_api.Store.Connections.{is_users}
use evgl_api.Store.Jobs.{
  EnqueueResult, target_row, enqueue_target, enqueue_targets, new_job, insert_job, enqueue_new,
}

module _ (C : Crates) where
  -- The rows of the targets on top of the rows before them, the last target first.
  abbrev pub queued_rows :
      ℕ → (ℕ → ℕ) → List (PublishTarget C.Json) → List (TargetRow C.Json) → List (TargetRow C.Json)
  queued_rows job_id fresh [] rows = rows
  queued_rows job_id fresh (t ∷ ts) rows =
      queued_rows job_id (λ n. fresh (suc n)) ts (target_row C (fresh 0) job_id t ∷ rows)

  module _ (user_id job_id id : ℕ) (target : PublishTarget C.Json) (db : Database C.Json) where
    abbrev pub row : TargetRow C.Json
    row = target_row C id job_id target

    -- A target that is enqueued is a new row, and its connection is one of the user's.
    pub record Enqueued (db' : Database C.Json) : Type 0 where
      pub added : db' ≡ record db { cross_post_targets = row ∷ db.cross_post_targets }
      pub fresh : any (same_target row) db.cross_post_targets ≡ false
      pub owned : any (owned_by user_id row) db.provider_connections ≡ true

    pub enqueue_target-Enqueued :
        (db' : Database C.Json)
        → enqueue_target C user_id job_id id target db ≡ (ok tt, db')
        → Enqueued db'
    unfolding enqueue_target
    enqueue_target-Enqueued db' h =
        elim (Option-cases (find (is_users user_id target.connection_id) db.provider_connections)) [
          | inl missing ↦ ground arith
          | inr (c, found) ↦ record {
            added = ground arith;
            fresh = ground arith;
            owned = ground (
              arith,
              find_passes (is_users user_id target.connection_id) db.provider_connections found,
              any_of_find (is_users user_id target.connection_id) (owned_by user_id row)
                  db.provider_connections found,
            );
          }
        ]

  pub enqueue_targets_rows :
      (user_id job_id : ℕ) (fresh : ℕ → ℕ) (targets : List (PublishTarget C.Json))
      (db db' : Database C.Json)
      → enqueue_targets C user_id job_id fresh targets db ≡ (ok tt, db')
      → db'
        ≡ record db { cross_post_targets = queued_rows job_id fresh targets db.cross_post_targets }
  unfolding enqueue_targets
  enqueue_targets_rows user_id job_id fresh [] db db' h = ground arith
  enqueue_targets_rows user_id job_id fresh (t ∷ ts) db db' h =
      let first = enqueue_target C user_id job_id (fresh 0) t in
      let (_, e, rest) = >>=-eq-ok first (λ _. enqueue_targets C user_id job_id _ ts) db h in
      enqueue_targets_rows user_id job_id (λ n. fresh (suc n)) ts (first db).1 db' rest
      ∙ ap
          (λ (d : Database C.Json). record d {
            cross_post_targets = queued_rows job_id (λ n. fresh (suc n)) ts d.cross_post_targets;
          })
          (enqueue_target-Enqueued user_id job_id (fresh 0) t db (first db).1 e).added

-- A job that is inserted is a new row with a new key, for an event that exists.
pub record Inserted {Json : Type 0} (job : JobRow) (db db' : Database Json) : Type 0 where
  pub added : db' ≡ record db { cross_post_jobs = job ∷ db.cross_post_jobs }
  pub fresh : any (same_job job) db.cross_post_jobs ≡ false
  pub new_key : any (same_key job) db.cross_post_jobs ≡ false
  pub event : any (λ e. e.id == job.event_id) db.events ≡ true

pub insert_job-Inserted :
    {Json : Type 0} (job j : JobRow) (db db' : Database Json)
    → insert_job job db ≡ (ok j, db')
    → (j ≡ job) × Inserted job db db'
unfolding insert_job
insert_job-Inserted job j db db' h = (
  ground arith,
  record {
    added = ground arith;
    fresh = ground arith;
    new_key = ground arith;
    event = ground arith;
  },
)

module _ (C : Crates) (now : ℕ) (fresh : ℕ → ℕ) (user_id event_id : ℕ) (key : String)
    (targets : List (PublishTarget C.Json)) (db : Database C.Json) where
  abbrev pub job : JobRow
  job = new_job C now (fresh 0) user_id event_id key

  -- The database with the new job and one queued row for each target.
  abbrev pub with_job : Database C.Json
  with_job = record db {
    cross_post_jobs = job ∷ db.cross_post_jobs;
    cross_post_targets = queued_rows C (fresh 0) (λ n. fresh (suc n)) targets db.cross_post_targets;
  }

  -- Inversion of `enqueue_new`: the job is inserted, then its targets are enqueued.
  pub enqueue_new-parts :
      (r : EnqueueResult) (db' : Database C.Json)
      → enqueue_new C now fresh user_id event_id key targets db ≡ (ok r, db')
      → (r ≡ record { job = job; created = true })
        × Inserted job db (insert_job job db).1
        × (enqueue_targets C user_id (fresh 0) (λ n. fresh (suc n)) targets (insert_job job db).1
            ≡ (ok tt, db'))
  unfolding enqueue_new
  enqueue_new-parts r db' h =
      let (j, e, k) = >>=-eq-ok (insert_job job) _ db h in
      let (same, inserted) = insert_job-Inserted job j db (insert_job job db).1 e in
      let rest = enqueue_targets C user_id (fresh 0) (λ n. fresh (suc n)) targets in
      let (_, e', k') = >>=-eq-ok rest _ (insert_job job db).1 k in
      let (value, state) = pure-injective k' in
      (
        sym value ∙ ap (λ (j : JobRow). record { job = j; created = true }) same,
        inserted,
        e' ∙ ap (λ (d : Database C.Json). (ok tt, d)) state,
      )

  pub enqueue_new_lem :
      (r : EnqueueResult) (db' : Database C.Json)
      → enqueue_new C now fresh user_id event_id key targets db ≡ (ok r, db')
      → (r ≡ record { job = job; created = true }) × (db' ≡ with_job)
  enqueue_new_lem r db' h =
      let (made, inserted, rest) = enqueue_new-parts r db' h in
      (
        made,
        enqueue_targets_rows C user_id (fresh 0) (λ n. fresh (suc n)) targets (insert_job job db).1
              db' rest
            ∙ ap
                (λ (d : Database C.Json). record d {
                  cross_post_targets =
                      queued_rows C (fresh 0) (λ n. fresh (suc n)) targets d.cross_post_targets;
                })
                inserted.added,
      )

-- The rows that a new job comes with, column by column.
abbrev pub queued_job : ℕ → ℕ → ℕ → ℕ → String → JobRow
queued_job now id user_id event_id key = record {
  id = id;
  user_id = user_id;
  event_id = event_id;
  idempotency_key = key;
  status = "queued";
  created_at = now;
  updated_at = now;
}

module _ (C : Crates) where
  abbrev pub queued_target : ℕ → ℕ → PublishTarget C.Json → TargetRow C.Json
  queued_target id job_id target = record {
    id = id;
    job_id = job_id;
    connection_id = target.connection_id;
    provider = C.as_str target.provider;
    options = target.options;
    status = "queued";
    attempt = 0;
    result = none;
    error = none;
  }

  -- One row for each target, under an id of its own, on top of the rows before, the last first.
  abbrev pub with_queued_targets :
      ℕ → (ℕ → ℕ) → List (PublishTarget C.Json) → List (TargetRow C.Json) → List (TargetRow C.Json)
  with_queued_targets job_id fresh [] rows = rows
  with_queued_targets job_id fresh (t ∷ ts) rows =
      with_queued_targets job_id (λ n. fresh (suc n)) ts (queued_target (fresh 0) job_id t ∷ rows)

  pub queued_rows-eq :
      (job_id : ℕ) (fresh : ℕ → ℕ) (targets : List (PublishTarget C.Json))
      (rows : List (TargetRow C.Json))
      → queued_rows C job_id fresh targets rows ≡ with_queued_targets job_id fresh targets rows
  unfolding target_row
  queued_rows-eq job_id fresh [] rows = refl
  queued_rows-eq job_id fresh (t ∷ ts) rows =
      queued_rows-eq job_id (λ n. fresh (suc n)) ts (target_row C (fresh 0) job_id t ∷ rows)
