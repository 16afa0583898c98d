-- ===== src/Store/Jobs/Idempotency.antt =====
-- `enqueue_job` of src/store.rs under retries and failures.
use evgl_api.Base.{
  ℕ, suc, ◌∷◌, true, false, String, none, some, List, ◌≡◌, refl, arith, find, ap, sym, ◌∙◌, inl,
  inr, ◌⊎◌, Option, str_eq_iff,
}
use evgl_api.Rust.{ok, err}
use evgl_api.Domain.{Crates, PublishTarget}
use evgl_api.Error.{ApiError}
use evgl_api.Database.{Database, JobRow, TargetRow, settle-eq-ok, settle-eq-err, pure-injective}
use evgl_api.Store.Jobs.{EnqueueResult, has_key, new_job, enqueue_unless, enqueue_job}
use evgl_api.Store.Jobs.Enqueue.{
  with_job, enqueue_new_lem, queued_job, with_queued_targets, queued_rows-eq,
}

has_key-new_job :
    (C : Crates) (now id user_id event_id : ℕ) (key : String)
    → has_key user_id key (new_job C now id user_id event_id key) ≡ true
unfolding new_job
has_key-new_job C now id user_id event_id key = ground (arith, str_eq_iff key key)

enqueue_job_existing :
    (C : Crates) (now : ℕ) (fresh : ℕ → ℕ) (user_id event_id : ℕ) (key : String)
    (targets : List (PublishTarget C.Json)) (db : Database C.Json) (j : JobRow)
    → find (has_key user_id key) db.cross_post_jobs ≡ some j
    → enqueue_job C now fresh user_id event_id key targets db
      ≡ (ok (record { job = j; created = false }), db)
unfolding enqueue_job enqueue_unless
enqueue_job_existing C now fresh user_id event_id key targets db j found =
    rw (found, enqueue_unless)

module _ (C : Crates) (now : ℕ) (fresh : ℕ → ℕ) (user_id event_id : ℕ) (key : String)
    (targets : List (PublishTarget C.Json)) (db : Database C.Json) where
  -- A call that fails, for whatever reason and after however many targets, changes nothing.
  pub enqueue_job_atomic :
      (e : ApiError) (db' : Database C.Json)
      → enqueue_job C now fresh user_id event_id key targets db ≡ (err e, db')
      → db' ≡ db
  unfolding enqueue_job
  enqueue_job_atomic e db' h = settle-eq-err _ db h

  enqueue_unless_lem :
      (o : Option JobRow)
      → find (has_key user_id key) db.cross_post_jobs ≡ o
      → (r : EnqueueResult) (db' : Database C.Json)
      → enqueue_unless C o now fresh user_id event_id key targets db ≡ (ok r, db')
      → ((find (has_key user_id key) db.cross_post_jobs ≡ some r.job)
          × (r.created ≡ false)
          × (db' ≡ db))
        ⊎ ((find (has_key user_id key) db.cross_post_jobs ≡ none)
            × (r ≡ record { job = new_job C now (fresh 0) user_id event_id key; created = true })
            × (db' ≡ with_job C now fresh user_id event_id key targets db))
  unfolding enqueue_unless
  enqueue_unless_lem (some j) found r db' h =
      let (value, state) = pure-injective h in
      inl (
        found ∙ ap (λ (r : EnqueueResult). some r.job) value,
        sym (ap (λ (r : EnqueueResult). r.created) value),
        sym state,
      )
  enqueue_unless_lem none found r db' h =
      let (value, state) = enqueue_new_lem C now fresh user_id event_id key targets db r db' h in
      inr (found, value, state)

  pub enqueue_job_ways :
      (r : EnqueueResult) (db' : Database C.Json)
      → enqueue_job C now fresh user_id event_id key targets db ≡ (ok r, db')
      → ((find (has_key user_id key) db.cross_post_jobs ≡ some r.job)
          × (r.created ≡ false)
          × (db' ≡ db))
        ⊎ ((find (has_key user_id key) db.cross_post_jobs ≡ none)
            × (r ≡ record { job = new_job C now (fresh 0) user_id event_id key; created = true })
            × (db' ≡ with_job C now fresh user_id event_id key targets db))
  unfolding enqueue_job
  enqueue_job_ways r db' h =
      enqueue_unless_lem (find (has_key user_id key) db.cross_post_jobs) refl r db'
        (settle-eq-ok _ db h)

  -- A call that returns found the key of the user and changed nothing, or the key was new and the
  -- job and a row for each target were added, with nothing else changed: the job and the targets are
  -- queued, at the time of the call, no target has been attempted, and each has the connection, the
  -- provider and the options asked for.
  pub enqueue_job_lem :
      (r : EnqueueResult) (db' : Database C.Json)
      → enqueue_job C now fresh user_id event_id key targets db ≡ (ok r, db')
      → ((find (has_key user_id key) db.cross_post_jobs ≡ some r.job)
          × (r.created ≡ false)
          × (db' ≡ db))
        ⊎ ((find (has_key user_id key) db.cross_post_jobs ≡ none)
            × (r ≡ record { job = queued_job now (fresh 0) user_id event_id key; created = true })
            × (db' ≡ record db {
              cross_post_jobs = queued_job now (fresh 0) user_id event_id key ∷ db.cross_post_jobs;
              cross_post_targets =
                  with_queued_targets C
                    (fresh 0)
                    (λ n. fresh (suc n))
                    targets
                    db.cross_post_targets;
            }))
  unfolding new_job
  enqueue_job_lem r db' h = elim (enqueue_job_ways r db' h) [
    | inl known ↦ inl known
    | inr (new, value, state) ↦ inr (
      new,
      value,
      state
          ∙ ap
              (λ (rows : List (TargetRow C.Json)). record db {
                cross_post_jobs =
                    queued_job now (fresh 0) user_id event_id key ∷ db.cross_post_jobs;
                cross_post_targets = rows;
              })
              (queued_rows-eq C (fresh 0) (λ n. fresh (suc n)) targets db.cross_post_targets),
    )
  ]

  enqueue_job_stored :
      (r : EnqueueResult) (db' : Database C.Json)
      → enqueue_job C now fresh user_id event_id key targets db ≡ (ok r, db')
      → find (has_key user_id key) db'.cross_post_jobs ≡ some r.job
  enqueue_job_stored r db' h = elim (enqueue_job_ways r db' h) [
    | inl (found, _, same) ↦ rw (same) found
    | inr (new, value, state) ↦ rw (state, value, has_key-new_job)
  ]

  -- A retry with the same key, at any later time and with any event and targets, returns the job of
  -- the first call, creates nothing and changes nothing.
  pub enqueue_job_retry :
      (r : EnqueueResult) (db' : Database C.Json)
      → enqueue_job C now fresh user_id event_id key targets db ≡ (ok r, db')
      → (now' : ℕ) (fresh' : ℕ → ℕ) (event_id' : ℕ) (targets' : List (PublishTarget C.Json))
      → enqueue_job C now' fresh' user_id event_id' key targets' db'
        ≡ (ok (record { job = r.job; created = false }), db')
  enqueue_job_retry r db' h now' fresh' event_id' targets' =
      enqueue_job_existing C now' fresh' user_id event_id' key targets' db' r.job
        (enqueue_job_stored r db' h)
