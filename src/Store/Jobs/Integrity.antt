-- ===== src/Store/Jobs/Integrity.antt =====
-- The job functions of src/store.rs keep the database consistent: keys stay unique, references
-- resolve, and every target goes through a connection of its job's user.
use evgl_api.Base.{
  ℕ, suc, Bool, true, String, Option, none, some, List, [], ◌∷◌, ◌≡◌, refl, arith, any, ◌&&◌, ◌==◌,
  subst, sym, find, ◌∙◌,
}
use evgl_api.Base.Tables.{Distinct-update, All-update, All-mono, any-update, any_mono}
use evgl_api.Rust.{ok}
use evgl_api.Domain.{Crates, PublishTarget}
use evgl_api.Database.{
  Refusals, ConnectionRow, Database, JobRow, settle-keep, >>=-eq-ok, same_job, same_key,
  pure-injective,
}
use evgl_api.Database.Integrity.{IsConsistent, IsOwned, HasEvent, owned_by, job_owns}
use evgl_api.Store.Jobs.{
  target_row, enqueue_target, enqueue_targets, insert_job, new_job, enqueue_unless, enqueue_after,
  enqueue_job, set_job_status, is_job, with_status, has_key, claim_targets, finish_job,
  EnqueueResult,
}
use evgl_api.Store.Jobs.Claims.{claim_targets_keeps, finish_job_keeps}
use evgl_api.Store.Jobs.Enqueue.{Enqueued, enqueue_target-Enqueued, Inserted, enqueue_new-parts}

-- The job of the targets that are being enqueued.
abbrev is_job_of : ℕ → ℕ → JobRow → Bool
is_job_of user_id job_id j = j.id == job_id && j.user_id == user_id

is_job_of-new_job :
    (C : Crates) (now id user_id event_id : ℕ) (key : String) (jobs : List JobRow)
    → any (is_job_of user_id id) (new_job C now id user_id event_id key ∷ jobs) ≡ true
unfolding new_job
is_job_of-new_job C now id user_id event_id key jobs = ground arith

module _ (C : Crates) (user_id job_id : ℕ) where
  row-IsOwned :
      (id : ℕ) (t : PublishTarget C.Json) (connections : List (ConnectionRow C.Json))
      (jobs : List JobRow)
      → any (is_job_of user_id job_id) jobs ≡ true
      → any (owned_by user_id (target_row C id job_id t)) connections ≡ true
      → IsOwned connections jobs (target_row C id job_id t)
  unfolding target_row
  row-IsOwned id t connections jobs present owned =
      any_mono (is_job_of user_id job_id) (job_owns connections (target_row C id job_id t)) jobs
        (λ j h. ground arith) present

  Enqueued-IsConsistent :
      (id : ℕ) (t : PublishTarget C.Json) (db db' : Database C.Json)
      → any (is_job_of user_id job_id) db.cross_post_jobs ≡ true
      → Enqueued C user_id job_id id t db db'
      → IsConsistent db
      → IsConsistent db'
  Enqueued-IsConsistent id t db db' present e h = subst IsConsistent (sym e.added) record {
    sessions = h.sessions;
    connections = h.connections;
    accounts = h.accounts;
    events = h.events;
    jobs = h.jobs;
    keys = h.keys;
    jobs_event = h.jobs_event;
    targets = (e.fresh, h.targets);
    targets_owned = (row-IsOwned id t _ _ present e.owned, h.targets_owned);
  }

  enqueue_targets-IsConsistent :
      (fresh : ℕ → ℕ) (targets : List (PublishTarget C.Json)) (db db' : Database C.Json)
      → any (is_job_of user_id job_id) db.cross_post_jobs ≡ true
      → enqueue_targets C user_id job_id fresh targets db ≡ (ok tt, db')
      → IsConsistent db
      → IsConsistent db'
  unfolding enqueue_targets
  enqueue_targets-IsConsistent fresh [] db db' present e h =
      subst IsConsistent (pure-injective e).1 h
  enqueue_targets-IsConsistent fresh (t ∷ ts) db db' present e h =
      let first = enqueue_target C user_id job_id (fresh 0) t in
      let (_, e₁, rest) = >>=-eq-ok first (λ _. enqueue_targets C user_id job_id _ ts) db e in
      let added = enqueue_target-Enqueued C user_id job_id (fresh 0) t db (first db).1 e₁ in
      enqueue_targets-IsConsistent (λ n. fresh (suc n)) ts (first db).1 db'
        (rw (added.added) present) rest
        (Enqueued-IsConsistent (fresh 0) t db (first db).1 present added h)

Inserted-IsConsistent :
    {Json : Type 0} (j : JobRow) (db db' : Database Json)
    → Inserted j db db'
    → IsConsistent db
    → IsConsistent db'
Inserted-IsConsistent j db db' i h = subst IsConsistent (sym i.added) record {
  sessions = h.sessions;
  connections = h.connections;
  accounts = h.accounts;
  events = h.events;
  jobs = (i.fresh, h.jobs);
  keys = (i.new_key, h.keys);
  jobs_event = (i.event, h.jobs_event);
  targets = h.targets;
  targets_owned =
      All-mono (IsOwned db.provider_connections db.cross_post_jobs) _ db.cross_post_targets
        (λ t o. ground arith) h.targets_owned;
}

module _ (C : Crates) (now : ℕ) (fresh : ℕ → ℕ) (user_id event_id : ℕ) (key : String)
    (targets : List (PublishTarget C.Json)) where
  enqueue_unless-IsConsistent :
      (o : Option JobRow) (db : Database C.Json) (r : EnqueueResult) (db' : Database C.Json)
      → enqueue_unless C o now fresh user_id event_id key targets db ≡ (ok r, db')
      → IsConsistent db
      → IsConsistent db'
  unfolding enqueue_unless
  enqueue_unless-IsConsistent (some j) db r db' e h = subst IsConsistent (pure-injective e).1 h
  enqueue_unless-IsConsistent none db r db' e h =
      let (_, inserted, rest) =
        enqueue_new-parts C now fresh user_id event_id key targets db r db' e in
      let j = new_job C now (fresh 0) user_id event_id key in
      enqueue_targets-IsConsistent C user_id (fresh 0) (λ n. fresh (suc n)) targets
        (insert_job j db).1 db'
        (rw (inserted.added)
          (is_job_of-new_job C now (fresh 0) user_id event_id key db.cross_post_jobs))
        rest (Inserted-IsConsistent j db (insert_job j db).1 inserted h)

  -- Whatever the call is given and however it ends, the database stays consistent: in particular a
  -- queued target always goes through a connection of the job's own user, for the provider named.
  pub enqueue_job-IsConsistent :
      (db : Database C.Json)
      → IsConsistent db
      → IsConsistent (enqueue_job C now fresh user_id event_id key targets db).1
  unfolding enqueue_job
  enqueue_job-IsConsistent db h =
      settle-keep IsConsistent
        (enqueue_unless C (find (has_key user_id key) db.cross_post_jobs) now fresh user_id event_id
          key targets db)
        db (λ r db' e. enqueue_unless-IsConsistent _ db r db' e h) h

  -- That holds as well when other transactions commit between its first statement and the rest.
  pub enqueue_after-IsConsistent :
      (read : Option JobRow) (db : Database C.Json)
      → IsConsistent db
      → IsConsistent (enqueue_after C read now fresh user_id event_id key targets db).1
  unfolding enqueue_after
  enqueue_after-IsConsistent read db h =
      settle-keep IsConsistent (enqueue_unless C read now fresh user_id event_id key targets db) db
        (λ r db' e. enqueue_unless-IsConsistent read db r db' e h) h

module _ {Json : Type 0} (now job_id : ℕ) where
  set_job_status-IsConsistent :
      (status : String) (db : Database Json)
      → IsConsistent db
      → IsConsistent (set_job_status now job_id status db)
  set_job_status-IsConsistent status db h = record {
    sessions = h.sessions;
    connections = h.connections;
    accounts = h.accounts;
    events = h.events;
    jobs =
        Distinct-update same_job (is_job job_id) (with_status now status) db.cross_post_jobs
          (λ x y. refl) (λ x y. refl) h.jobs;
    keys =
        Distinct-update same_key (is_job job_id) (with_status now status) db.cross_post_jobs
          (λ x y. refl) (λ x y. refl) h.keys;
    jobs_event =
        All-update (HasEvent db.events) (is_job job_id) (with_status now status) db.cross_post_jobs
          (λ j e. e) h.jobs_event;
    targets = h.targets;
    targets_owned =
        All-mono (IsOwned db.provider_connections db.cross_post_jobs) _ db.cross_post_targets
          (λ t o.
            any-update (job_owns db.provider_connections t) (is_job job_id) (with_status now status)
              db.cross_post_jobs (λ j. refl)
            ∙ o)
          h.targets_owned;
  }

  -- Claiming and finishing a job change only its status, and keep the database consistent.
  pub claim_targets-IsConsistent :
      (R : Refusals Json) (db : Database Json)
      → IsConsistent db
      → IsConsistent (claim_targets R now job_id db).1
  claim_targets-IsConsistent R db h =
      claim_targets_keeps R now job_id db IsConsistent h
        (set_job_status-IsConsistent "running" db h)

  pub finish_job-IsConsistent :
      (R : Refusals Json) (db : Database Json)
      → IsConsistent db
      → IsConsistent (finish_job R now job_id db).1
  finish_job-IsConsistent R db h =
      finish_job_keeps R now job_id db IsConsistent h
        (λ status. set_job_status-IsConsistent status db h)
