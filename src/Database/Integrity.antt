-- ===== src/Database/Integrity.antt =====
-- What the constraints of migrations/0001_initial.sql say of a whole database, and the ownership
-- that the application adds to them.
use evgl_api.Base.{ℕ, Bool, true, List, ◌≡◌, ◌&&◌, ◌==◌, str_eq, any, All}
use evgl_api.Base.Tables.{Distinct}
use evgl_api.Database.{
  Database, ConnectionRow, EventRow, JobRow, TargetRow, same_hash, same_connection, same_account,
  same_event, same_job, same_key, same_target,
}

module _ {Json : Type 0} where
  -- A connection that a target of a job of the user may publish through.
  abbrev pub owned_by : ℕ → TargetRow Json → ConnectionRow Json → Bool
  owned_by user t c = c.id == t.connection_id && c.user_id == user && str_eq c.provider t.provider

  abbrev pub job_owns : List (ConnectionRow Json) → TargetRow Json → JobRow → Bool
  job_owns connections t j = j.id == t.job_id && any (owned_by j.user_id t) connections

  -- The job of the target exists, and its connection is one of the job's user, for the provider.
  abbrev pub IsOwned : List (ConnectionRow Json) → List JobRow → TargetRow Json → Type 0
  IsOwned connections jobs t = any (job_owns connections t) jobs ≡ true

  abbrev pub HasEvent : List (EventRow Json) → JobRow → Type 0
  HasEvent events j = any (λ e. e.id == j.event_id) events ≡ true

  -- Keys are unique, foreign keys resolve, and every target is one of its job's user.
  pub record IsConsistent (db : Database Json) : Type 0 where
    pub sessions : Distinct same_hash db.oauth_sessions
    pub connections : Distinct same_connection db.provider_connections
    pub accounts : Distinct same_account db.provider_connections
    pub events : Distinct same_event db.events
    pub jobs : Distinct same_job db.cross_post_jobs
    pub keys : Distinct same_key db.cross_post_jobs
    pub jobs_event : All (HasEvent db.events) db.cross_post_jobs
    pub targets : Distinct same_target db.cross_post_targets
    pub targets_owned :
        All (IsOwned db.provider_connections db.cross_post_jobs) db.cross_post_targets
