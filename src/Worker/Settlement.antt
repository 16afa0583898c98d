-- ===== src/Worker/Settlement.antt =====
-- What a run of the task of src/worker.rs leaves in the tables and tells its listeners.
use evgl_api.Base.{
  ℕ, Bool, some, List, ◌∷◌, ◌≡◌, ◌==◌, filter, find, sort_by, leb, not, if◌then◌else◌,
}
use evgl_api.Rust.{ok}
use evgl_api.Domain.{Crates}
use evgl_api.Database.{Database, JobRow, TargetRow}
use evgl_api.Store.Jobs.{is_users_job}
use evgl_api.Store.Targets.{status_name}
use evgl_api.Worker.{World, Env, Effect, run}
use evgl_api.Worker.Run.{summary, last_update, run-Stages}

-- A job, but for the status and the time of the one with the id.
abbrev pub unmarked : ℕ → JobRow → JobRow
unmarked job_id j = if j.id == job_id then record j { status = ""; updated_at = 0 } else j

module _ (C : Crates) (E : Env C) (job : JobRow) where
  abbrev is_foreign : TargetRow C.Json → Bool
  is_foreign t = not (t.job_id == job.id)

  abbrev claimed_of : List (TargetRow C.Json) → List (TargetRow C.Json)
  claimed_of rows = sort_by (λ a b. leb a.id b.id) (filter (λ t. t.job_id == job.id) rows)

  -- A run that returns leaves its job under the status that its targets decide, failed before
  -- action required before published, and its last act is an update with that same status on the
  -- job's channel.
  pub run_reports :
      (w w' : World C)
      → run C E job w ≡ (ok tt, w')
      → (current : JobRow) × (at : ℕ) × (trace : List (Effect C.Publication)) × (find
            (is_users_job job.user_id job.id)
            w'.db.cross_post_jobs
          ≡ some current)
        × (current.status ≡ status_name (summary job.id w'.db.cross_post_targets))
        × (w'.trace ≡ last_update C E job (summary job.id w'.db.cross_post_targets) at ∷ trace)
  run_reports w w' h =
      let s = run-Stages C E job w w' h in
      let f = s.finished_job in (f.current, f.at, s.after.trace, f.found, f.status, f.told)
