-- ===== src/Store/Targets.antt =====
-- src/store.rs: the progress of one target.
pub mod Updates
use evgl_api.Base.{ℕ, String, none, some, ◌==◌, update_where}
use evgl_api.Domain.{
  PublicationStatus, queued, running, published, action_required, retrying, failed,
}
use evgl_api.Database.{
  TargetRow, Database, Query, Refusals, runs_row, completes_row, fails_row, execute,
}

unfoldable pub status_name : PublicationStatus → String
status_name queued = "queued"
status_name running = "running"
status_name published = "published"
status_name action_required = "action_required"
status_name retrying = "retrying"
status_name failed = "failed"

module _ {Json : Type 0} where
  -- UPDATE cross_post_targets SET .. WHERE id = $1
  abbrev pub update_target : ℕ → (TargetRow Json → TargetRow Json) → Database Json → Database Json
  update_target target_id f db = record db {
    cross_post_targets = update_where (λ t. t.id == target_id) f db.cross_post_targets;
  }

  -- The row after each of the three.
  abbrev pub running_row : ℕ → TargetRow Json → TargetRow Json
  running_row attempt t = record t { status = "running"; attempt = attempt; error = none }

  abbrev pub complete_row : PublicationStatus → Json → TargetRow Json → TargetRow Json
  complete_row status result t = record t {
    status = status_name status;
    result = some result;
    error = none;
  }

  abbrev pub failed_row : ℕ → String → TargetRow Json → TargetRow Json
  failed_row attempt error t = record t { status = "failed"; attempt = attempt; error = some error }

  unfoldable pub target_running : Refusals Json → ℕ → ℕ → Query Json (Unit {0})
  target_running refuses target_id attempt =
      execute (refuses (runs_row target_id attempt)) (update_target target_id (running_row attempt))

  unfoldable pub target_complete :
      Refusals Json → ℕ → PublicationStatus → Json → Query Json (Unit {0})
  target_complete refuses target_id status result =
      execute (refuses (completes_row target_id (status_name status) result))
        (update_target target_id (complete_row status result))

  unfoldable pub target_failed : Refusals Json → ℕ → ℕ → String → Query Json (Unit {0})
  target_failed refuses target_id attempt error =
      execute (refuses (fails_row target_id attempt error))
        (update_target target_id (failed_row attempt error))
