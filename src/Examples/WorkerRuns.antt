-- ===== src/Examples/WorkerRuns.antt =====
-- The task at a job with one target, whose provider answers at the third attempt.
use evgl_api.Base.{
  any, str_eq, Option, none, ℕ, true, some, List, [], ◌∷◌, ◌++◌, ◌≡◌, refl, All, find, ◌+◌, ◌*◌,
  ◌≤◌, length, leb, if◌then◌else◌,
}
use evgl_api.Rust.{Result, ok, err}
use evgl_api.Error.{Cause, described, internal}
use evgl_api.Domain.{ProviderError, remote, other, PublicationStatus, action_required}
use evgl_api.Database.{JobRow, RunStatement, fails_row}
use evgl_api.Store.Jobs.{is_users_job, claim_targets, finish_job, get_job, targets_of}
use evgl_api.Store.Events.{get_event}
use evgl_api.Store.Connections.{get_connection}
use evgl_api.Store.Targets.{status_name, target_running, target_complete, target_failed}
use evgl_api.Worker.{World, Env, Effect, sent, requested, slept, is_retryable, run}
use evgl_api.Worker.Run.{summary, last_update}
use evgl_api.Worker.Settlement.{run_reports}
use evgl_api.Worker.Progress.{run_returns}
use evgl_api.Worker.Effort.{run_effort, requests, pauses}
use evgl_api.Worker.Tells.{IsAbout, run-IsAbout}
use evgl_api.Examples.Setup.{Json, crates, null, draft}
use evgl_api.Examples.StoreRuns.{job_row, with_queued, fields_1}

-- Busy until it has been asked twice.
abbrev answer : List (Effect PublicationStatus) → ℕ → Result PublicationStatus ProviderError
answer [] n = if leb n 1 then err (remote 503 "busy") else ok action_required
answer (requested _ ∷ trace) n = answer trace (n + 1)
answer (sent _ _ ∷ trace) n = answer trace n
answer (slept _ ∷ trace) n = answer trace n

abbrev env : Env crates
env = record {
  now = λ w. 40;
  refuses = λ w s. none;
  configured = λ p. true;
  decrypt = λ a e. ok e;
  publish = λ p t e c w. answer w.trace 0;
  show_cause = λ c. "";
}

abbrev start : World crates
start = record { db = with_queued; trace = [] }

abbrev end : World crates
end = (run crates env job_row start).1

ran : run crates env job_row start ≡ (ok tt, end)
unfolding run get_event claim_targets get_connection target_running is_retryable target_complete
    finish_job get_job status_name
ran = refl

ran_status : summary 20 end.db.cross_post_targets ≡ action_required
unfolding run get_event claim_targets get_connection target_running is_retryable target_complete
    finish_job get_job status_name
ran_status = refl

run_reports_example :
    (current : JobRow) × (at : ℕ) × (trace : List (Effect PublicationStatus)) × (find
        (is_users_job 7 20)
        end.db.cross_post_jobs
      ≡ some current)
    × (current.status ≡ status_name (summary 20 end.db.cross_post_targets))
    × (end.trace ≡ last_update crates env job_row (summary 20 end.db.cross_post_targets) at ∷ trace)
run_reports_example = run_reports crates env job_row start end ran

event_read : (get_event crates 7 3 with_queued).0 ≡ ok (draft fields_1)
unfolding get_event
event_read = refl

run_returns_example : (w' : World crates) × (run crates env job_row start ≡ (ok tt, w'))
run_returns_example =
    run_returns crates env job_row (λ p. (null, refl)) (λ w s. refl) start (draft fields_1)
      event_read refl

-- Three requests and the pauses of two and four seconds: the bounds are reached.
run_effort_example :
    (requests (run crates env job_row start).1.trace
      ≤ 3 * length (targets_of 20 with_queued) + requests start.trace)
    × (pauses (run crates env job_row start).1.trace
        ≤ 6 * length (targets_of 20 with_queued) + pauses start.trace)
run_effort_example = run_effort crates env job_row start

effort_reached : (requests end.trace ≡ 3) × (pauses end.trace ≡ 6)
unfolding run get_event claim_targets get_connection target_running is_retryable target_complete
    finish_job get_job status_name
effort_reached = (refl, refl)

run-IsAbout_example :
    (new : List (Effect PublicationStatus)) × ((run crates env job_row start).1.trace
      ≡ new ++ start.trace)
    × All (IsAbout job_row) new
run-IsAbout_example = run-IsAbout crates env job_row start

-- A provider's error text that the database refuses ends the run, and leaves its target running.
abbrev refuse_failures : RunStatement Json → Option Cause
refuse_failures (fails_row id attempt error) = some (described "invalid byte sequence")
refuse_failures _ = none

abbrev refusing : Env crates
refusing = record env { refuses = λ w. refuse_failures; publish = λ p t e c w. err (other "text") }

refused_failure :
    ((run crates refusing job_row start).0 ≡ err (internal (described "invalid byte sequence")))
    × (any
          (λ t. str_eq t.status "running")
          (run crates refusing job_row start).1.db.cross_post_targets
        ≡ true)
unfolding run get_event claim_targets get_connection target_running is_retryable target_failed
refused_failure = (refl, refl)
