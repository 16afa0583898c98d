-- ===== src/Worker/Tells.antt =====
-- Where the updates of a run of the task of src/worker.rs go, and what the run keeps of the tables.
use evgl_api.Base.{List, [], ◌∷◌, ◌++◌, ◌≡◌, refl, ap, All}
use evgl_api.Domain.{Crates}
use evgl_api.Database.{Database, JobRow}
use evgl_api.Store.Jobs.{claim_targets, finish_job}
use evgl_api.Store.Targets.{target_running, target_complete, target_failed}
use evgl_api.Store.Operations.{
  StoreKeeps, claims_targets, finishes_job, runs_target, completes_target, fails_target,
}
use evgl_api.Worker.{World, Env, Effect, sent, requested, slept, run}
use evgl_api.Worker.Keep.{StepsKeep, run_keeps}

-- An update goes out on the channel of the job and names the job and its event.
abbrev pub IsAbout : {P : Type 0} → JobRow → Effect P → Type 0
IsAbout job (sent channel u) =
    (channel ≡ job.id) × (u.job_id ≡ job.id) × (u.event_id ≡ job.event_id)
IsAbout job (requested p) = Unit
IsAbout job (slept s) = Unit

module _ (C : Crates) (E : Env C) (job : JobRow) where
  -- What was done since a world is about the job.
  abbrev Adds : World C → World C → Type 0
  Adds w w' =
      (new : List (Effect C.Publication)) × (w'.trace ≡ new ++ w.trace) × All (IsAbout job) new

  steps-Adds : (w : World C) → StepsKeep job (Adds w)
  unfolding claim_targets finish_job target_running target_complete target_failed
  steps-Adds w = record {
    claims = λ R now w' h. h;
    finishes = λ R now w' h. h;
    starts = λ R id attempt w' h. h;
    completes = λ R id status value w' h. h;
    fails = λ R id attempt error w' h. h;
    sends = λ u w' same_job same_event (new, e, h).
        (sent job.id u ∷ new, ap (λ l. sent job.id u ∷ l) e, ((refl, same_job, same_event), h));
    asks = λ p w' (new, e, h). (requested p ∷ new, ap (λ l. requested p ∷ l) e, (tt, h));
    pauses = λ s w' (new, e, h). (slept s ∷ new, ap (λ l. slept s ∷ l) e, (tt, h));
  }

  -- Whatever providers answer and however a run ends, every update that it sends goes out on the
  -- channel of its own job, and names its own job and event.
  pub run-IsAbout :
      (w : World C)
      → (new : List (Effect C.Publication)) × ((run C E job w).1.trace ≡ new ++ w.trace)
        × All (IsAbout job) new
  run-IsAbout w = run_keeps C E job (Adds w) (steps-Adds w) w ([], refl, tt)

  steps-store :
      (P : Database C.Json → Type 0) → StoreKeeps C P → StepsKeep {C = C} job (λ w. P w.db)
  steps-store P keep = record {
    claims = λ R now w. keep (claims_targets R now job.id) w.db;
    finishes = λ R now w. keep (finishes_job R now job.id) w.db;
    starts = λ R id attempt w. keep (runs_target R id attempt) w.db;
    completes = λ R id status value w. keep (completes_target R id status value) w.db;
    fails = λ R id attempt error w. keep (fails_target R id attempt error) w.db;
    sends = λ u w same_job same_event h. h;
    asks = λ p w h. h;
    pauses = λ s w h. h;
  }

  pub run-StoreKeeps :
      (P : Database C.Json → Type 0)
      → StoreKeeps C P
      → (w : World C) → P w.db
      → P (run C E job w).1.db
  run-StoreKeeps P keep w h = run_keeps C E job (λ w. P w.db) (steps-store P keep) w h
