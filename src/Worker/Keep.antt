-- ===== src/Worker/Keep.antt =====
-- What a run of the task of src/worker.rs keeps, by what its steps keep: the store's functions that it
-- calls, its updates, its requests and its pauses.
use evgl_api.Base.{
  ℕ, zero, suc, ◌≡◌, refl, sym, subst, ◌^◌, ◌&&◌, ◌==◌, ltb, String, Option, none, some, List, [],
  ◌∷◌, find, Bool-cases, Option-cases, inl, inr,
}
use evgl_api.Rust.{Result, ok, err, Result-cases}
use evgl_api.Error.{ApiError}
use evgl_api.Domain.{
  Crates, EventDraft, ProviderKind, ProviderError, PublicationStatus, running, PublishContext,
  JobUpdate,
}
use evgl_api.Database.{
  Database, ConnectionRow, JobRow, TargetRow, Refusals, unless_refused-state, reads_event,
  reads_connection, reads_job,
}
use evgl_api.Store.Connections.Ownership.{get_connection-state}
use evgl_api.Store.Events.Reads.{get_event-state}
use evgl_api.Store.Jobs.{claim_targets, finish_job, get_job, is_users_job}
use evgl_api.Store.Targets.{target_running, target_complete, target_failed}
use evgl_api.Worker.{
  World, Env, Effect, sent, requested, slept, Task, Outcome, ◌>>=◌, query, read_event,
  read_connection, read_job, emit, fail_target, request, after_attempt, attempts, conclude,
  publish_with, with_tokens, with_connection, with_provider, run_target, run_targets, finish, run,
  is_retryable,
}

abbrev pub after : {C : Crates} → Effect C.Publication → World C → World C
after e w = record w { trace = e ∷ w.trace }

-- Every step that a run for the job can take keeps `Q`.
pub record StepsKeep {C : Crates} (job : JobRow) (Q : World C → Type 0) : Type 0 where
  pub claims :
      (R : Refusals C.Json) (now : ℕ) (w : World C)
      → Q w
      → Q (query (claim_targets R now job.id) w).1
  pub finishes :
      (R : Refusals C.Json) (now : ℕ) (w : World C) → Q w → Q (query (finish_job R now job.id) w).1
  pub starts :
      (R : Refusals C.Json) (id attempt : ℕ) (w : World C)
      → Q w
      → Q (query (target_running R id attempt) w).1
  pub completes :
      (R : Refusals C.Json) (id : ℕ) (status : PublicationStatus) (value : C.Json) (w : World C)
      → Q w
      → Q (query (target_complete R id status value) w).1
  pub fails :
      (R : Refusals C.Json) (id attempt : ℕ) (error : String) (w : World C)
      → Q w
      → Q (query (target_failed R id attempt error) w).1
  pub sends :
      (u : JobUpdate C.Publication) (w : World C)
      → u.job_id ≡ job.id
      → u.event_id ≡ job.event_id
      → Q w
      → Q (after (sent job.id u) w)
  pub asks : (p : ProviderKind) (w : World C) → Q w → Q (after (requested p) w)
  pub pauses : (s : ℕ) (w : World C) → Q w → Q (after (slept s) w)

module _ {C : Crates} (Q : World C → Type 0) where
  -- A task and then the rest.
  pub task_keeps :
      {A B : Type 0} (m : Task C A) (f : A → Task C B) (w : World C)
      → Q (m w).1
      → ((a : A) (w' : World C) → Q w' → Q (f a w').1)
      → Q ((m >>= f) w).1
  task_keeps m f w h keeps = elim (Result-cases (m w).0) [
    | inr (_, bad) ↦ rw bad h
    | inl (a, good) ↦ rw good (keeps a (m w).1 h)
  ]

get_job-state :
    {Json : Type 0} (user job_id : ℕ) (db : Database Json) → (get_job user job_id db).1 ≡ db
unfolding get_job
get_job-state user job_id db =
    elim (Option-cases (find (is_users_job user job_id) db.cross_post_jobs)) [
      | inl missing ↦ rw missing refl
      | inr (_, found) ↦ rw found refl
    ]

module _ (C : Crates) (E : Env C) (job : JobRow) (Q : World C → Type 0) (K : StepsKeep job Q) where
  emit_keeps :
      (provider : Option ProviderKind) (status : PublicationStatus) (attempt : ℕ) (text : String)
      (p : Option C.Publication) (w : World C)
      → Q w
      → Q (emit C E job provider status attempt text p w).1
  unfolding emit
  emit_keeps provider status attempt text p w h = K.sends _ w refl refl h

  fail_target_keeps :
      (id : ℕ) (provider : Option ProviderKind) (attempt : ℕ) (error : String) (w : World C)
      → Q w
      → Q (fail_target C E job id provider attempt error w).1
  unfolding fail_target
  fail_target_keeps id provider attempt error w h =
      task_keeps Q (query (target_failed (E.refuses w) id attempt error)) _ w
        (K.fails (E.refuses w) id attempt error w h) (λ _. emit_keeps provider _ attempt error none)

  module _ (target : TargetRow C.Json) (event : EventDraft C.types) where
    module _ (provider : ProviderKind) (tokens : C.TokenSet) (context : PublishContext C.Json) where
      after_attempt_keeps :
          (retry : Task C (Outcome C.Publication)) (attempt : ℕ)
          (answer : Result C.Publication ProviderError) (w : World C)
          → ((w' : World C) → Q w' → Q (retry w').1)
          → Q w
          → Q (after_attempt C E job target event provider tokens context retry attempt answer w).1
      unfolding after_attempt emit
      after_attempt_keeps retry attempt (ok p) w again h =
          elim (Result-cases (C.publication_to_value p)) [
            | inr (_, bad) ↦ rw bad h
            | inl (value, good) ↦ rw good (
                task_keeps Q
                  (query (target_complete (E.refuses w) target.id (C.publication_status p) value)) _
                  w (K.completes (E.refuses w) target.id (C.publication_status p) value w h)
                  (λ _ w₁ h₁. K.sends _ w₁ refl refl h₁))
          ]
      after_attempt_keeps retry attempt (err e) w again h =
          elim (Bool-cases (ltb attempt 3 && is_retryable e)) [
            | inr stopped ↦ rw stopped h
            | inl retried ↦
                rw retried (again _ (K.pauses (2 ^ attempt) _ (emit_keeps _ _ _ _ _ w h)))
          ]

      attempts_keeps :
          (rounds attempt final_attempt : ℕ) (w : World C)
          → Q w
          → Q
              (attempts C E job target event provider tokens context rounds attempt final_attempt
                w).1
      unfolding attempts request emit
      attempts_keeps zero attempt final_attempt w h = h
      attempts_keeps (suc rounds) attempt final_attempt w h =
          task_keeps Q (query (target_running (E.refuses w) target.id attempt)) _ w
            (K.starts (E.refuses w) target.id attempt w h)
            λ _ w₁ h₁.
              let w₂ =
                (emit C E job (some provider) running attempt "provider request started" none
                  w₁).1 in
              after_attempt_keeps
                (attempts C E job target event provider tokens context rounds (suc attempt) attempt)
                attempt (E.publish provider tokens event context w₂) (after (requested provider) w₂)
                (attempts_keeps rounds (suc attempt) attempt)
                (K.asks provider w₂ (K.sends _ w₁ refl refl h₁))

      conclude_keeps :
          (a : Outcome C.Publication) (w : World C)
          → Q w
          → Q (conclude C E job target event provider tokens context a w).1
      unfolding conclude
      conclude_keeps a w h = elim (Option-cases a.published) [
        | inr (_, is_done) ↦ rw is_done h
        | inl is_none ↦
            rw is_none (fail_target_keeps target.id (some provider) a.final_attempt _ w h)
      ]

      publish_with_keeps :
          (w : World C) → Q w → Q (publish_with C E job target event provider tokens context w).1
      unfolding publish_with
      publish_with_keeps w h =
          task_keeps Q (attempts C E job target event provider tokens context 3 1 0) _ w
            (attempts_keeps 3 1 0 w h) conclude_keeps

    with_tokens_keeps :
        (provider : ProviderKind) (connection : ConnectionRow C.Json)
        (tokens : Result C.TokenSet String) (w : World C)
        → Q w
        → Q (with_tokens C E job target event provider connection tokens w).1
    unfolding with_tokens
    with_tokens_keeps provider connection (err error) w h =
        fail_target_keeps target.id (some provider) 0 _ w h
    with_tokens_keeps provider connection (ok tokens) w h = publish_with_keeps provider tokens _ w h

    with_connection_keeps :
        (provider : ProviderKind) (r : Result (ConnectionRow C.Json) ApiError) (w : World C)
        → Q w
        → Q (with_connection C E job target event provider r w).1
    unfolding with_connection
    with_connection_keeps provider (err error) w h =
        fail_target_keeps target.id (some provider) 0 _ w h
    with_connection_keeps provider (ok connection) w h = elim (Bool-cases (E.configured provider)) [
      | inl has ↦ rw has (with_tokens_keeps provider connection _ w h)
      | inr lacks ↦ rw lacks (fail_target_keeps target.id (some provider) 0 _ w h)
    ]

    with_provider_keeps :
        (r : Result ProviderKind String) (w : World C)
        → Q w
        → Q (with_provider C E job target event r w).1
    unfolding with_provider
    with_provider_keeps (err error) w h = fail_target_keeps target.id none 0 _ w h
    with_provider_keeps (ok provider) w h =
        let read = read_connection C E job target in
        with_connection_keeps provider (read w).0 (read w).1 (
          subst (λ db. Q (record w { db = db }))
            (sym (
              unless_refused-state (E.refuses w (reads_connection job.user_id target.connection_id))
                _ w.db (get_connection-state job.user_id target.connection_id w.db)))
            h)

    run_target_keeps : (w : World C) → Q w → Q (run_target C E job target event w).1
    unfolding run_target
    run_target_keeps w h = elim (Bool-cases (target.job_id == job.id)) [
      | inl own ↦ rw own (with_provider_keeps (C.from_str target.provider) w h)
      | inr other ↦ rw other h
    ]

  run_targets_keeps :
      (event : EventDraft C.types) (targets : List (TargetRow C.Json)) (w : World C)
      → Q w
      → Q (run_targets C E job event targets w).1
  unfolding run_targets
  run_targets_keeps event [] w h = h
  run_targets_keeps event (t ∷ ts) w h =
      task_keeps Q (run_target C E job t event) _ w (run_target_keeps t event w h)
        (λ _. run_targets_keeps event ts)

  finish_keeps : (w : World C) → Q w → Q (finish C E job w).1
  unfolding finish
  finish_keeps w h =
      task_keeps Q (query (finish_job (E.refuses w) (E.now w) job.id)) _ w
        (K.finishes (E.refuses w) (E.now w) w h)
        λ _ w₁ h₁.
          task_keeps Q (read_job C E job) _ w₁
            (subst (λ db. Q (record w₁ { db = db }))
              (sym (
                unless_refused-state (E.refuses w₁ (reads_job job.user_id job.id)) _ w₁.db
                  (get_job-state job.user_id job.id w₁.db)))
              h₁)
            λ current. emit_keeps none _ 0 "job finished" none

  pub run_keeps : (w : World C) → Q w → Q (run C E job w).1
  unfolding run emit
  run_keeps w h =
      task_keeps Q (read_event C E job) _ w
        (subst (λ db. Q (record w { db = db }))
          (sym (
            unless_refused-state (E.refuses w (reads_event job.user_id job.event_id)) _ w.db
              (get_event-state C job.user_id job.event_id w.db)))
          h)
        λ event w₁ h₁.
          task_keeps Q (query (claim_targets (E.refuses w₁) (E.now w₁) job.id)) _ w₁
            (K.claims (E.refuses w₁) (E.now w₁) w₁ h₁)
            λ targets w₂ h₂.
              let w₃ = (emit C E job none running 0 "job started" none w₂).1 in
              task_keeps Q (run_targets C E job event targets) _ w₃
                (run_targets_keeps event targets w₃ (K.sends _ w₂ refl refl h₂)) λ _. finish_keeps
