-- ===== src/Worker/Progress.antt =====
-- The task of src/worker.rs comes to an end: what it needs for that, and that it needs no more.
use evgl_api.Base.{
  ℕ, zero, suc, true, String, none, some, List, [], ◌∷◌, ◌≡◌, refl, ap, ◌∙◌, arith, ◌==◌, ltb, leb,
  ◌^◌, ◌&&◌, Option, All, find, filter, Bool-cases, Option-cases, inl, inr, any,
}
use evgl_api.Base.Tables.{All-filter, All-sort_by, All-mono, any-update, find-none}
use evgl_api.Rust.{Result, ok, err, format, Result-cases}
use evgl_api.Error.{ApiError}
use evgl_api.Domain.{
  Crates, EventDraft, ProviderKind, ProviderError, PublicationStatus, retrying, running,
  PublishContext,
}
use evgl_api.Database.{
  Database, ConnectionRow, JobRow, TargetRow, RunStatement, runs_row, completes_row, fails_row,
  counts_rows, ends_job, reads_event, reads_connection, reads_job, unless_refused-state, claims_job,
  lists_targets,
}
use evgl_api.Store.Jobs.Claims.{counted}
use evgl_api.Store.Connections.{get_connection, aad}
use evgl_api.Store.Connections.Ownership.{get_connection-state}
use evgl_api.Store.Events.{get_event}
use evgl_api.Store.Events.Reads.{get_event-state}
use evgl_api.Store.Jobs.{
  is_users_job, is_job, with_status, claim_targets, finish_job, get_job, targets_of, set_job_status,
}
use evgl_api.Store.Targets.{status_name, target_running, target_complete, target_failed}
use evgl_api.Worker.{
  World, Env, Task, Outcome, ◌>>=◌, ◌>>◌, query, read_connection, catch, effect, done, emit,
  fail_target, request, after_attempt, attempts, conclude, publish_with, with_tokens,
  with_connection, with_provider, run_target, run_targets, finish, run, is_retryable, slept,
}

-- Every publication has a JSON form.
abbrev pub IsPrintable : Crates → Type 0
IsPrintable C = (p : C.Publication) → (v : C.Json) × (C.publication_to_value p ≡ ok v)

abbrev pub IsOk : {A : Type 0} → Result A ApiError → Type 0
IsOk (ok a) = Unit
IsOk (err e) = ⊥

All-Unit : {A : Type 0} (xs : List A) → All (λ x. Unit {0}) xs
All-Unit [] = tt
All-Unit (x ∷ xs) = (tt, All-Unit xs)

module _ {C : Crates} where
  -- A task returns a result from a world, and leaves the jobs as they are.
  record Returns {A : Type 0} (m : Task C A) (w : World C) : Type 0 where
    returned : IsOk (m w).0
    jobs : (m w).1.db.cross_post_jobs ≡ w.db.cross_post_jobs

  >>=-Returns :
      {A B : Type 0} (m : Task C A) (f : A → Task C B) (w : World C)
      → Returns m w
      → ((a : A) (w' : World C) → Returns (f a) w')
      → Returns (m >>= f) w
  >>=-Returns m f w r k = elim (Result-cases (m w).0) [
    | inr (e, bad) ↦ absurd (rw bad at (r.returned))
    | inl (a, good) ↦
        let s = k a (m w).1 in
        record { returned = rw good s.returned; jobs = rw good (s.jobs ∙ r.jobs) }
  ]

-- The database refuses no statement.
abbrev pub IsAccepting : {C : Crates} → Env C → Type 0
IsAccepting {C} E = (w : World C) (s : RunStatement C.Json) → E.refuses w s ≡ none

module _ (C : Crates) (E : Env C) (job : JobRow) (prints : IsPrintable C)
    (accepts : IsAccepting E) where
  starts-Returns :
      (id attempt : ℕ) (w : World C)
      → Returns (λ w. query (target_running (E.refuses w) id attempt) w) w
  unfolding target_running
  starts-Returns id attempt w =
      let a = accepts w (runs_row id attempt) in record { returned = rw a tt; jobs = rw a refl }

  completes-Returns :
      (id : ℕ) (status : PublicationStatus) (value : C.Json) (w : World C)
      → Returns (λ w. query (target_complete (E.refuses w) id status value) w) w
  unfolding target_complete
  completes-Returns id status value w =
      let a = accepts w (completes_row id (status_name status) value) in
      record { returned = rw a tt; jobs = rw a refl }

  fail_target-Returns :
      (id : ℕ) (provider : Option ProviderKind) (attempt : ℕ) (error : String) (w : World C)
      → Returns (fail_target C E job id provider attempt error) w
  unfolding fail_target target_failed emit
  fail_target-Returns id provider attempt error w =
      let a = accepts w (fails_row id attempt error) in
      record { returned = rw a tt; jobs = rw a refl }

  module _ (target : TargetRow C.Json) (event : EventDraft C.types) where
    module _ (provider : ProviderKind) (tokens : C.TokenSet) (context : PublishContext C.Json) where
      after_attempt-Returns :
          (retry : Task C (Outcome C.Publication)) (attempt : ℕ)
          (answer : Result C.Publication ProviderError) (w : World C)
          → ((w' : World C) → Returns retry w')
          → Returns
              (after_attempt C E job target event provider tokens context retry attempt answer)
              w
      unfolding after_attempt emit
      after_attempt-Returns retry attempt (ok p) w again =
          let (v, printed) = prints p in
          let r =
            >>=-Returns
              (λ w. query (target_complete (E.refuses w) target.id (C.publication_status p) v) w)
              (λ _.
                emit C E job (some provider) (C.publication_status p) attempt
                  "provider request completed" (some p)
                >> done
                    (record { published = some p; final_error = none; final_attempt = attempt }))
              w (completes-Returns target.id (C.publication_status p) v w)
              (λ _ w₁. record { returned = tt; jobs = refl }) in
          record { returned = rw printed r.returned; jobs = rw printed r.jobs }
      after_attempt-Returns retry attempt (err e) w again =
          elim (Bool-cases (ltb attempt 3 && is_retryable e)) [
            | inl retried ↦
                let told =
                  emit C E job (some provider) retrying attempt (C.show_provider_error e) none in
                let r =
                  >>=-Returns told (λ _. effect (slept (2 ^ attempt)) >> retry) w
                    (record { returned = tt; jobs = refl })
                    (λ _ w₁.
                      >>=-Returns (effect (slept (2 ^ attempt))) (λ _. retry) w₁
                        (record { returned = tt; jobs = refl }) (λ _ w₂. again w₂)) in
                record { returned = rw retried r.returned; jobs = rw retried r.jobs }
            | inr stopped ↦ record { returned = rw stopped tt; jobs = rw stopped refl }
          ]

      attempts-Returns :
          (rounds attempt final_attempt : ℕ) (w : World C)
          → Returns
              (attempts C E job target event provider tokens context rounds attempt final_attempt)
              w
      unfolding attempts emit request
      attempts-Returns zero attempt final_attempt w = record { returned = tt; jobs = refl }
      attempts-Returns (suc rounds) attempt final_attempt w =
          let retry =
            attempts C E job target event provider tokens context rounds (suc attempt) attempt in
          let told = emit C E job (some provider) running attempt "provider request started" none in
          let ask = request C E job target event provider tokens context in
          let answered = after_attempt C E job target event provider tokens context retry attempt in
          >>=-Returns (λ w. query (target_running (E.refuses w) target.id attempt) w)
            (λ _. told >> (ask >>= answered)) w (starts-Returns target.id attempt w)
            (λ _ w₁.
              let w₂ = (told w₁).1 in
              let r =
                >>=-Returns ask answered w₂ (record { returned = tt; jobs = refl })
                  (λ answer w₃.
                    after_attempt-Returns retry attempt answer w₃
                      (attempts-Returns rounds (suc attempt) attempt)) in
              record { returned = r.returned; jobs = r.jobs })

      publish_with-Returns :
          (w : World C) → Returns (publish_with C E job target event provider tokens context) w
      unfolding publish_with conclude
      publish_with-Returns w =
          >>=-Returns (attempts C E job target event provider tokens context 3 1 0)
            (conclude C E job target event provider tokens context) w (attempts-Returns 3 1 0 w)
            (λ a w₁. elim (Option-cases a.published) [
              | inl missed ↦
                  let f =
                    fail_target-Returns target.id (some provider) a.final_attempt
                      (elim a.final_error [ some error ↦ error | none ↦ "provider publish failed" ])
                      w₁ in
                  record { returned = rw missed f.returned; jobs = rw missed f.jobs }
              | inr (p, is) ↦ record { returned = rw is tt; jobs = rw is refl }
            ])

    with_tokens-Returns :
        (provider : ProviderKind) (connection : ConnectionRow C.Json)
        (tokens : Result C.TokenSet String) (w : World C)
        → Returns (with_tokens C E job target event provider connection tokens) w
    unfolding with_tokens
    with_tokens-Returns provider connection (err e) w =
        fail_target-Returns target.id (some provider) 0 _ w
    with_tokens-Returns provider connection (ok tokens) w = publish_with-Returns provider tokens _ w

    with_connection-Returns :
        (provider : ProviderKind) (connection : Result (ConnectionRow C.Json) ApiError)
        (w : World C)
        → Returns (with_connection C E job target event provider connection) w
    unfolding with_connection
    with_connection-Returns provider (err e) w = fail_target-Returns target.id (some provider) 0 _ w
    with_connection-Returns provider (ok connection) w = elim (Bool-cases (E.configured provider)) [
      | inr off ↦
          let f =
            fail_target-Returns target.id (some provider) 0
              (format (C.show_provider provider ∷ " is not configured on this deployment" ∷ []))
              w in
          record { returned = rw off f.returned; jobs = rw off f.jobs }
      | inl on ↦
          let r =
            with_tokens-Returns provider connection
              (E.decrypt (aad C connection) connection.token_envelope) w in
          record { returned = rw on r.returned; jobs = rw on r.jobs }
    ]

    with_provider-Returns :
        (provider : Result ProviderKind String) (w : World C)
        → Returns (with_provider C E job target event provider) w
    unfolding with_provider
    with_provider-Returns (err e) w = fail_target-Returns target.id none 0 _ w
    with_provider-Returns (ok provider) w =
        >>=-Returns (catch (read_connection C E job target))
          (with_connection C E job target event provider) w
          (record {
            returned = tt;
            jobs =
                ap (λ (d : Database C.Json). d.cross_post_jobs)
                  (unless_refused-state
                    (E.refuses w (reads_connection job.user_id target.connection_id))
                    (get_connection job.user_id target.connection_id) w.db
                    (get_connection-state job.user_id target.connection_id w.db));
          })
          (λ connection w₁. with_connection-Returns provider connection w₁)

    run_target-Returns :
        (w : World C) → target.job_id ≡ job.id → Returns (run_target C E job target event) w
    unfolding run_target
    run_target-Returns w own =
        let here : (target.job_id == job.id) ≡ true = ground arith in
        let r = with_provider-Returns (C.from_str target.provider) w in
        record { returned = rw here r.returned; jobs = rw here r.jobs }

  run_targets-Returns :
      (event : EventDraft C.types) (targets : List (TargetRow C.Json)) (w : World C)
      → All (λ t. t.job_id ≡ job.id) targets
      → Returns (run_targets C E job event targets) w
  unfolding run_targets
  run_targets-Returns event [] w own = record { returned = tt; jobs = refl }
  run_targets-Returns event (target ∷ targets) w own =
      >>=-Returns (run_target C E job target event) (λ _. run_targets C E job event targets) w
        (run_target-Returns target event w own.0)
        (λ _ w₁. run_targets-Returns event targets w₁ own.1)

  targets_of-own : (db : Database C.Json) → All (λ t. t.job_id ≡ job.id) (targets_of job.id db)
  targets_of-own db =
      All-sort_by (λ t. t.job_id ≡ job.id) (λ a b. leb a.id b.id)
        (filter (λ t. t.job_id == job.id) db.cross_post_targets)
        (All-mono (λ t. Unit {0} × ((t.job_id == job.id) ≡ true)) (λ t. t.job_id ≡ job.id)
          (filter (λ t. t.job_id == job.id) db.cross_post_targets) (λ t h. ground (arith, h.1))
          (All-filter (λ t. Unit {0}) (λ t. t.job_id == job.id) db.cross_post_targets
            (All-Unit db.cross_post_targets)))

  kept_job :
      (db : Database C.Json) (now : ℕ) (status : String)
      → any (is_users_job job.user_id job.id) (set_job_status now job.id status db).cross_post_jobs
        ≡ any (is_users_job job.user_id job.id) db.cross_post_jobs
  kept_job db now status =
      any-update (is_users_job job.user_id job.id) (is_job job.id) (with_status now status)
        db.cross_post_jobs (λ x. refl)

  -- A job that is there stays there when its status is set.
  finish-Returns :
      (w : World C)
      → any (is_users_job job.user_id job.id) w.db.cross_post_jobs ≡ true
      → IsOk (finish C E job w).0
  unfolding finish finish_job get_job emit
  finish-Returns w there =
      let status = counted (E.refuses w) (E.now w) job.id w.db in
      let db = set_job_status (E.now w) job.id status w.db in
      let failures = accepts w (counts_rows job.id "failed") in
      let actions = accepts w (counts_rows job.id "action_required") in
      let ended = accepts w (ends_job job.id status) in
      elim (Option-cases (find (is_users_job job.user_id job.id) db.cross_post_jobs)) [
        | inl missing ↦ absurd (
            cc (
              find-none (is_users_job job.user_id job.id) db.cross_post_jobs missing,
              kept_job w.db (E.now w) status,
              there,
            ))
        | inr (j, found) ↦
            rw
              (
                failures,
                actions,
                ended,
                accepts (record w { db = db }) (reads_job job.user_id job.id),
                found,
              )
              tt
      ]

  pair_of_IsOk :
      (r : Result (Unit {0}) ApiError × World C) → IsOk r.0 → (w' : World C) × (r ≡ (ok tt, w'))
  pair_of_IsOk (ok tt, w') h = (w', refl)
  pair_of_IsOk (err e, w') h = absurd h

  run-IsOk :
      (w : World C) (event : EventDraft C.types)
      → (get_event C job.user_id job.event_id w.db).0 ≡ ok event
      → any (is_users_job job.user_id job.id) w.db.cross_post_jobs ≡ true
      → IsOk (run C E job w).0
  unfolding run claim_targets emit
  run-IsOk w event read there =
      let w₁ : World C = record w { db = (get_event C job.user_id job.event_id w.db).1 } in
      let w₂ : World C = record w₁ { db = set_job_status (E.now w₁) job.id "running" w₁.db } in
      let w₃ : World C = (emit C E job none running 0 "job started" none w₂).1 in
      let loop = run_targets C E job event (targets_of job.id w₃.db) in
      let r = run_targets-Returns event (targets_of job.id w₃.db) w₃ (targets_of-own w₃.db) in
      let same : w₁.db ≡ w.db = get_event-state C job.user_id job.event_id w.db in
      let present : any (is_users_job job.user_id job.id) (loop w₃).1.db.cross_post_jobs ≡ true =
        ap (any (is_users_job job.user_id job.id)) r.jobs
        ∙ kept_job w₁.db (E.now w₁) "running"
        ∙ ap (λ (d : Database C.Json). any (is_users_job job.user_id job.id) d.cross_post_jobs) same
        ∙ there in
      elim (Result-cases (loop w₃).0) [
        | inr (e, bad) ↦ absurd (rw bad at (r.returned))
        | inl (u, good) ↦
            rw
              (
                accepts w (reads_event job.user_id job.event_id),
                read,
                accepts w₁ (claims_job job.id),
                accepts w₁ (lists_targets job.id),
                good,
              )
              (finish-Returns (loop w₃).1 present)
      ]

  -- A run returns, however the providers and the vault answer, if the database refuses none of its
  -- statements, the job is in the tables, its event can be read, and every publication has a JSON form.
  pub run_returns :
      (w : World C) (event : EventDraft C.types)
      → (get_event C job.user_id job.event_id w.db).0 ≡ ok event
      → any (is_users_job job.user_id job.id) w.db.cross_post_jobs ≡ true
      → (w' : World C) × (run C E job w ≡ (ok tt, w'))
  run_returns w event read there = pair_of_IsOk (run C E job w) (run-IsOk w event read there)
