-- ===== src/Worker/Effort.antt =====
-- How many requests and how much pausing a run of the task of src/worker.rs can take.
use evgl_api.Base.{
  ℕ, zero, suc, ◌+◌, ◌*◌, ◌≤◌, true, String, Option, none, some, List, [], ◌∷◌, ◌≡◌, ap, ◌∙◌, arith,
  ◌==◌, ltb, ◌^◌, ◌&&◌, length, Bool-cases, Option-cases, inl, inr, if◌then◌else◌,
}
use evgl_api.Rust.{Result, ok, err, format, Result-cases}
use evgl_api.Error.{ApiError}
use evgl_api.Domain.{
  Crates, EventDraft, ProviderKind, ProviderError, retrying, running, failed, PublishContext,
}
use evgl_api.Database.{
  Database, ConnectionRow, JobRow, TargetRow, Query, unless_refused, unless_refused-state,
  reads_event, reads_job,
}
use evgl_api.Store.Connections.{aad}
use evgl_api.Store.Events.{get_event}
use evgl_api.Store.Events.Reads.{get_event-state}
use evgl_api.Store.Jobs.{claim_targets, finish_job, get_job, targets_of}
use evgl_api.Store.Targets.{target_running, target_complete, target_failed}
use evgl_api.Store.Jobs.Claims.{claim_targets-eq}
use evgl_api.Worker.{
  World, Env, Effect, sent, requested, slept, Task, Outcome, ◌>>=◌, query, read_event,
  read_connection, read_job, catch, effect, done, ◌>>◌, job_status, emit, fail_target, request,
  after_attempt, attempts, conclude, publish_with, with_tokens, with_connection, with_provider,
  run_target, run_targets, finish, run, is_retryable,
}

-- The requests in a trace, and the seconds of its pauses.
abbrev pub requests : {P : Type 0} → List (Effect P) → ℕ
requests [] = 0
requests (requested p ∷ trace) = suc (requests trace)
requests (sent c u ∷ trace) = requests trace
requests (slept s ∷ trace) = requests trace

abbrev pub pauses : {P : Type 0} → List (Effect P) → ℕ
pauses [] = 0
pauses (slept s ∷ trace) = s + pauses trace
pauses (sent c u ∷ trace) = pauses trace
pauses (requested p ∷ trace) = pauses trace

module _ {C : Crates} where
  -- A task, whether it returns or fails, makes at most `r` requests and pauses `s` seconds at most.
  record Spends {A : Type 0} (m : Task C A) (w : World C) (r s : ℕ) : Type 0 where
    asked : requests (m w).1.trace ≤ r + requests w.trace
    paused : pauses (m w).1.trace ≤ s + pauses w.trace

  >>=-Spends :
      {A B : Type 0} (m : Task C A) (f : A → Task C B) (w : World C) (r r' s s' : ℕ)
      → Spends m w r s
      → ((a : A) (w' : World C) → Spends (f a) w' r' s')
      → Spends (m >>= f) w (r + r') (s + s')
  >>=-Spends m f w r r' s s' a b = elim (Result-cases (m w).0) [
    | inr (e, bad) ↦ record {
      asked = rw bad (omega (arith, a.asked));
      paused = rw bad (omega (arith, a.paused));
    }
    | inl (x, good) ↦
        let c = b x (m w).1 in
        record {
          asked = rw good (omega (arith, a.asked, c.asked));
          paused = rw good (omega (arith, a.paused, c.paused));
        }
  ]

  -- A query makes no request, and nothing that comes after it gets cheaper or dearer.
  query-Spends :
      {A B : Type 0} (q : World C → Query C.Json A) (f : A → Task C B) (w : World C) (r s : ℕ)
      → ((a : A) (w' : World C) → Spends (f a) w' r s)
      → Spends ((λ w. query (q w) w) >>= f) w r s
  query-Spends q f w r s k =
      let a =
        >>=-Spends (λ w. query (q w) w) f w 0 r 0 s
          (record { asked = omega arith; paused = omega arith }) k in
      record { asked = omega (arith, a.asked); paused = omega (arith, a.paused) }

-- The pause before another attempt, and the pauses that so many attempts from one on may take.
pause_after : ℕ → ℕ
pause_after attempt = if ltb attempt 3 then 2 ^ attempt else 0

budget : ℕ → ℕ → ℕ
budget zero attempt = 0
budget (suc rounds) attempt = pause_after attempt + budget rounds (suc attempt)

module _ (C : Crates) (E : Env C) (job : JobRow) where
  fail_target-Spends :
      (id : ℕ) (provider : Option ProviderKind) (attempt : ℕ) (error : String) (w : World C)
      → Spends (fail_target C E job id provider attempt error) w 0 0
  unfolding fail_target emit
  fail_target-Spends id provider attempt error w =
      query-Spends (λ w. target_failed (E.refuses w) id attempt error)
        (λ _. emit C E job provider failed attempt error none) w 0 0
        (λ _ w₁. record { asked = omega arith; paused = omega arith })

  fail_target-Spends_more :
      (id : ℕ) (provider : Option ProviderKind) (attempt : ℕ) (error : String) (w : World C)
      → Spends (fail_target C E job id provider attempt error) w 3 6
  fail_target-Spends_more id provider attempt error w =
      let f = fail_target-Spends id provider attempt error w in
      record { asked = omega (arith, f.asked); paused = omega (arith, f.paused) }

  module _ (target : TargetRow C.Json) (event : EventDraft C.types) where
    module _ (provider : ProviderKind) (tokens : C.TokenSet) (context : PublishContext C.Json) where
      after_attempt-Spends :
          (retry : Task C (Outcome C.Publication)) (attempt : ℕ)
          (answer : Result C.Publication ProviderError) (w : World C) (r s : ℕ)
          → ((w' : World C) → Spends retry w' r s)
          → Spends
              (after_attempt C E job target event provider tokens context retry attempt answer)
              w
              r
              (pause_after attempt + s)
      unfolding after_attempt emit pause_after
      after_attempt-Spends retry attempt (ok p) w r s again =
          elim (Result-cases (C.publication_to_value p)) [
            | inl (v, good) ↦
                let a =
                  query-Spends {B = Outcome C.Publication}
                    (λ w. target_complete (E.refuses w) target.id (C.publication_status p) v)
                    (λ _.
                      emit C E job (some provider) (C.publication_status p) attempt
                        "provider request completed" (some p)
                      >> done (record {
                        published = some p;
                        final_error = none;
                        final_attempt = attempt;
                      }))
                    w 0 0 (λ _ w₁. record { asked = omega arith; paused = omega arith }) in
                record {
                  asked = rw good (omega (arith, a.asked));
                  paused = rw good (omega (arith, a.paused));
                }
            | inr (e, bad) ↦ record { asked = rw bad (omega arith); paused = rw bad (omega arith) }
          ]
      after_attempt-Spends retry attempt (err e) w r s again =
          elim (Bool-cases (ltb attempt 3 && is_retryable e)) [
            | inr stopped ↦ record {
              asked = rw stopped (omega arith);
              paused = rw stopped (omega arith);
            }
            | inl retried ↦
                let w₁ =
                  (emit C E job (some provider) retrying attempt (C.show_provider_error e) none
                    w).1 in
                let w₂ = (effect (slept (2 ^ attempt)) w₁).1 in
                let a = again w₂ in
                let early : ltb attempt 3 ≡ true = ground arith in
                record {
                  asked = rw retried (omega (arith, a.asked));
                  paused = rw (retried, early) (omega (arith, a.paused));
                }
          ]

      attempts-Spends :
          (rounds attempt final_attempt : ℕ) (w : World C)
          → Spends
              (attempts C E job target event provider tokens context rounds attempt final_attempt)
              w
              rounds
              (budget rounds attempt)
      unfolding attempts emit request budget
      attempts-Spends zero attempt final_attempt w = record {
        asked = omega arith;
        paused = omega arith;
      }
      attempts-Spends (suc rounds) attempt final_attempt w =
          let retry =
            attempts C E job target event provider tokens context rounds (suc attempt) attempt in
          let told = emit C E job (some provider) running attempt "provider request started" none in
          let ask = request C E job target event provider tokens context in
          let answered = after_attempt C E job target event provider tokens context retry attempt in
          query-Spends (λ w. target_running (E.refuses w) target.id attempt)
            (λ _. told >> (ask >>= answered)) w (suc rounds) (budget (suc rounds) attempt)
            (λ _ w₁.
              let w₂ = (told w₁).1 in
              let a =
                after_attempt-Spends retry attempt (E.publish provider tokens event context w₂)
                  (ask w₂).1 rounds (budget rounds (suc attempt))
                  (attempts-Spends rounds (suc attempt) attempt) in
              record { asked = omega (arith, a.asked); paused = omega (arith, a.paused) })

      publish_with-Spends :
          (w : World C) → Spends (publish_with C E job target event provider tokens context) w 3 6
      unfolding publish_with conclude budget pause_after
      publish_with-Spends w =
          >>=-Spends (attempts C E job target event provider tokens context 3 1 0)
            (conclude C E job target event provider tokens context) w 3 0 6 0
            (attempts-Spends 3 1 0 w)
            (λ a w₁. elim (Option-cases a.published) [
              | inl missed ↦
                  let f =
                    fail_target-Spends target.id (some provider) a.final_attempt
                      (elim a.final_error [ some error ↦ error | none ↦ "provider publish failed" ])
                      w₁ in
                  record { asked = rw missed f.asked; paused = rw missed f.paused }
              | inr (p, is) ↦ record { asked = rw is (omega arith); paused = rw is (omega arith) }
            ])

    with_tokens-Spends :
        (provider : ProviderKind) (connection : ConnectionRow C.Json)
        (tokens : Result C.TokenSet String) (w : World C)
        → Spends (with_tokens C E job target event provider connection tokens) w 3 6
    unfolding with_tokens
    with_tokens-Spends provider connection (err e) w =
        fail_target-Spends_more target.id (some provider) 0 _ w
    with_tokens-Spends provider connection (ok tokens) w = publish_with-Spends provider tokens _ w

    with_connection-Spends :
        (provider : ProviderKind) (connection : Result (ConnectionRow C.Json) ApiError)
        (w : World C)
        → Spends (with_connection C E job target event provider connection) w 3 6
    unfolding with_connection
    with_connection-Spends provider (err e) w =
        fail_target-Spends_more target.id (some provider) 0 _ w
    with_connection-Spends provider (ok connection) w = elim (Bool-cases (E.configured provider)) [
      | inr off ↦
          let f =
            fail_target-Spends_more target.id (some provider) 0
              (format (C.show_provider provider ∷ " is not configured on this deployment" ∷ []))
              w in
          record { asked = rw off f.asked; paused = rw off f.paused }
      | inl on ↦
          let r =
            with_tokens-Spends provider connection
              (E.decrypt (aad C connection) connection.token_envelope) w in
          record { asked = rw on r.asked; paused = rw on r.paused }
    ]

    with_provider-Spends :
        (provider : Result ProviderKind String) (w : World C)
        → Spends (with_provider C E job target event provider) w 3 6
    unfolding with_provider
    with_provider-Spends (err e) w = fail_target-Spends_more target.id none 0 _ w
    with_provider-Spends (ok provider) w =
        >>=-Spends (catch (read_connection C E job target))
          (with_connection C E job target event provider) w 0 3 0 6
          (record { asked = omega arith; paused = omega arith })
          (λ connection w₁. with_connection-Spends provider connection w₁)

    run_target-Spends : (w : World C) → Spends (run_target C E job target event) w 3 6
    unfolding run_target
    run_target-Spends w = elim (Bool-cases (target.job_id == job.id)) [
      | inl own ↦
          let r = with_provider-Spends (C.from_str target.provider) w in
          record { asked = rw own r.asked; paused = rw own r.paused }
      | inr foreign ↦ record { asked = rw foreign (omega arith); paused = rw foreign (omega arith) }
    ]

  run_targets-Spends :
      (event : EventDraft C.types) (targets : List (TargetRow C.Json)) (w : World C)
      → Spends (run_targets C E job event targets) w (3 * length targets) (6 * length targets)
  unfolding run_targets
  run_targets-Spends event [] w = record { asked = omega arith; paused = omega arith }
  run_targets-Spends event (target ∷ targets) w =
      let n = length targets in
      let r =
        >>=-Spends (run_target C E job target event) (λ _. run_targets C E job event targets) w 3
          (3 * n) 6 (6 * n) (run_target-Spends target event w)
          (λ _ w₁. run_targets-Spends event targets w₁) in
      record { asked = omega (arith, r.asked); paused = omega (arith, r.paused) }

  finish-Spends : (w : World C) → Spends (finish C E job) w 0 0
  unfolding finish emit
  finish-Spends w =
      let last = λ (c : JobRow × List (TargetRow C.Json)).
        emit C E job none (job_status c.0.status) 0 "job finished" none in
      query-Spends (λ w. finish_job (E.refuses w) (E.now w) job.id) (λ _. read_job C E job >>= last)
        w 0 0
        (λ _ w₁.
          query-Spends
            (λ w.
              unless_refused (E.refuses w (reads_job job.user_id job.id))
                (get_job job.user_id job.id))
            last w₁ 0 0 (λ _ w₂. record { asked = omega arith; paused = omega arith }))

  -- A run, whether it returns or fails, makes at most three requests for each target of its job, and
  -- pauses for at most six seconds for each.
  pub run_effort :
      (w : World C)
      → (requests (run C E job w).1.trace ≤ 3 * length (targets_of job.id w.db) + requests w.trace)
        × (pauses (run C E job w).1.trace ≤ 6 * length (targets_of job.id w.db) + pauses w.trace)
  unfolding run emit
  run_effort w =
      let read = read_event C E job in
      elim (Result-cases (read w).0) [
        | inr (e, bad) ↦ (rw bad (omega arith), rw bad (omega arith))
        | inl (event, found) ↦
            let w₁ : World C = (read w).1 in
            let claim = query (claim_targets (E.refuses w₁) (E.now w₁) job.id) in
            elim (Result-cases (claim w₁).0) [
              | inr (e, bad) ↦ (rw (found, bad) (omega arith), rw (found, bad) (omega arith))
              | inl (targets, listed) ↦
                  let w₂ : World C = (claim w₁).1 in
                  let (all, state) =
                    claim_targets-eq (E.refuses w₁) (E.now w₁) job.id w₁.db targets w₂.db
                      (λ i. (listed i, w₂.db)) in
                  let w₃ : World C = (emit C E job none running 0 "job started" none w₂).1 in
                  let count : length targets ≡ length (targets_of job.id w.db) =
                    ap length all
                    ∙ ap (λ (d : Database C.Json). length (targets_of job.id d)) state
                    ∙ ap (λ (d : Database C.Json). length (targets_of job.id d))
                        (unless_refused-state (E.refuses w (reads_event job.user_id job.event_id))
                          (get_event C job.user_id job.event_id) w.db
                          (get_event-state C job.user_id job.event_id w.db)) in
                  let r =
                    >>=-Spends (run_targets C E job event targets) (λ _. finish C E job) w₃
                      (3 * length targets) 0 (6 * length targets) 0
                      (run_targets-Spends event targets w₃) (λ _ w₄. finish-Spends w₄) in
                  (
                    rw (found, listed) (omega (arith, r.asked, count)),
                    rw (found, listed) (omega (arith, r.paused, count)),
                  )
            ]
      ]
