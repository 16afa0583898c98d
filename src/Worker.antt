-- ===== src/Worker.antt =====
-- src/worker.rs: the task that publishes the targets of one cross-post job. A task's state is the
-- database and what it has done outside it: the updates it sent, its requests and its pauses. What
-- the providers, the vault and the clock answer may depend on all of that.
pub mod Attempts
pub mod Targets
pub mod Loop
pub mod Run
pub mod Settlement
pub mod Progress
pub mod Effort
pub mod Keep
pub mod Tells
use evgl_api.Base.{
  ◌≡◌, refl, ℕ, zero, suc, ◌^◌, Bool, true, false, String, Option, none, some, List, [], ◌∷◌, ◌&&◌,
  ◌||◌, ◌==◌, ltb, leb, str_eq, if◌then◌else◌,
}
use evgl_api.Rust.{Result, ok, err, map_err, format}
use evgl_api.Error.{ApiError, Cause, internal, described, show_api_error}
use evgl_api.Domain.{
  Crates, EventDraft, ProviderKind, ProviderError, network, remote, other, PublicationStatus,
  running, published, action_required, retrying, failed, PublishContext, JobUpdate,
}
use evgl_api.Database.{
  Database, ConnectionRow, JobRow, TargetRow, Query, Refusals, unless_refused, reads_event,
  reads_connection, reads_job,
}
use evgl_api.Store.Connections.{get_connection, aad}
use evgl_api.Store.Events.{get_event}
use evgl_api.Store.Jobs.{claim_targets, finish_job, get_job}
use evgl_api.Store.Targets.{target_running, target_complete, target_failed}

-- `sent c u`: the update `u` on the channel that `state.channel(c)` returns, which makes it where it is
-- missing; Service applies that to the shared state.
pub data Effect (Publication : Type 0) : Type 0 where
  sent : ℕ → JobUpdate Publication → Effect Publication
  requested : ProviderKind → Effect Publication
  slept : ℕ → Effect Publication

-- The trace has the latest effect first.
pub record World (C : Crates) : Type 0 where
  pub db : Database C.Json
  pub trace : List (Effect C.Publication)

-- What the task's surroundings answer in a world: the registry, the vault, the adapters, the
-- clock, and which statements the database refuses.
pub record Env (C : Crates) : Type 0 where
  pub now : World C → ℕ
  pub refuses : World C → Refusals C.Json
  pub configured : ProviderKind → Bool
  pub decrypt : String → String → Result C.TokenSet String
  pub publish :
      ProviderKind
      → C.TokenSet
      → EventDraft C.types
      → PublishContext C.Json
      → World C
      → Result C.Publication ProviderError
  pub show_cause : Cause → String

abbrev pub Task : Crates → Type 0 → Type 0
Task C A = World C → Result A ApiError × World C

abbrev pub proceed : {C : Crates} {A B : Type 0} → Result A ApiError → (A → Task C B) → Task C B
proceed (ok a) f w = f a w
proceed (err e) f w = (err e, w)

infixl 5 ◌>>=◌ ◌>>◌
abbrev pub ◌>>=◌ : {C : Crates} {A B : Type 0} → Task C A → (A → Task C B) → Task C B
◌>>=◌ m f w = let (r, w') = m w in proceed r f w'

abbrev pub ◌>>◌ : {C : Crates} {A B : Type 0} → Task C A → Task C B → Task C B
m >> k = m >>= λ _. k

module _ {C : Crates} where
  abbrev pub done : {A : Type 0} → A → Task C A
  done a w = (ok a, w)

  abbrev pub fail : {A : Type 0} → ApiError → Task C A
  fail e w = (err e, w)

  -- A query of the store, with the clock's reading for `now()`.
  abbrev pub query : {A : Type 0} → Query C.Json A → Task C A
  query q w = let (r, db') = q w.db in (r, record w { db = db' })

  -- A call whose error the caller matches on.
  abbrev pub catch : {A : Type 0} → Task C A → Task C (Result A ApiError)
  catch m w = let (r, w') = m w in (ok r, w')

  abbrev pub effect : Effect C.Publication → Task C (Unit {0})
  effect e w = (ok tt, record w { trace = e ∷ w.trace })

unfoldable pub is_retryable : ProviderError → Bool
is_retryable (network _) = true
is_retryable (remote status _) = status == 429 || leb 500 status
is_retryable (other _) = false

-- The status of the job as the last update names it.
unfoldable pub job_status : String → PublicationStatus
job_status status =
    if str_eq status "failed"
    then failed
    else if str_eq status "action_required"
    then action_required
    else published

-- How the loop over the attempts ends: `published`, `final_error` and `final_attempt`.
pub record Outcome (Publication : Type 0) : Type 0 where
  pub published : Option Publication
  pub final_error : Option String
  pub final_attempt : ℕ

module _ (C : Crates) (E : Env C) (job : JobRow) where
  -- The calls of the store that only read.
  abbrev pub read_event : Task C (EventDraft C.types)
  read_event w =
      query
        (unless_refused (E.refuses w (reads_event job.user_id job.event_id))
          (get_event C job.user_id job.event_id))
        w

  abbrev pub read_connection : TargetRow C.Json → Task C (ConnectionRow C.Json)
  read_connection target w =
      query
        (unless_refused (E.refuses w (reads_connection job.user_id target.connection_id))
          (get_connection job.user_id target.connection_id))
        w

  abbrev pub read_job : Task C (JobRow × List (TargetRow C.Json))
  read_job w =
      query
        (unless_refused (E.refuses w (reads_job job.user_id job.id)) (get_job job.user_id job.id)) w

  unfoldable pub emit :
      Option ProviderKind
      → PublicationStatus
      → ℕ
      → String
      → Option C.Publication
      → Task C (Unit {0})
  emit provider status attempt message publication w =
      effect
        (sent job.id (record {
          job_id = job.id;
          event_id = job.event_id;
          provider = provider;
          status = status;
          attempt = attempt;
          message = message;
          occurred_at = E.now w;
          publication = publication;
        }))
        w

  unfoldable pub fail_target : ℕ → Option ProviderKind → ℕ → String → Task C (Unit {0})
  unfolding emit
  fail_target target_id provider attempt error = do
    λ w. query (target_failed (E.refuses w) target_id attempt error) w
    emit provider failed attempt error none

  module _ (target : TargetRow C.Json) (event : EventDraft C.types) where
    module _ (provider : ProviderKind) (tokens : C.TokenSet) (context : PublishContext C.Json) where
      unfoldable pub request : Task C (Result C.Publication ProviderError)
      request w = (
        ok (E.publish provider tokens event context w),
        record w { trace = requested provider ∷ w.trace },
      )

      -- The match on the provider's answer to an attempt; `retry` is the rest of the loop.
      unfoldable pub after_attempt :
          Task C (Outcome C.Publication)
          → ℕ
          → Result C.Publication ProviderError
          → Task C (Outcome C.Publication)
      unfolding emit
      after_attempt retry attempt (ok publication) = do
        value ← λ w. (map_err (λ e. internal (described e)) (C.publication_to_value publication), w)
        λ w.
            query (target_complete (E.refuses w) target.id (C.publication_status publication) value)
              w
        emit (some provider) (C.publication_status publication) attempt "provider request completed"
            (some publication)
        done (record { published = some publication; final_error = none; final_attempt = attempt })
      after_attempt retry attempt (err error) =
          if ltb attempt 3 && is_retryable error
          then (emit (some provider) retrying attempt (C.show_provider_error error) none
              >> (effect (slept (2 ^ attempt)) >> retry))
          else done (record {
            published = none;
            final_error = some (C.show_provider_error error);
            final_attempt = attempt;
          })

      -- `for attempt in 1..=3`: the rounds left, the attempt, and `final_attempt` so far
      unfoldable pub attempts : ℕ → ℕ → ℕ → Task C (Outcome C.Publication)
      unfolding after_attempt emit request
      attempts zero attempt final_attempt =
          done (record { published = none; final_error = none; final_attempt = final_attempt })
      attempts (suc rounds) attempt final_attempt =
          let retry = attempts rounds (suc attempt) attempt in
          do
            λ w. query (target_running (E.refuses w) target.id attempt) w
            emit (some provider) running attempt "provider request started" none
            answer ← request
            after_attempt retry attempt answer

      -- `if published.is_none()`
      unfoldable pub conclude : Outcome C.Publication → Task C (Unit {0})
      unfolding fail_target
      conclude a = elim a.published [
        | some _ ↦ done tt
        | none ↦
            fail_target target.id (some provider) a.final_attempt
              (elim a.final_error [ some error ↦ error | none ↦ "provider publish failed" ])
      ]

      unfoldable pub publish_with : Task C (Unit {0})
      unfolding attempts conclude
      publish_with = attempts 3 1 0 >>= conclude

    unfoldable pub with_tokens :
        ProviderKind → ConnectionRow C.Json → Result C.TokenSet String → Task C (Unit {0})
    unfolding publish_with fail_target
    with_tokens provider connection (err error) =
        fail_target target.id (some provider) 0
          (format ("could not decrypt provider credentials: " ∷ error ∷ []))
    with_tokens provider connection (ok tokens) = publish_with provider tokens (record {
      account_key = connection.account_key;
      account_metadata = connection.metadata;
      target_options = target.options;
    })

    unfoldable pub with_connection :
        ProviderKind → Result (ConnectionRow C.Json) ApiError → Task C (Unit {0})
    unfolding with_tokens fail_target
    with_connection provider (err error) =
        fail_target target.id (some provider) 0
          (format ("provider connection is unavailable: " ∷ show_api_error E.show_cause error ∷ []))
    with_connection provider (ok connection) =
        if E.configured provider
        then with_tokens provider connection
            (E.decrypt (aad C connection) connection.token_envelope)
        else fail_target target.id (some provider) 0
            (format (C.show_provider provider ∷ " is not configured on this deployment" ∷ []))

    unfoldable pub with_provider : Result ProviderKind String → Task C (Unit {0})
    unfolding with_connection fail_target
    with_provider (err error) =
        fail_target target.id none 0 (format ("invalid provider on queued target: " ∷ error ∷ []))
    with_provider (ok provider) = do
      connection ← catch (read_connection target)
      with_connection provider connection

    -- The body of `for target in targets`.
    unfoldable pub run_target : Task C (Unit {0})
    unfolding with_provider
    run_target =
        if target.job_id == job.id
        then with_provider (C.from_str target.provider)
        else fail (
            internal (
              described (
                format (
                  "claimed target "
                  ∷ C.show_uuid target.id
                  ∷ " belongs to job "
                  ∷ C.show_uuid target.job_id
                  ∷ ", expected "
                  ∷ C.show_uuid job.id
                  ∷ []))))

  unfoldable pub run_targets : EventDraft C.types → List (TargetRow C.Json) → Task C (Unit {0})
  unfolding run_target
  run_targets event [] = done tt
  run_targets event (target ∷ targets) = run_target target event >> run_targets event targets

  -- The end of `run`, after the loop.
  unfoldable pub finish : Task C (Unit {0})
  unfolding job_status emit
  finish w =
      (do
        query (finish_job (E.refuses w) (E.now w) job.id)
        (current, _) ← read_job
        emit none (job_status current.status) 0 "job finished" none)
        w

  unfoldable pub run : Task C (Unit {0})
  unfolding run_targets finish emit
  run w =
      (do
        event ← read_event
        targets ← λ w. query (claim_targets (E.refuses w) (E.now w) job.id) w
        emit none running 0 "job started" none
        run_targets event targets
        finish)
        w

-- Inversion of a task that returns.
proceed-eq-ok :
    {C : Crates} {A B : Type 0} (r : Result A ApiError) (f : A → Task C B) (w : World C) {b : B}
    {w' : World C}
    → proceed r f w ≡ (ok b, w')
    → (a : A) × (r ≡ ok a) × (f a w ≡ (ok b, w'))
proceed-eq-ok (ok a) f w h = (a, refl, h)
proceed-eq-ok (err e) f w h = cc

pub >>=-eq-ok :
    {C : Crates} {A B : Type 0} (m : Task C A) (f : A → Task C B) (w : World C) {b : B}
    {w' : World C}
    → (m >>= f) w ≡ (ok b, w')
    → (a : A) × (m w ≡ (ok a, (m w).1)) × (f a (m w).1 ≡ (ok b, w'))
>>=-eq-ok m f w h =
    let (a, e, k) = proceed-eq-ok (m w).0 f (m w).1 h in (a, (λ i. (e i, (m w).1)), k)
