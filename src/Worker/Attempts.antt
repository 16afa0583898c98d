-- ===== src/Worker/Attempts.antt =====
-- The loop over the attempts at one target in src/worker.rs.
use evgl_api.Base.{
  ℕ, zero, suc, ◌+◌, ◌≤◌, String, none, some, ◌≡◌, inl, inr, refl, ap, sym, ◌∙◌, arith, ltb, ◌&&◌,
  ◌^◌, Bool-cases,
}
use evgl_api.Rust.{Result, ok, err, Result-cases}
use evgl_api.Domain.{
  Crates, EventDraft, ProviderKind, ProviderError, PublishContext, running, retrying,
}
use evgl_api.Database.{JobRow, TargetRow}
use evgl_api.Store.Targets.{
  update_target, status_name, running_row, complete_row, target_running, target_complete,
}
use evgl_api.Store.Targets.Updates.{
  SameTarget, update_target_twice, target_running-eq, target_complete-eq,
}
use evgl_api.Worker.{
  World, Env, Outcome, Task, query, effect, slept, attempts, after_attempt, emit, request,
  is_retryable, >>=-eq-ok,
}

module _ (C : Crates) (E : Env C) where
  -- A target that a publication completed, which an adapter answered a request with.
  pub record IsPublished (p : C.Publication) (t : TargetRow C.Json) : Type 0 where
    pub adapter : ProviderKind
    pub tokens : C.TokenSet
    pub event : EventDraft C.types
    pub context : PublishContext C.Json
    pub asked : World C
    pub answered : E.publish adapter tokens event context asked ≡ ok p
    pub status : t.status ≡ status_name (C.publication_status p)
    pub first : 1 ≤ t.attempt
    pub last : t.attempt ≤ 3
    pub error : t.error ≡ none
    pub value : C.Json
    pub printed : C.publication_to_value p ≡ ok value
    pub result : t.result ≡ some value

  -- A target that failed.
  pub record IsFailed (t : TargetRow C.Json) : Type 0 where
    pub status : t.status ≡ "failed"
    pub last : t.attempt ≤ 3
    pub reason : String
    pub error : t.error ≡ some reason

  -- The database of `w'` is that of `w` with a change of one target.
  pub record Changed (id : ℕ) (P : TargetRow C.Json → Type 0) (w w' : World C) : Type 0 where
    pub change : TargetRow C.Json → TargetRow C.Json
    pub state : w'.db ≡ update_target id change w.db
    pub keeps : (t : TargetRow C.Json) → SameTarget t (change t)
    pub holds : (t : TargetRow C.Json) → P (change t)

  -- A change after one that is known.
  pub Changed-after :
      (id : ℕ) (f : TargetRow C.Json → TargetRow C.Json) (P : TargetRow C.Json → Type 0)
      (w w₁ w' : World C)
      → w₁.db ≡ update_target id f w.db
      → ((t : TargetRow C.Json) → SameTarget t (f t))
      → Changed id P w₁ w'
      → Changed id P w w'
  Changed-after id f P w w₁ w' e keep c = record {
    change = λ t. c.change (f t);
    state =
        c.state
        ∙ ap (λ d. update_target id c.change d) e
        ∙ update_target_twice id f c.change w.db keep;
    keeps = λ t. record {
      id = (c.keeps (f t)).id ∙ (keep t).id;
      job_id = (c.keeps (f t)).job_id ∙ (keep t).job_id;
      connection_id = (c.keeps (f t)).connection_id ∙ (keep t).connection_id;
      provider = (c.keeps (f t)).provider ∙ (keep t).provider;
      options = (c.keeps (f t)).options ∙ (keep t).options;
    };
    holds = λ t. c.holds (f t);
  }

  -- How the attempts have ended, by what the loop returns.
  pub data Ended (id : ℕ) (w w' : World C) (a : Outcome C.Publication) : Type 0 where
    completed :
        (p : C.Publication)
        → a.published ≡ some p
        → Changed id (IsPublished p) w w'
        → Ended id w w' a
    gave_up :
        (e : String)
        → a.published ≡ none
        → a.final_error ≡ some e
        → a.final_attempt ≤ 3
        → Changed id (λ t. Unit {0}) w w'
        → Ended id w w' a

  pub Ended-after :
      (id : ℕ) (f : TargetRow C.Json → TargetRow C.Json) (w w₁ w' : World C)
      (a : Outcome C.Publication)
      → w₁.db ≡ update_target id f w.db
      → ((t : TargetRow C.Json) → SameTarget t (f t))
      → Ended id w₁ w' a
      → Ended id w w' a
  Ended-after id f w w₁ w' a e keep (completed p is c) =
      completed p is (Changed-after id f (IsPublished p) w w₁ w' e keep c)
  Ended-after id f w w₁ w' a e keep (gave_up m is why last c) =
      gave_up m is why last (Changed-after id f (λ t. Unit {0}) w w₁ w' e keep c)

module _ (C : Crates) (E : Env C) (job : JobRow) (target : TargetRow C.Json)
    (event : EventDraft C.types) (provider : ProviderKind) (tokens : C.TokenSet)
    (context : PublishContext C.Json) where
  -- The row after `target_complete`.
  abbrev published_row : C.Publication → C.Json → TargetRow C.Json → TargetRow C.Json
  published_row p v = complete_row (C.publication_status p) v

  running_row-same : (attempt : ℕ) (t : TargetRow C.Json) → SameTarget t (running_row attempt t)
  running_row-same attempt t = record {
    id = refl;
    job_id = refl;
    connection_id = refl;
    provider = refl;
    options = refl;
  }

  -- The world after the pause that follows a retryable error.
  abbrev paused : ℕ → ProviderError → World C → World C
  paused attempt e w =
      let w₁ = (emit C E job (some provider) retrying attempt (C.show_provider_error e) none w).1 in
      (effect (slept (2 ^ attempt)) w₁).1

  -- From the world after the request of an attempt.
  after_attempt-Ended :
      (retry : Task C (Outcome C.Publication)) (attempt : ℕ)
      (answer : Result C.Publication ProviderError) (w w₀ w₁ w' : World C)
      (a : Outcome C.Publication)
      → E.publish provider tokens event context w₀ ≡ answer
      → w₁.db ≡ update_target target.id (running_row attempt) w.db
      → 1 ≤ attempt
      → attempt ≤ 3
      → (attempt ≤ 2
          → (w₂ : World C) → w₂.db ≡ w₁.db
          → retry w₂ ≡ (ok a, w')
          → Ended C E target.id w₂ w' a)
      → after_attempt C E job target event provider tokens context retry attempt answer w₁
        ≡ (ok a, w')
      → Ended C E target.id w w' a
  unfolding after_attempt emit
  after_attempt-Ended retry attempt (ok p) w w₀ w₁ w' a asked state low high again h =
      elim (Result-cases (C.publication_to_value p)) [
        | inr (e, bad) ↦ absurd (ground arith)
        | inl (v, good) ↦
            let put = query (target_complete (E.refuses w₁) target.id (C.publication_status p) v) in
            let (_, stored, k) = >>=-eq-ok put _ w₁ (rw good at h) in
            let value : a
                ≡ record { published = some p; final_error = none; final_attempt = attempt } =
              ground arith in
            let after : w'.db ≡ update_target target.id (published_row p v) w₁.db =
              ap (λ o. o.1.db) (sym k)
              ∙ target_complete-eq (E.refuses w₁) target.id (C.publication_status p) v w₁.db
                  (put w₁).1.db (λ i. ((stored i).0, (stored i).1.db)) in
            completed p (ap (λ (o : Outcome C.Publication). o.published) value) (record {
              change = λ t. published_row p v (running_row attempt t);
              state =
                  after
                  ∙ ap (λ d. update_target target.id (published_row p v) d) state
                  ∙ update_target_twice target.id (running_row attempt) (published_row p v) w.db
                      (running_row-same attempt);
              keeps = λ t. record {
                id = refl;
                job_id = refl;
                connection_id = refl;
                provider = refl;
                options = refl;
              };
              holds = λ t. record {
                adapter = provider;
                tokens = tokens;
                event = event;
                context = context;
                asked = w₀;
                answered = asked;
                status = refl;
                first = low;
                last = high;
                error = refl;
                value = v;
                printed = good;
                result = refl;
              };
            })
      ]
  after_attempt-Ended retry attempt (err e) w w₀ w₁ w' a asked state low high again h =
      elim (Bool-cases (ltb attempt 3 && is_retryable e)) [
        | inl retried ↦
            Ended-after C E target.id (running_row attempt) w (paused attempt e w₁) w' a state
              (running_row-same attempt)
              (again (ground arith) (paused attempt e w₁) refl (rw retried at h))
        | inr stopped ↦
            let value : a ≡ record {
              published = none;
              final_error = some (C.show_provider_error e);
              final_attempt = attempt;
            } =
              ground arith in
            let same : w'.db ≡ w₁.db = ground arith in
            gave_up (C.show_provider_error e)
              (ap (λ (o : Outcome C.Publication). o.published) value)
              (ap (λ (o : Outcome C.Publication). o.final_error) value) (rw value high)
              (record {
                change = running_row attempt;
                state = same ∙ state;
                keeps = running_row-same attempt;
                holds = λ t. tt;
              })
      ]

  attempt-Ended :
      (rounds attempt final_attempt : ℕ) (w w' : World C) (a : Outcome C.Publication)
      → 1 ≤ attempt
      → attempt ≤ 3
      → (attempt ≤ 2
          → (w₂ : World C)
          → attempts C E job target event provider tokens context rounds (suc attempt) attempt w₂
            ≡ (ok a, w')
          → Ended C E target.id w₂ w' a)
      → attempts C E job target event provider tokens context (suc rounds) attempt final_attempt w
        ≡ (ok a, w')
      → Ended C E target.id w w' a
  unfolding attempts emit request
  attempt-Ended rounds attempt final_attempt w w' a low high again h =
      let start = query (target_running (E.refuses w) target.id attempt) in
      let (_, stored, k) = >>=-eq-ok start _ w h in
      let w₁ = (start w).1 in
      let state : w₁.db ≡ update_target target.id (running_row attempt) w.db =
        target_running-eq (E.refuses w) target.id attempt w.db w₁.db
          (λ i. ((stored i).0, (stored i).1.db)) in
      let w₂ =
        (emit C E job (some provider) running attempt "provider request started" none w₁).1 in
      let w₃ = (request C E job target event provider tokens context w₂).1 in
      after_attempt-Ended
        (attempts C E job target event provider tokens context rounds (suc attempt) attempt) attempt
        (E.publish provider tokens event context w₂) w w₂ w₃ w' a refl state low high
        (λ le w₄ e k'. again le w₄ k') k

  -- The loop from any attempt on, with the rounds that are left after it.
  pub attempts-Ended :
      (rounds attempt final_attempt : ℕ) (w w' : World C) (a : Outcome C.Publication)
      → attempt + rounds ≡ 3
      → 1 ≤ attempt
      → attempts C E job target event provider tokens context (suc rounds) attempt final_attempt w
        ≡ (ok a, w')
      → Ended C E target.id w w' a
  attempts-Ended zero attempt final_attempt w w' a sum low h =
      attempt-Ended zero attempt final_attempt w w' a low (omega arith)
        (λ le w₂ k. absurd (omega arith)) h
  attempts-Ended (suc rounds) attempt final_attempt w w' a sum low h =
      attempt-Ended (suc rounds) attempt final_attempt w w' a low (omega arith)
        (λ le w₂ k.
          attempts-Ended rounds (suc attempt) attempt w₂ w' a (omega arith) (omega arith) k)
        h
