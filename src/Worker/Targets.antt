-- ===== src/Worker/Targets.antt =====
-- What one pass of the loop over the targets in src/worker.rs does to its target.
use evgl_api.Base.{
  ℕ, ◌≤◌, String, Option, none, some, ◌≡◌, inl, inr, refl, sym, ap, ◌∙◌, arith, ◌==◌, Bool-cases,
}
use evgl_api.Rust.{Result, ok, err}
use evgl_api.Domain.{Crates, EventDraft, ProviderKind, PublishContext}
use evgl_api.Database.{unless_refused-state, reads_connection, JobRow, TargetRow, ConnectionRow}
use evgl_api.Error.{ApiError}
use evgl_api.Store.Targets.{update_target, failed_row, target_failed}
use evgl_api.Store.Targets.Updates.{target_failed-eq}
use evgl_api.Store.Connections.{get_connection, aad}
use evgl_api.Store.Connections.Ownership.{get_connection-state}
use evgl_api.Worker.{
  World, Env, Outcome, query, read_connection, emit, attempts, conclude, fail_target, publish_with,
  with_tokens, with_connection, with_provider, run_target, >>=-eq-ok,
}
use evgl_api.Worker.Attempts.{
  IsPublished, IsFailed, Changed, Changed-after, Ended, completed, gave_up, attempts-Ended,
}

module _ (C : Crates) (E : Env C) where
  -- A target that the task is through with: published, or failed with a reason.
  pub data IsSettled (t : TargetRow C.Json) : Type 0 where
    published : (p : C.Publication) → IsPublished C E p t → IsSettled t
    failed : IsFailed C E t → IsSettled t

  Changed-from :
      (id : ℕ) (P : TargetRow C.Json → Type 0) (w w₁ w' : World C)
      → w₁.db ≡ w.db
      → Changed C E id P w₁ w'
      → Changed C E id P w w'
  Changed-from id P w w₁ w' e c = record {
    change = c.change;
    state = c.state ∙ ap (λ d. update_target id c.change d) e;
    keeps = c.keeps;
    holds = c.holds;
  }

module _ (C : Crates) (E : Env C) (job : JobRow) where
  -- `fail_target` fails its target, and does nothing else to the database.
  fail_target-Changed :
      (id : ℕ) (provider : Option ProviderKind) (attempt : ℕ) (error : String) (w w' : World C)
      → attempt ≤ 3
      → fail_target C E job id provider attempt error w ≡ (ok tt, w')
      → Changed C E id (IsSettled C E) w w'
  unfolding fail_target emit
  fail_target-Changed id provider attempt error w w' low h =
      let put = query (target_failed (E.refuses w) id attempt error) in
      let (_, stored, k) = >>=-eq-ok put _ w h in
      record {
        change = failed_row attempt error;
        state =
            ap (λ r. r.1.db) (sym k)
            ∙ target_failed-eq (E.refuses w) id attempt error w.db (put w).1.db
                (λ i. ((stored i).0, (stored i).1.db));
        keeps = λ t. record {
          id = refl;
          job_id = refl;
          connection_id = refl;
          provider = refl;
          options = refl;
        };
        holds = λ t.
            IsSettled.failed (record { status = refl; last = low; reason = error; error = refl });
      }

  module _ (target : TargetRow C.Json) (event : EventDraft C.types) where
    conclude-Changed :
        (provider : ProviderKind) (tokens : C.TokenSet) (context : PublishContext C.Json)
        (a : Outcome C.Publication) (w w₁ w' : World C)
        → Ended C E target.id w w₁ a
        → conclude C E job target event provider tokens context a w₁ ≡ (ok tt, w')
        → Changed C E target.id (IsSettled C E) w w'
    unfolding conclude
    conclude-Changed provider tokens context a w w₁ w' (completed p is c) h =
        let same : w₁ ≡ w' = ground arith in
        record {
          change = c.change;
          state = ap (λ (w : World C). w.db) (sym same) ∙ c.state;
          keeps = c.keeps;
          holds = λ t. IsSettled.published p (c.holds t);
        }
    conclude-Changed provider tokens context a w w₁ w' (gave_up e missed why last c) h =
        Changed-after C E target.id c.change (IsSettled C E) w w₁ w' c.state c.keeps (
          fail_target-Changed target.id (some provider) a.final_attempt _ w₁ w' last
            (rw missed at h))

    publish_with-Changed :
        (provider : ProviderKind) (tokens : C.TokenSet) (context : PublishContext C.Json)
        (w w' : World C)
        → publish_with C E job target event provider tokens context w ≡ (ok tt, w')
        → Changed C E target.id (IsSettled C E) w w'
    unfolding publish_with
    publish_with-Changed provider tokens context w w' h =
        let loop = attempts C E job target event provider tokens context 3 1 0 in
        let (a, e, k) =
          >>=-eq-ok loop (conclude C E job target event provider tokens context) w h in
        conclude-Changed provider tokens context a w (loop w).1 w'
          (attempts-Ended C E job target event provider tokens context 2 1 0 w (loop w).1 a
            (omega arith) (omega arith) e)
          k

    with_tokens-Changed :
        (provider : ProviderKind) (connection : ConnectionRow C.Json)
        (tokens : Result C.TokenSet String) (w w' : World C)
        → with_tokens C E job target event provider connection tokens w ≡ (ok tt, w')
        → Changed C E target.id (IsSettled C E) w w'
    unfolding with_tokens
    with_tokens-Changed provider connection (err e) w w' h =
        fail_target-Changed target.id (some provider) 0 _ w w' (omega arith) h
    with_tokens-Changed provider connection (ok tokens) w w' h =
        publish_with-Changed provider tokens _ w w' h

    with_connection-Changed :
        (provider : ProviderKind) (connection : Result (ConnectionRow C.Json) ApiError)
        (w w' : World C)
        → with_connection C E job target event provider connection w ≡ (ok tt, w')
        → Changed C E target.id (IsSettled C E) w w'
    unfolding with_connection with_tokens
    with_connection-Changed provider (err e) w w' h =
        fail_target-Changed target.id (some provider) 0 _ w w' (omega arith) h
    with_connection-Changed provider (ok connection) w w' h =
        elim (Bool-cases (E.configured provider)) [
          | inr off ↦
              fail_target-Changed target.id (some provider) 0 _ w w' (omega arith) (rw off at h)
          | inl on ↦
              with_tokens-Changed provider connection
                (E.decrypt (aad C connection) connection.token_envelope) w w' (rw on at h)
        ]

    with_provider-Changed :
        (provider : Result ProviderKind String) (w w' : World C)
        → with_provider C E job target event provider w ≡ (ok tt, w')
        → Changed C E target.id (IsSettled C E) w w'
    unfolding with_provider
    with_provider-Changed (err e) w w' h =
        fail_target-Changed target.id none 0 _ w w' (omega arith) h
    with_provider-Changed (ok provider) w w' h =
        let (r, w₁) = read_connection C E job target w in
        Changed-from C E target.id (IsSettled C E) w w₁ w'
          (unless_refused-state (E.refuses w (reads_connection job.user_id target.connection_id))
            (get_connection job.user_id target.connection_id) w.db
            (get_connection-state job.user_id target.connection_id w.db))
          (with_connection-Changed provider r w₁ w' h)

    -- One pass of the loop that returns has settled its target, whichever branch it took, and changed
    -- nothing else in the database.
    pub run_target-Changed :
        (w w' : World C)
        → run_target C E job target event w ≡ (ok tt, w')
        → (target.job_id ≡ job.id) × Changed C E target.id (IsSettled C E) w w'
    unfolding run_target
    run_target-Changed w w' h = elim (Bool-cases (target.job_id == job.id)) [
      | inl own ↦
          (ground arith, with_provider-Changed (C.from_str target.provider) w w' (rw own at h))
      | inr foreign ↦ absurd (ground arith)
    ]
