-- ===== src/Service/Isolated.antt =====
-- What the requests of one user leave of what another user reads.
use evgl_api.Base.{
  ℕ, Bool, String, Option, List, [], ◌∷◌, ◌≡◌, refl, sym, ap, ◌∙◌, false, any, find, ◌==◌, ◌&&◌,
  inl, inr, Option-cases, Bool-cases,
}
use evgl_api.Base.Tables.{any_of_find, find_passes}
use evgl_api.Rust.{ok, ok-injective, Result-cases}
use evgl_api.Domain.{Crates, PublishTarget}
use evgl_api.Database.{Database, OAuthSessionRow, JobRow}
use evgl_api.Store.Sessions.{OAuthSession, session_of, consume_oauth_session, is_live}
use evgl_api.Store.Sessions.Lifetime.{consume_found, consume_missing}
use evgl_api.Store.Events.{create_event}
use evgl_api.Store.Jobs.{get_job, is_users_job, enqueue_after}
use evgl_api.Store.Operations.{
  Operation, KeepsOf, creates_event, enqueues_job, enqueues_after, claims_targets, finishes_job,
  runs_target, completes_target, fails_target,
}
use evgl_api.Store.Operations.Isolated.{
  acts_for, own_rows, perform_own, SameReads, own_rows-SameReads,
}
use evgl_api.Worker.{World, Env, Effect, sent, requested, slept, run}
use evgl_api.Worker.Keep.{run_keeps}
use evgl_api.App.{AppState, query, ◌>>=◌}
use evgl_api.App.Channels.{channel-keeps}
use evgl_api.Web.{Web}
use evgl_api.Events.{CreateEventInput, new_event, create, cross_post, post}
use evgl_api.Events.CrossPost.{cross_post-IsPosted, cross_post_atomic}
use evgl_api.Jobs.{websocket}
use evgl_api.OAuth.Handlers.{Services}
use evgl_api.OAuth.Keep.{start-Keeps, callback-Keeps, create_manual-Keeps, delete_connection-Keeps}
use evgl_api.Service.{
  Request, post_start, get_callback, post_manual, delete_one, post_event, post_cross_post,
  post_cross_post_after, get_job_socket, worker_call, worker_run, serve, serve_all, tell,
}

-- A session that is consumed is a live one, of its user.
consumed-live :
    {Json : Type 0} (user now : ℕ) (hash : String) (db : Database Json) (session : OAuthSession)
    → (consume_oauth_session now hash db).0 ≡ ok session
    → any (λ row. is_live now hash row && row.user_id == user) db.oauth_sessions ≡ false
    → (session.user_id == user) ≡ false
consumed-live user now hash db session returned others =
    let theirs : OAuthSessionRow → Bool = λ row. is_live now hash row && row.user_id == user in
    elim (Option-cases (find (is_live now hash) db.oauth_sessions)) [
      | inl missing ↦ cc (consume_missing now hash db missing, returned)
      | inr (row, found) ↦
          let same : session_of row ≡ session =
            ok-injective (sym (ap (λ o. o.0) (consume_found now hash db found)) ∙ returned) in
          let live = find_passes (is_live now hash) db.oauth_sessions found in
          elim (Bool-cases (row.user_id == user)) [
            | inr other ↦ ap (λ (o : OAuthSession). o.user_id == user) (sym same) ∙ other
            | inl own ↦
                let hit =
                  any_of_find (is_live now hash) theirs db.oauth_sessions found
                    (rw (live, own) refl) in
                cc (hit, others)
          ]
    ]

module _ (C : Crates) (S : Services C) (W : Web C) (user : ℕ) where
  -- A request that stores or deletes a connection or an event of the user; a callback does for the
  -- user whose session its state is of.
  abbrev pub acts_in : Request C S W → AppState C → Bool
  acts_in (get_callback now _ _ query) s =
      any (λ row. is_live now (S.hash_state query.state) row && row.user_id == user)
        s.db.oauth_sessions
  acts_in (post_manual _ _ _ owner _) s = owner == user
  acts_in (delete_one owner _) s = owner == user
  acts_in (post_event _ _ owner _) s = owner == user
  acts_in (worker_call o) s = acts_for user o
  acts_in (post_start _ _ _ _ _) s = false
  acts_in (post_cross_post _ _ _ _ _ _) s = false
  acts_in (post_cross_post_after _ _ _ _ _ _ _) s = false
  acts_in (get_job_socket _ _) s = false
  acts_in (worker_run _ _) s = false

  -- None of the requests, each where it is served, acts for the user.
  abbrev pub AreOthers : List (Request C S W) → AppState C → Type 0
  AreOthers [] s = Unit
  AreOthers (r ∷ rs) s = (acts_in r s ≡ false) × AreOthers rs (serve C S W r s)

  abbrev Allowed : Operation C → Type 0
  Allowed o = acts_for user o ≡ false

  module _ (s : AppState C) where
    -- The user's rows are those before the request.
    abbrev Same : Database C.Json → Type 0
    Same db = own_rows user db ≡ own_rows user s.db

    keep : KeepsOf C Allowed Same
    keep o allowed db same = perform_own C user o db allowed ∙ same

    create_own :
        (now id owner : ℕ) (input : CreateEventInput C)
        → (owner == user) ≡ false
        → Same (create C now id owner input s).1.db
    unfolding create
    create_own now id owner input other =
        let event = new_event id owner input in
        let made = perform_own C user (creates_event now event) s.db other in
        elim (Result-cases (create_event C now event s.db).0) [
          | inr (_, failed) ↦ rw failed made
          | inl (_, succeeded) ↦ rw succeeded made
        ]

    cross_post_own :
        (now : ℕ) (fresh : ℕ → ℕ) (owner event_id : ℕ) (headers : String → Option W.HeaderValue)
        (targets : List (PublishTarget C.Json))
        → Same (cross_post C W now fresh owner event_id headers targets s).1.db
    cross_post_own now fresh owner event_id headers targets =
        let q = cross_post C W now fresh owner event_id headers targets in
        elim (Result-cases (q s).0) [
          | inr (e, failed) ↦
              ap (λ (t : AppState C). own_rows user t.db)
                (cross_post_atomic C W now fresh owner event_id headers targets s (q s).1 e
                  (λ i. (failed i, (q s).1)))
          | inl ((status, job), succeeded) ↦
              let p =
                cross_post-IsPosted C W now fresh owner event_id headers targets s (q s).1 status
                  job (λ i. (succeeded i, (q s).1)) in
              ap (λ o. own_rows user o.1) (sym p.enqueued)
              ∙ perform_own C user (enqueues_job now fresh owner event_id p.key targets) s.db refl
        ]

    raced_own :
        (read : Option JobRow) (now : ℕ) (fresh : ℕ → ℕ) (owner event_id : ℕ) (key : String)
        (targets : List (PublishTarget C.Json))
        → Same ((query (enqueue_after C read now fresh owner event_id key targets) >>= post) s).1.db
    raced_own read now fresh owner event_id key targets =
        let o = enqueues_after read now fresh owner event_id key targets in
        let made = perform_own C user o s.db refl in
        elim (Result-cases (enqueue_after C read now fresh owner event_id key targets s.db).0) [
          | inr (_, failed) ↦ rw failed made
          | inl (r, returned) ↦ elim (Bool-cases r.created) [
            | inl new ↦ rw (returned, new) made
            | inr old ↦ rw (returned, old) made
          ]
        ]

    websocket_own : (owner job_id : ℕ) → Same (websocket owner job_id s).1.db
    unfolding websocket get_job
    websocket_own owner job_id =
        elim (Option-cases (find (is_users_job owner job_id) s.db.cross_post_jobs)) [
          | inl missing ↦ rw missing refl
          | inr (_, found) ↦ rw found (ap (own_rows user) (channel-keeps job_id s).0)
        ]

    run_own : (E : Env C) (job : JobRow) (w : World C) → Same w.db → Same (run C E job w).1.db
    run_own E job =
        run_keeps C E job (λ w. Same w.db)
          (record {
            claims = λ R now w. keep (claims_targets R now job.id) refl w.db;
            finishes = λ R now w. keep (finishes_job R now job.id) refl w.db;
            starts = λ R id attempt w. keep (runs_target R id attempt) refl w.db;
            completes = λ R id status value w. keep (completes_target R id status value) refl w.db;
            fails = λ R id attempt error w. keep (fails_target R id attempt error) refl w.db;
            sends = λ u w same_job same_event h. h;
            asks = λ p w h. h;
            pauses = λ t w h. h;
          })

  tell_db : (trace : List (Effect C.Publication)) (s : AppState C) → (tell C S W trace s).db ≡ s.db
  tell_db [] s = refl
  tell_db (sent job_id u ∷ earlier) s =
      (channel-keeps job_id (tell C S W earlier s)).0 ∙ tell_db earlier s
  tell_db (requested p ∷ earlier) s = tell_db earlier s
  tell_db (slept n ∷ earlier) s = tell_db earlier s

  serve_own :
      (r : Request C S W) (s : AppState C)
      → acts_in r s ≡ false
      → own_rows user (serve C S W r s).db ≡ own_rows user s.db
  serve_own (post_start now state verifier owner path) s other =
      start-Keeps C S Allowed (Same s) (keep s) now state verifier owner path (λ _ _. refl) s.db
        refl
  serve_own (get_callback now fresh path query) s other =
      callback-Keeps C S Allowed (Same s) (keep s) now fresh path query s.db refl
        (λ session returned _ _ _ _ _ _.
          consumed-live user now (S.hash_state query.state) s.db session returned other)
        refl
  serve_own (post_manual now id random owner input) s other =
      create_manual-Keeps C S Allowed (Same s) (keep s) now id random owner input (λ _. other) s.db
        refl
  serve_own (delete_one owner id) s other =
      delete_connection-Keeps C Allowed (Same s) (keep s) owner id other s.db refl
  serve_own (post_event now id owner input) s other = create_own s now id owner input other
  serve_own (post_cross_post now fresh owner event_id headers targets) s other =
      cross_post_own s now fresh owner event_id headers targets
  serve_own (post_cross_post_after read now fresh owner event_id key targets) s other =
      raced_own s read now fresh owner event_id key targets
  serve_own (get_job_socket owner job_id) s other = websocket_own s owner job_id
  serve_own (worker_call o) s other = keep s o other s.db refl
  serve_own (worker_run E job) s other =
      let w : World C = record { db = s.db; trace = [] } in
      let r = run C E job w in
      ap (own_rows user) (tell_db r.1.trace (record s { db = r.1.db })) ∙ run_own s E job w refl

  serve_all_own :
      (rs : List (Request C S W)) (s : AppState C)
      → AreOthers rs s
      → own_rows user (serve_all C S W rs s).db ≡ own_rows user s.db
  serve_all_own [] s others = refl
  serve_all_own (r ∷ rs) s others =
      serve_all_own rs (serve C S W r s) others.1 ∙ serve_own r s others.0

  -- Whatever requests of other users, their OAuth callbacks included, and calls and runs of workers
  -- the service takes, in whatever order and however each ends, each of the store's reads of
  -- connections and events gives the user the same as before.
  pub serve_all-SameReads :
      (rs : List (Request C S W)) (s : AppState C)
      → AreOthers rs s
      → SameReads C user s.db (serve_all C S W rs s).db
  serve_all-SameReads rs s others =
      own_rows-SameReads C user s.db (serve_all C S W rs s).db (serve_all_own rs s others)
