-- ===== src/Store/Operations/Isolated.antt =====
-- What the calls of one user leave of what another user reads of src/store.rs.
use evgl_api.Base.{
  ℕ, String, List, ◌≡◌, refl, ap, true, false, any, find, filter, ◌∙◌, arith, inl, inr, Bool-cases,
  Option-cases, Bool, Option, some, none, ◌==◌, not, sort_by, take, sym,
}
use evgl_api.Base.Tables.{filter-update, filter-filter_keep, find-filter}
use evgl_api.Rust.{ok, Result-cases}
use evgl_api.Domain.{Crates, EventDraft, ProviderKind, PublishTarget}
use evgl_api.Database.{
  Database, ConnectionRow, EventRow, JobRow, same_connection, same_account, settle-keep,
}
use evgl_api.Store.Sessions.{create_oauth_session, consume_oauth_session, is_live}
use evgl_api.Store.Connections.{
  upsert_connection, connection_row, refresh, delete_connection, is_users, list_connections,
  listed_before, get_connection,
}
use evgl_api.Store.Events.{
  create_event, list_events, get_event, is_owners, decode_all, newest_first,
}
use evgl_api.Store.Jobs.{enqueue_job, enqueue_after, enqueue_unless, enqueue_new}
use evgl_api.Store.Jobs.Claims.{claim_targets_keeps, finish_job_keeps}
use evgl_api.Store.Jobs.Enqueue.{enqueue_new_lem}
use evgl_api.Store.Jobs.Idempotency.{enqueue_job_ways, enqueue_job_atomic}
use evgl_api.Store.Targets.Updates.{
  target_running_keeps, target_complete_keeps, target_failed_keeps,
}
use evgl_api.Store.Operations.{
  creates_session, consumes_session, upserts_connection, deletes_connection, creates_event,
  enqueues_job, enqueues_after, claims_targets, finishes_job, runs_target, completes_target,
  fails_target, Operation, perform,
}

-- A call that stores or deletes a connection or an event of the user.
abbrev pub acts_for : {C : Crates} → ℕ → Operation C → Bool
acts_for user (upserts_connection _ _ owner _ _ _ _ _) = owner == user
acts_for user (deletes_connection owner _) = owner == user
acts_for user (creates_event _ event) = event.owner_id == user
acts_for user _ = false

module _ {Json : Type 0} (user : ℕ) where
  abbrev owns_connection : ConnectionRow Json → Bool
  owns_connection c = c.user_id == user

  abbrev owns_event : EventRow Json → Bool
  owns_event e = e.owner_id == user

  -- The user's own rows, which the store's reads go by.
  abbrev pub own_rows : Database Json → List (ConnectionRow Json) × List (EventRow Json)
  own_rows db = (filter owns_connection db.provider_connections, filter owns_event db.events)

  consume_oauth_session_own :
      (now : ℕ) (hash : String) (db : Database Json)
      → own_rows (consume_oauth_session now hash db).1 ≡ own_rows db
  unfolding consume_oauth_session
  consume_oauth_session_own now hash db =
      elim (Option-cases (find (is_live now hash) db.oauth_sessions)) [
        | inl missing ↦ rw missing refl
        | inr (_, found) ↦ rw found refl
      ]

  delete_connection_own :
      (owner id : ℕ) (db : Database Json)
      → (owner == user) ≡ false
      → own_rows (delete_connection owner id db).1 ≡ own_rows db
  unfolding delete_connection
  delete_connection_own owner id db other =
      let kept =
        filter-filter_keep owns_connection (λ c. not (is_users owner id c)) db.provider_connections
          (λ c own. ground (arith, own, other)) in
      elim (Bool-cases (any (is_users owner id) db.provider_connections)) [
        | inr missing ↦ rw missing (λ i. (kept i, filter owns_event db.events))
        | inl hit ↦ elim (Bool-cases (any (λ t. t.connection_id == id) db.cross_post_targets)) [
          | inl used ↦ rw (hit, used) refl
          | inr free ↦ rw (hit, free) (λ i. (kept i, filter owns_event db.events))
        ]
      ]

module _ (C : Crates) (user : ℕ) where
  create_oauth_session_own :
      (now : ℕ) (hash : String) (owner : ℕ) (provider : ProviderKind) (verifier : Option String)
      (uses_pkce : Bool) (db : Database C.Json)
      → own_rows user (create_oauth_session C now hash owner provider verifier uses_pkce db).1
        ≡ own_rows user db
  unfolding create_oauth_session
  create_oauth_session_own now hash owner provider verifier uses_pkce db = ground arith

  upsert_connection_own :
      (now id owner : ℕ) (provider : ProviderKind) (key name : String) (metadata : C.Json)
      (envelope : String) (db : Database C.Json)
      → (owner == user) ≡ false
      → own_rows user (upsert_connection C now id owner provider key name metadata envelope db).1
        ≡ own_rows user db
  unfolding upsert_connection
  upsert_connection_own now id owner provider key name metadata envelope db other =
      let row = connection_row C now id owner provider key name metadata envelope in
      elim (Option-cases (find (same_account row) db.provider_connections)) [
        | inr (old, found) ↦
            let kept =
              filter-update (owns_connection user) (same_account row) (refresh now row)
                db.provider_connections (λ c same. ground (arith, same, other)) (λ c. refl) in
            rw found (λ i. (kept i, filter (owns_event user) db.events))
        | inl missing ↦ elim (Bool-cases (any (same_connection row) db.provider_connections)) [
          | inl taken ↦ rw (missing, taken) refl
          | inr free ↦ rw (missing, free, other) refl
        ]
      ]

  create_event_own :
      (now : ℕ) (event : EventDraft C.types) (db : Database C.Json)
      → (event.owner_id == user) ≡ false
      → own_rows user (create_event C now event db).1 ≡ own_rows user db
  unfolding create_event
  create_event_own now event db other = elim (Result-cases (C.validate_event event)) [
    | inr (_, invalid) ↦ rw invalid refl
    | inl (_, valid) ↦ elim (Result-cases (C.event_to_value event)) [
      | inr (_, unprintable) ↦ rw (valid, unprintable) refl
      | inl (v, printed) ↦ elim (Bool-cases (any (λ e. event.id == e.id) db.events)) [
        | inl taken ↦ rw (valid, printed, taken) refl
        | inr new ↦ rw (valid, printed, new, other) refl
      ]
    ]
  ]

  enqueue_job_own :
      (now : ℕ) (fresh : ℕ → ℕ) (owner event_id : ℕ) (key : String)
      (targets : List (PublishTarget C.Json)) (db : Database C.Json)
      → own_rows user (enqueue_job C now fresh owner event_id key targets db).1 ≡ own_rows user db
  enqueue_job_own now fresh owner event_id key targets db =
      let q = enqueue_job C now fresh owner event_id key targets in
      elim (Result-cases (q db).0) [
        | inr (e, failed) ↦ ap (own_rows user) (
            enqueue_job_atomic C now fresh owner event_id key targets db e (q db).1
              (λ i. (failed i, (q db).1)))
        | inl (r, made) ↦
            elim (enqueue_job_ways C now fresh owner event_id key targets db r (q db).1
              (λ i. (made i, (q db).1))) [
                | inl (_, _, same) ↦ ap (own_rows user) same
                | inr (_, _, same) ↦ ap (own_rows user) same
              ]
      ]

  enqueue_after_own :
      (read : Option JobRow) (now : ℕ) (fresh : ℕ → ℕ) (owner event_id : ℕ) (key : String)
      (targets : List (PublishTarget C.Json)) (db : Database C.Json)
      → own_rows user (enqueue_after C read now fresh owner event_id key targets db).1
        ≡ own_rows user db
  unfolding enqueue_after enqueue_unless
  enqueue_after_own (some found) now fresh owner event_id key targets db = refl
  enqueue_after_own none now fresh owner event_id key targets db =
      settle-keep (λ d. own_rows user d ≡ own_rows user db)
        (enqueue_new C now fresh owner event_id key targets db) db
        (λ r db' made.
          ap (own_rows user)
            ((enqueue_new_lem C now fresh owner event_id key targets db r db' made).1))
        refl

  pub perform_own :
      (o : Operation C) (db : Database C.Json)
      → acts_for user o ≡ false
      → own_rows user (perform o db) ≡ own_rows user db
  perform_own (creates_session now hash owner provider verifier uses_pkce) db other =
      create_oauth_session_own now hash owner provider verifier uses_pkce db
  perform_own (consumes_session now hash) db other = consume_oauth_session_own user now hash db
  perform_own (upserts_connection now id owner provider key name metadata envelope) db other =
      upsert_connection_own now id owner provider key name metadata envelope db other
  perform_own (deletes_connection owner id) db other = delete_connection_own user owner id db other
  perform_own (creates_event now event) db other = create_event_own now event db other
  perform_own (enqueues_job now fresh owner event_id key targets) db other =
      enqueue_job_own now fresh owner event_id key targets db
  perform_own (enqueues_after read now fresh owner event_id key targets) db other =
      enqueue_after_own read now fresh owner event_id key targets db
  perform_own (claims_targets R now job_id) db other =
      claim_targets_keeps R now job_id db (λ d. own_rows user d ≡ own_rows user db) refl refl
  perform_own (finishes_job R now job_id) db other =
      finish_job_keeps R now job_id db (λ d. own_rows user d ≡ own_rows user db) refl (λ _. refl)
  perform_own (runs_target R id attempt) db other =
      target_running_keeps R id (λ d. own_rows user d ≡ own_rows user db) attempt db refl refl
  perform_own (completes_target R id status result) db other =
      target_complete_keeps R id (λ d. own_rows user d ≡ own_rows user db) status result db refl
        refl
  perform_own (fails_target R id attempt error) db other =
      target_failed_keeps R id (λ d. own_rows user d ≡ own_rows user db) attempt error db refl refl

  -- Each of the store's reads of connections and events gives the user the same.
  pub record SameReads (before after : Database C.Json) : Type 0 where
    pub connections : (list_connections C user after).0 ≡ (list_connections C user before).0
    pub connection : (id : ℕ) → (get_connection user id after).0 ≡ (get_connection user id before).0
    pub events : (list_events C user after).0 ≡ (list_events C user before).0
    pub event : (id : ℕ) → (get_event C user id after).0 ≡ (get_event C user id before).0

  find_own_connection :
      (id : ℕ) (db db' : Database C.Json)
      → own_rows user db' ≡ own_rows user db
      → find (is_users user id) db'.provider_connections
        ≡ find (is_users user id) db.provider_connections
  find_own_connection id db db' same =
      let owned : (c : ConnectionRow C.Json)
          → is_users user id c ≡ true
          → owns_connection user c ≡ true =
        λ c h. ground (arith, h) in
      find-filter (is_users user id) (owns_connection user) db'.provider_connections owned
      ∙ ap (λ o. find (is_users user id) o.0) same
      ∙ sym (find-filter (is_users user id) (owns_connection user) db.provider_connections owned)

  find_own_event :
      (id : ℕ) (db db' : Database C.Json)
      → own_rows user db' ≡ own_rows user db
      → find (is_owners user id) db'.events ≡ find (is_owners user id) db.events
  find_own_event id db db' same =
      let owned : (e : EventRow C.Json) → is_owners user id e ≡ true → owns_event user e ≡ true =
        λ e h. ground (arith, h) in
      find-filter (is_owners user id) (owns_event user) db'.events owned
      ∙ ap (λ o. find (is_owners user id) o.1) same
      ∙ sym (find-filter (is_owners user id) (owns_event user) db.events owned)

  pub own_rows-SameReads :
      (db db' : Database C.Json) → own_rows user db' ≡ own_rows user db → SameReads db db'
  unfolding list_connections get_connection list_events get_event
  own_rows-SameReads db db' same = record {
    connections = ap (λ o. ok (sort_by (listed_before C) o.0)) same;
    connection = λ id. elim (Option-cases (find (is_users user id) db.provider_connections)) [
      | inl missing ↦ rw (find_own_connection id db db' same, missing) refl
      | inr (_, found) ↦ rw (find_own_connection id db db' same, found) refl
    ];
    events = ap (λ o. decode_all C (take 100 (sort_by newest_first o.1))) same;
    event = λ id. elim (Option-cases (find (is_owners user id) db.events)) [
      | inl missing ↦ rw (find_own_event id db db' same, missing) refl
      | inr (_, found) ↦ rw (find_own_event id db db' same, found) refl
    ];
  }
