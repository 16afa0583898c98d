-- ===== src/Service/Routes.antt =====
-- What each route of src/events.rs and src/jobs.rs keeps.
use evgl_api.Base.{
  ℕ, String, Option, none, some, List, ◌∷◌, ◌≡◌, sym, ap, subst, ◌∙◌, find, All, any, inl, inr,
  if◌then◌else◌, false, Option-cases,
}
use evgl_api.Base.Tables.{Distinct, All-mono}
use evgl_api.Rust.{ok, Result-cases}
use evgl_api.Domain.{Crates, PublishTarget}
use evgl_api.Database.{Database, JobRow, Query, same_key}
use evgl_api.Database.Integrity.{IsConsistent}
use evgl_api.Database.Keep.{Keeps}
use evgl_api.Store.Jobs.{EnqueueResult, new_job, enqueue_after, enqueue_unless}
use evgl_api.Store.Jobs.Race.{enqueue_after-with_job, enqueue_after-fresh}
use evgl_api.Store.Jobs.Idempotency.{enqueue_job_ways}
use evgl_api.Store.Operations.{StoreKeeps, creates_event, enqueues_job, enqueues_after, perform}
use evgl_api.Store.Operations.Consistent.{store-IsConsistent}
use evgl_api.Store.Operations.Keys.{HasKeyOf, store-HasKeyOf}
use evgl_api.Store.Events.{create_event}
use evgl_api.Store.Jobs.{get_job, is_users_job}
use evgl_api.App.{AppState, query, ◌>>=◌, channel}
use evgl_api.Web.{Web}
use evgl_api.Events.{CreateEventInput, new_event, create, cross_post, post}
use evgl_api.Events.CrossPost.{cross_post-IsPosted, cross_post_atomic}
use evgl_api.Jobs.{websocket}
use evgl_api.App.Channels.{IsAllocated, channel-IsAllocated, channel-keeps}
use evgl_api.Service.Keys.{fresh_key, own_key, new_job-fresh}

-- The tables are consistent, every job has its own channel, and the workers that were started have
-- stored jobs with keys of their own.
pub record IsSound {C : Crates} (s : AppState C) : Type 0 where
  pub consistent : IsConsistent s.db
  pub allocated : IsAllocated s
  pub once : Distinct same_key s.spawned
  pub stored : All (λ j. HasKeyOf j s.db) s.spawned

module _ (C : Crates) where
  -- What a change of the tables keeps that keeps them consistent and their keys.
  pub through-IsSound :
      (db' : Database C.Json) (s : AppState C)
      → (IsConsistent s.db → IsConsistent db')
      → ((j : JobRow) → HasKeyOf j s.db → HasKeyOf j db')
      → IsSound s
      → IsSound (record s { db = db' })
  through-IsSound db' s consistent keys h = record {
    consistent = consistent h.consistent;
    allocated = record { below = h.allocated.below; own = h.allocated.own };
    once = h.once;
    stored = All-mono (λ j. HasKeyOf j s.db) (λ j. HasKeyOf j db') s.spawned keys h.stored;
  }

  pub query-IsSound :
      {A : Type 0} (q : Query C.Json A) (s : AppState C)
      → ((P : Database C.Json → Type 0) → StoreKeeps C P → Keeps P q)
      → IsSound s
      → IsSound (record s { db = (q s.db).1 })
  query-IsSound q s keep h =
      through-IsSound (q s.db).1 s (keep IsConsistent (store-IsConsistent C) s.db)
        (λ j. keep (HasKeyOf j) (store-HasKeyOf C j) s.db) h

  pub create-IsSound :
      (now id user_id : ℕ) (input : CreateEventInput C) (s : AppState C)
      → IsSound s
      → IsSound (create C now id user_id input s).1
  unfolding create
  create-IsSound now id user_id input s h =
      let event = new_event id user_id input in
      let made =
        through-IsSound (create_event C now event s.db).1 s
          (store-IsConsistent C (creates_event now event) s.db)
          (λ j. store-HasKeyOf C j (creates_event now event) s.db) h in
      elim (Result-cases (create_event C now event s.db).0) [
        | inr (_, failed) ↦ rw failed made
        | inl (_, succeeded) ↦ rw succeeded (record {
          consistent = made.consistent;
          allocated = record { below = made.allocated.below; own = made.allocated.own };
          once = made.once;
          stored = made.stored;
        })
      ]

  pub channel-IsSound : (job_id : ℕ) (s : AppState C) → IsSound s → IsSound (channel job_id s).1
  channel-IsSound job_id s h =
      let (same_db, same_spawned) = channel-keeps job_id s in
      record {
        consistent = subst IsConsistent (sym same_db) h.consistent;
        allocated = channel-IsAllocated job_id s h.allocated;
        once = subst (Distinct same_key) (sym same_spawned) h.once;
        stored = rw (same_db, same_spawned) (h.stored);
      }

  pub websocket-IsSound :
      (user_id job_id : ℕ) (s : AppState C) → IsSound s → IsSound (websocket user_id job_id s).1
  unfolding websocket get_job
  websocket-IsSound user_id job_id s h =
      elim (Option-cases (find (is_users_job user_id job_id) s.db.cross_post_jobs)) [
        | inl missing ↦ rw missing h
        | inr (_, found) ↦ rw found (channel-IsSound job_id s h)
      ]

  -- A worker is started for a job whose key no job had and that is now stored.
  started-IsSound :
      (started : JobRow) (s : AppState C) (db' : Database C.Json)
      → any (same_key started) s.db.cross_post_jobs ≡ false
      → IsSound s
      → IsSound (record s { db = db' })
      → HasKeyOf started db'
      → IsSound (record s { db = db'; spawned = started ∷ s.spawned })
  started-IsSound started s db' unused h made stored = record {
    consistent = made.consistent;
    allocated = record { below = h.allocated.below; own = h.allocated.own };
    once = (fresh_key started s.db.cross_post_jobs s.spawned unused h.stored, h.once);
    stored = (stored, made.stored);
  }

  module _ (now : ℕ) (fresh : ℕ → ℕ) (user_id event_id : ℕ)
      (targets : List (PublishTarget C.Json)) where
    raced_new-IsSound :
        (key : String) (s : AppState C) (r : EnqueueResult) (db' : Database C.Json)
        → enqueue_after C none now fresh user_id event_id key targets s.db ≡ (ok r, db')
        → IsSound s
        → IsSound (record s { db = db' })
        → IsSound (
            if r.created
            then record s { db = db'; spawned = r.job ∷ s.spawned }
            else record s { db = db' })
    raced_new-IsSound key s r db' e h made =
        let started = new_job C now (fresh 0) user_id event_id key in
        let (is_new, state) =
          enqueue_after-with_job C now fresh user_id event_id key targets s.db r db' e in
        let unused = enqueue_after-fresh C now fresh user_id event_id key targets s.db db' r e in
        rw is_new (
          started-IsSound started s db' unused h made
            (subst (HasKeyOf started) (sym state) (own_key started _)))

    pub raced-IsSound :
        (read : Option JobRow) (key : String) (s : AppState C)
        → IsSound s
        → IsSound
            ((query (enqueue_after C read now fresh user_id event_id key targets) >>= post) s).1
    unfolding enqueue_after enqueue_unless
    raced-IsSound (some old) key s h =
        through-IsSound s.db s (λ consistent. consistent) (λ _ stored. stored) h
    raced-IsSound none key s h =
        let stored = enqueue_after C none now fresh user_id event_id key targets s.db in
        let enqueue = enqueues_after none now fresh user_id event_id key targets in
        let made : IsSound (record s { db = stored.1 }) =
          through-IsSound stored.1 s (store-IsConsistent C enqueue s.db)
            (λ j. store-HasKeyOf C j enqueue s.db) h in
        elim (Result-cases stored.0) [
          | inr (_, failed) ↦ rw failed made
          | inl (r, returned) ↦
              rw returned (raced_new-IsSound key s r stored.1 (λ i. (returned i, stored.1)) h made)
        ]

  module _ (W : Web C) (now : ℕ) (fresh : ℕ → ℕ) (user_id event_id : ℕ)
      (headers : String → Option W.HeaderValue) (targets : List (PublishTarget C.Json)) where
    posted-IsSound :
        (s s' : AppState C) (status : ℕ) (job : JobRow)
        → cross_post C W now fresh user_id event_id headers targets s ≡ (ok (status, job), s')
        → IsSound s
        → IsSound s'
    posted-IsSound s s' status job e h =
        let p =
          cross_post-IsPosted C W now fresh user_id event_id headers targets s s' status job e in
        let enqueue = enqueues_job now fresh user_id event_id p.key targets in
        let same_db : s'.db ≡ perform enqueue s.db = sym (ap (λ o. o.1) p.enqueued) in
        let made =
          through-IsSound (perform enqueue s.db) s (store-IsConsistent C enqueue s.db)
            (λ j. store-HasKeyOf C j enqueue s.db) h in
        elim (enqueue_job_ways C now fresh user_id event_id p.key targets s.db p.result s'.db
          p.enqueued) [
            | inl (_, old, _) ↦
                subst IsSound
                  (sym (
                    p.after ∙ (λ i. record s {
                      db = same_db i;
                      spawned = if old i then p.result.job ∷ s.spawned else s.spawned;
                    })))
                  made
            | inr (new, is_new, state) ↦
                let started = new_job C now (fresh 0) user_id event_id p.key in
                let unused =
                  new_job-fresh C now (fresh 0) user_id event_id p.key s.db.cross_post_jobs new in
                subst IsSound
                  (sym (
                    p.after ∙ (λ i. record s {
                      db = s'.db;
                      spawned =
                          if (is_new i).created then (is_new i).job ∷ s.spawned else s.spawned;
                    })))
                  (started-IsSound started s s'.db unused h
                    (subst (λ db'. IsSound (record s { db = db' })) (sym same_db) made)
                    (subst (HasKeyOf started) (sym state) (own_key started _)))
          ]

    pub cross_post-IsSound :
        (s : AppState C)
        → IsSound s
        → IsSound (cross_post C W now fresh user_id event_id headers targets s).1
    cross_post-IsSound s h =
        let post = cross_post C W now fresh user_id event_id headers targets in
        elim (Result-cases (post s).0) [
          | inr (e, failed) ↦
              subst IsSound
                (sym (
                  cross_post_atomic C W now fresh user_id event_id headers targets s (post s).1 e
                    (λ i. (failed i, (post s).1))))
                h
          | inl ((status, job), succeeded) ↦
              posted-IsSound s (post s).1 status job (λ i. (succeeded i, (post s).1)) h
        ]
