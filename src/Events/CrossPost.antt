-- ===== src/Events/CrossPost.antt =====
-- What the route `cross_post` of src/events.rs does where it succeeds, and on its retries.
use evgl_api.Base.{
  ℕ, Bool, true, false, String, Option, some, none, List, ◌∷◌, ◌≡◌, sym, ap, ◌∙◌, ◌⊎◌, inl, inr,
  find, if◌then◌else◌, arith,
}
use evgl_api.Rust.{Result, ok, err, ok_or, map_err, err-ne-ok, ok_or-ok, Result-cases}
use evgl_api.Error.{ApiError, bad_request}
use evgl_api.Domain.{Crates, EventDraft, PublishTarget}
use evgl_api.Database.{JobRow}
use evgl_api.Store.Events.{get_event}
use evgl_api.Store.Events.Reads.{get_event-state}
use evgl_api.Store.Jobs.{EnqueueResult, enqueue_job, has_key, new_job}
use evgl_api.Store.Jobs.Enqueue.{with_job}
use evgl_api.Store.Jobs.Idempotency.{enqueue_job_ways, enqueue_job_atomic}
use evgl_api.App.{AppState, >>=-eq-ok, >>=-eq-err, ◌>>=◌, query, check}
use evgl_api.Web.{Web, and_then}
use evgl_api.Events.{cross_post, post, spawn}

responded :
    {C : Crates} (r : EnqueueResult) (created : Bool) (t s' : AppState C) (status : ℕ)
    (job : JobRow)
    → ◌≡◌ {A = Result (ℕ × JobRow) ApiError × AppState C}
        (ok (if created then 202 else 200, r.job), if created then spawn r.job t else t)
        (ok (status, job), s')
    → (status ≡ (if created then 202 else 200))
      × (job ≡ r.job)
      × (s' ≡ record t { spawned = if created then r.job ∷ t.spawned else t.spawned })
responded r true t s' status job h = (ground arith, ground arith, ap (λ o. o.1) (sym h))
responded r false t s' status job h = (ground arith, ground arith, ap (λ o. o.1) (sym h))

module _ (C : Crates) (W : Web C) (now : ℕ) (fresh : ℕ → ℕ) (user_id event_id : ℕ)
    (headers : String → Option W.HeaderValue) (targets : List (PublishTarget C.Json)) where
  -- The stages of a request that succeeds.
  pub record IsPosted (s s' : AppState C) (status : ℕ) (job : JobRow) : Type 0 where
    pub key : String
    pub header : and_then (headers "idempotency-key") W.to_str ≡ some key
    pub valid :
        map_err {F = ApiError} bad_request
          (W.validate (record { event_id = event_id; targets = targets; idempotency_key = key }))
        ≡ ok tt
    pub event : EventDraft C.types
    pub owned : get_event C user_id event_id s.db ≡ (ok event, s.db)
    pub result : EnqueueResult
    pub enqueued : enqueue_job C now fresh user_id event_id key targets s.db ≡ (ok result, s'.db)
    pub answered : status ≡ (if result.created then 202 else 200)
    pub returned : job ≡ result.job
    pub after : s' ≡ record s {
      db = s'.db;
      spawned = if result.created then result.job ∷ s.spawned else s.spawned;
    }

  pub cross_post-IsPosted :
      (s s' : AppState C) (status : ℕ) (job : JobRow)
      → cross_post C W now fresh user_id event_id headers targets s ≡ (ok (status, job), s')
      → IsPosted s s' status job
  unfolding cross_post
  cross_post-IsPosted s s' status job h =
      let a =
        >>=-eq-ok
          (check (
            ok_or (and_then (headers "idempotency-key") W.to_str)
              (bad_request "Idempotency-Key header is required")))
          _ s h in
      let b =
        >>=-eq-ok
          (check (
            map_err bad_request (
              W.validate
                (record { event_id = event_id; targets = targets; idempotency_key = a.0 }))))
          _ s a.2 in
      let c = >>=-eq-ok (query (get_event C user_id event_id)) _ s b.2 in
      let enqueue = query (enqueue_job C now fresh user_id event_id a.0 targets) in
      let rest = rw (get_event-state C user_id event_id s.db) at (c.2) in
      let d = >>=-eq-ok enqueue _ s rest in
      let (status_is, job_is, state) = responded d.0 d.0.created _ s' status job d.2 in
      let same_db = ap (λ (t : AppState C). t.db) state in
      record {
        key = a.0;
        header = ok_or-ok _ _ a.0 (ap (λ o. o.0) a.1);
        valid = ap (λ o. o.0) b.1;
        event = c.0;
        owned = λ i. (ap (λ o. o.0) c.1 i, get_event-state C user_id event_id s.db i);
        result = d.0;
        enqueued = λ i. (ap (λ o. o.0) d.1 i, sym same_db i);
        answered = status_is;
        returned = job_is;
        after =
            state
            ∙ ap
                (λ db. record s {
                  db = db;
                  spawned = if d.0.created then d.0.job ∷ s.spawned else s.spawned;
                })
                (sym same_db);
      }

-- A request that succeeds is for an event of the user, and either the key is new: then it answers
-- 202, stores a queued job for the event under the key with a row for each target, and starts its
-- worker; or the user has a job under the key: then it answers 200 with that job, and does nothing.
pub cross_post_lem :
    (C : Crates) (W : Web C) (now : ℕ) (fresh : ℕ → ℕ) (user_id event_id : ℕ)
    (headers : String → Option W.HeaderValue) (targets : List (PublishTarget C.Json))
    (s s' : AppState C) (status : ℕ) (job : JobRow)
    → cross_post C W now fresh user_id event_id headers targets s ≡ (ok (status, job), s')
    → (key : String) × (event : EventDraft C.types) × (and_then (headers "idempotency-key") W.to_str
        ≡ some key)
      × (get_event C user_id event_id s.db ≡ (ok event, s.db))
      × (((find (has_key user_id key) s.db.cross_post_jobs ≡ none)
            × (status ≡ 202)
            × (job ≡ new_job C now (fresh 0) user_id event_id key)
            × (s' ≡ record s {
              db = with_job C now fresh user_id event_id key targets s.db;
              spawned = job ∷ s.spawned;
            }))
          ⊎ ((find (has_key user_id key) s.db.cross_post_jobs ≡ some job)
              × (status ≡ 200)
              × (s' ≡ s)))
cross_post_lem C W now fresh user_id event_id headers targets s s' status job h =
    let p = cross_post-IsPosted C W now fresh user_id event_id headers targets s s' status job h in
    (
      p.key,
      p.event,
      p.header,
      p.owned,
      elim (enqueue_job_ways C now fresh user_id event_id p.key targets s.db p.result s'.db
          p.enqueued) [
            | inl (found, old, same) ↦ inr (
              rw p.returned found,
              rw old at (p.answered),
              p.after ∙ (λ i. record s {
                db = same i;
                spawned = if old i then p.result.job ∷ s.spawned else s.spawned;
              }),
            )
            | inr (new, made, same) ↦
                let job_is = p.returned ∙ ap (λ (r : EnqueueResult). r.job) made in
                inl (
                  new,
                  p.answered ∙ ap (λ (r : EnqueueResult). if r.created then 202 else 200) made,
                  job_is,
                  p.after
                      ∙ (λ i. record s {
                        db = same i;
                        spawned = if (made i).created then (made i).job ∷ s.spawned else s.spawned;
                      })
                      ∙ (λ i. record s {
                        db = with_job C now fresh user_id event_id p.key targets s.db;
                        spawned = sym job_is i ∷ s.spawned;
                      }),
                )
          ],
    )

module _ (C : Crates) (W : Web C) (now : ℕ) (fresh : ℕ → ℕ) (user_id event_id : ℕ)
    (headers : String → Option W.HeaderValue) (targets : List (PublishTarget C.Json)) where
  enqueue_failed :
      (key : String) (s s' : AppState C) (e : ApiError)
      → (query (enqueue_job C now fresh user_id event_id key targets) >>= post) s ≡ (err e, s')
      → s' ≡ s
  enqueue_failed key s s' e h =
      let enqueue = enqueue_job C now fresh user_id event_id key targets in
      elim (Result-cases (enqueue s.db).0) [
        | inr (e', failed) ↦
            let same =
              enqueue_job_atomic C now fresh user_id event_id key targets s.db e' (enqueue s.db).1
                (λ i. (failed i, (enqueue s.db).1)) in
            sym (ap (λ o. o.1) (rw (failed) at (h))) ∙ ap (λ db. record s { db = db }) same
        | inl (r, made) ↦ absurd (err-ne-ok (sym (ap (λ o. o.0) (rw (made) at (h)))))
      ]

  -- A request that fails, in whatever step, changes nothing and starts no worker.
  pub cross_post_atomic :
      (s s' : AppState C) (e : ApiError)
      → cross_post C W now fresh user_id event_id headers targets s ≡ (err e, s')
      → s' ≡ s
  unfolding cross_post
  cross_post_atomic s s' e h =
      let header = check (
        ok_or (and_then (headers "idempotency-key") W.to_str)
          (bad_request "Idempotency-Key header is required")) in
      elim (>>=-eq-err header _ s h) [
        | inl same ↦ same
        | inr (key, _, rest) ↦
            let valid = check (
              map_err bad_request (
                W.validate
                  (record { event_id = event_id; targets = targets; idempotency_key = key }))) in
            elim (>>=-eq-err valid _ s rest) [
              | inl same ↦ same
              | inr (_, _, rest) ↦
                  let read = get_event-state C user_id event_id s.db in
                  elim (>>=-eq-err (query (get_event C user_id event_id)) _ s rest) [
                    | inl same ↦ same ∙ ap (λ db. record s { db = db }) read
                    | inr (_, _, rest) ↦ enqueue_failed key s s' e (rw read at (rest))
                  ]
            ]
      ]
