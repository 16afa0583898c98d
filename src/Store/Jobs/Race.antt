-- ===== src/Store/Jobs/Race.antt =====
-- Calls of `enqueue_job` of src/store.rs with one key whose transactions overlap.
use evgl_api.Base.{
  ℕ, true, false, String, none, List, ◌≡◌, refl, sym, ap, ◌∙◌, any, arith, inl, inr, str_eq_iff,
  Bool-cases,
}
use evgl_api.Rust.{ok, err, err-ne-ok}
use evgl_api.Error.{internal, unique_violation}
use evgl_api.Domain.{Crates, PublishTarget}
use evgl_api.Database.{Database, same_key, same_job, settle-eq-ok}
use evgl_api.Store.Jobs.{
  EnqueueResult, new_job, insert_job, enqueue_new, enqueue_unless, enqueue_after,
}
use evgl_api.Store.Jobs.Enqueue.{with_job, enqueue_new_lem}
use evgl_api.Store.Operations.{Operation, perform_all}
use evgl_api.Store.Operations.Keys.{perform_all-HasKeyOf}

module _ (C : Crates) (now : ℕ) (fresh : ℕ → ℕ) (user_id event_id : ℕ) (key : String)
    (targets : List (PublishTarget C.Json)) where
  -- What a transaction that found no job leaves where it returns.
  pub enqueue_after-with_job :
      (db : Database C.Json) (r : EnqueueResult) (db' : Database C.Json)
      → enqueue_after C none now fresh user_id event_id key targets db ≡ (ok r, db')
      → (r ≡ record { job = new_job C now (fresh 0) user_id event_id key; created = true })
        × (db' ≡ with_job C now fresh user_id event_id key targets db)
  unfolding enqueue_after enqueue_unless
  enqueue_after-with_job db r db' h =
      enqueue_new_lem C now fresh user_id event_id key targets db r db' (settle-eq-ok _ db h)

  taken_key :
      (db : Database C.Json)
      → any (same_key (new_job C now (fresh 0) user_id event_id key)) db.cross_post_jobs ≡ true
      → enqueue_after C none now fresh user_id event_id key targets db
        ≡ (err (internal unique_violation), db)
  unfolding enqueue_after enqueue_unless enqueue_new insert_job
  taken_key db taken =
      let job = new_job C now (fresh 0) user_id event_id key in
      elim (Bool-cases (any (same_job job) db.cross_post_jobs)) [
        | inl known ↦ rw known refl
        | inr new ↦ rw (new, taken) refl
      ]

-- A transaction that stores a job stores it under a key that no job has.
pub enqueue_after-fresh :
    (C : Crates) (now : ℕ) (fresh : ℕ → ℕ) (user_id event_id : ℕ) (key : String)
    (targets : List (PublishTarget C.Json)) (db db' : Database C.Json) (r : EnqueueResult)
    → enqueue_after C none now fresh user_id event_id key targets db ≡ (ok r, db')
    → any (same_key (new_job C now (fresh 0) user_id event_id key)) db.cross_post_jobs ≡ false
enqueue_after-fresh C now fresh user_id event_id key targets db db' r h =
    let job = new_job C now (fresh 0) user_id event_id key in
    elim (Bool-cases (any (same_key job) db.cross_post_jobs)) [
      | inr new ↦ new
      | inl taken ↦
          let failed = taken_key C now fresh user_id event_id key targets db taken in
          absurd (err-ne-ok (ap (λ o. o.0) (sym failed ∙ h)))
    ]

-- Of two calls with one key of a user that both look for the key before either stores its job, the
-- one that stores second, after whatever other calls, fails with a unique violation, an internal
-- error, and changes nothing: no second job is made, but the retry does not get the first.
pub enqueue_race :
    (C : Crates) (now now' : ℕ) (fresh fresh' : ℕ → ℕ) (user_id event_id event_id' : ℕ)
    (key : String) (targets targets' : List (PublishTarget C.Json)) (db db' : Database C.Json)
    (r : EnqueueResult) (others : List (Operation C))
    → enqueue_after C none now fresh user_id event_id key targets db ≡ (ok r, db')
    → enqueue_after C none now' fresh' user_id event_id' key targets' (perform_all others db')
      ≡ (err (internal unique_violation), perform_all others db')
unfolding new_job
enqueue_race C now now' fresh fresh' user_id event_id event_id' key targets targets' db db' r others
      h =
    let (_, state) = enqueue_after-with_job C now fresh user_id event_id key targets db r db' h in
    taken_key C now' fresh' user_id event_id' key targets' (perform_all others db') (
      perform_all-HasKeyOf C (new_job C now' (fresh' 0) user_id event_id' key) others db'
        (rw state (ground (arith, str_eq_iff key key))))
