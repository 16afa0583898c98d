-- ===== src/Store/Targets/Updates.antt =====
-- Updates of one target of src/store.rs, one after the other, and what they leave alone.
use evgl_api.Base.{
  ℕ, List, [], ◌∷◌, ◌≡◌, refl, arith, ◌==◌, update_where, ap, sym, Option, none, some, String,
}
use evgl_api.Rust.{ok}
use evgl_api.Error.{Cause}
use evgl_api.Domain.{PublicationStatus}
use evgl_api.Base.Tables.{Distinct-update, All-update}
use evgl_api.Database.{Database, TargetRow, same_target, Refusals, execute, execute_keeps}
use evgl_api.Database.Integrity.{IsConsistent, IsOwned}
use evgl_api.Store.Targets.{
  update_target, running_row, complete_row, failed_row, target_running, target_complete,
  target_failed,
}

module _ {Json : Type 0} where
  -- Nothing but the status, the attempt, the result and the error differ.
  pub record SameTarget (t t' : TargetRow Json) : Type 0 where
    pub id : t'.id ≡ t.id
    pub job_id : t'.job_id ≡ t.job_id
    pub connection_id : t'.connection_id ≡ t.connection_id
    pub provider : t'.provider ≡ t.provider
    pub options : t'.options ≡ t.options

  update_rows_twice :
      (id : ℕ) (f g : TargetRow Json → TargetRow Json) (rows : List (TargetRow Json))
      → ((t : TargetRow Json) → (f t).id ≡ t.id)
      → update_where (λ t. t.id == id) g (update_where (λ t. t.id == id) f rows)
        ≡ update_where (λ t. t.id == id) (λ t. g (f t)) rows
  update_rows_twice id f g [] keep = refl
  update_rows_twice id f g (t ∷ rows) keep =
      ground (arith, keep t, update_rows_twice id f g rows keep)

  -- Two updates of one target are one.
  pub update_target_twice :
      (id : ℕ) (f g : TargetRow Json → TargetRow Json) (db : Database Json)
      → ((t : TargetRow Json) → SameTarget t (f t))
      → update_target id g (update_target id f db) ≡ update_target id (λ t. g (f t)) db
  update_target_twice id f g db keep =
      ap (λ (rows : List (TargetRow Json)). record db { cross_post_targets = rows })
        (update_rows_twice id f g db.cross_post_targets (λ t. (keep t).id))

  -- Such an update keeps the database consistent.
  pub update_target-IsConsistent :
      (id : ℕ) (f : TargetRow Json → TargetRow Json) (db : Database Json)
      → ((t : TargetRow Json) → SameTarget t (f t))
      → IsConsistent db
      → IsConsistent (update_target id f db)
  update_target-IsConsistent id f db keep h = record {
    sessions = h.sessions;
    connections = h.connections;
    accounts = h.accounts;
    events = h.events;
    jobs = h.jobs;
    keys = h.keys;
    jobs_event = h.jobs_event;
    targets =
        Distinct-update same_target (λ t. t.id == id) f db.cross_post_targets
          (λ x y. rw ((keep x).id)) (λ x y. rw ((keep y).id)) h.targets;
    targets_owned =
        All-update (IsOwned db.provider_connections db.cross_post_jobs) (λ t. t.id == id) f
          db.cross_post_targets
          (λ t o. rw ((keep t).job_id, (keep t).connection_id, (keep t).provider) o)
          h.targets_owned;
  }

-- What the three functions keep, and what they leave where they return, for any refusals.
module _ {Json : Type 0} (R : Refusals Json) (id : ℕ) where
  execute-eq :
      (r : Option Cause) (f : Database Json → Database Json) (db db' : Database Json)
      → execute r f db ≡ (ok tt, db')
      → db' ≡ f db
  execute-eq none f db db' h = ap (λ o. o.1) (sym h)
  execute-eq (some c) f db db' h = cc

  pub target_running-eq :
      (attempt : ℕ) (db db' : Database Json)
      → target_running R id attempt db ≡ (ok tt, db')
      → db' ≡ update_target id (running_row attempt) db
  unfolding target_running
  target_running-eq attempt db db' h =
      execute-eq _ (update_target id (running_row attempt)) db db' h

  pub target_complete-eq :
      (status : PublicationStatus) (value : Json) (db db' : Database Json)
      → target_complete R id status value db ≡ (ok tt, db')
      → db' ≡ update_target id (complete_row status value) db
  unfolding target_complete
  target_complete-eq status value db db' h =
      execute-eq _ (update_target id (complete_row status value)) db db' h

  pub target_failed-eq :
      (attempt : ℕ) (error : String) (db db' : Database Json)
      → target_failed R id attempt error db ≡ (ok tt, db')
      → db' ≡ update_target id (failed_row attempt error) db
  unfolding target_failed
  target_failed-eq attempt error db db' h =
      execute-eq _ (update_target id (failed_row attempt error)) db db' h

  module _ (P : Database Json → Type 0) where
    pub target_running_keeps :
        (attempt : ℕ) (db : Database Json)
        → P db
        → P (update_target id (running_row attempt) db)
        → P (target_running R id attempt db).1
    unfolding target_running
    target_running_keeps attempt db h k =
        execute_keeps P _ (update_target id (running_row attempt)) db h k

    pub target_complete_keeps :
        (status : PublicationStatus) (value : Json) (db : Database Json)
        → P db
        → P (update_target id (complete_row status value) db)
        → P (target_complete R id status value db).1
    unfolding target_complete
    target_complete_keeps status value db h k =
        execute_keeps P _ (update_target id (complete_row status value)) db h k

    pub target_failed_keeps :
        (attempt : ℕ) (error : String) (db : Database Json)
        → P db
        → P (update_target id (failed_row attempt error) db)
        → P (target_failed R id attempt error db).1
    unfolding target_failed
    target_failed_keeps attempt error db h k =
        execute_keeps P _ (update_target id (failed_row attempt error)) db h k
