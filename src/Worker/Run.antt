-- ===== src/Worker/Run.antt =====
-- The whole task of src/worker.rs.
use evgl_api.Base.{
  ℕ, Bool, true, false, String, none, some, List, [], ◌∷◌, ◌≡◌, inl, inr, refl, sym, ap, subst, ◌∙◌,
  arith, update_where, any, count, find, if◌then◌else◌, Option-cases,
}
use evgl_api.Base.Tables.{ltb-count}
use evgl_api.Rust.{ok}
use evgl_api.Domain.{Crates, PublicationStatus, running, published, action_required, failed}
use evgl_api.Database.{
  unless_refused-state, unless_refused-eq, reads_event, reads_job, pure-injective, Database, JobRow,
  TargetRow,
}
use evgl_api.Store.Events.{get_event}
use evgl_api.Store.Events.Reads.{get_event-state}
use evgl_api.Store.Jobs.{
  claim_targets, targets_of, finish_job, get_job, has_status, set_job_status, final_status,
  is_users_job, is_job, with_status,
}
use evgl_api.Store.Jobs.Claims.{claim_targets-eq, finish_job-eq, counted}
use evgl_api.Store.Targets.{status_name}
use evgl_api.Worker.{
  World, Effect, Env, query, read_event, read_job, emit, run, run_targets, finish, job_status, sent,
  >>=-eq-ok,
}
use evgl_api.Worker.Loop.{AllSettled, run_targets-AllSettled}

abbrev pub summary_of : Bool → Bool → PublicationStatus
summary_of any_failed any_action =
    if any_failed then failed else if any_action then action_required else published

-- The status of a job with these rows: failed if a target of it failed, else an action is required if
-- a target of it requires one, else published.
abbrev pub summary : {Json : Type 0} → ℕ → List (TargetRow Json) → PublicationStatus
summary job_id rows =
    summary_of (any (has_status job_id "failed") rows)
      (any (has_status job_id "action_required") rows)

name-summary_of :
    (a b : Bool)
    → (if a then "failed" else if b then "action_required" else "published")
      ≡ status_name (summary_of a b)
unfolding status_name
name-summary_of true b = refl
name-summary_of false true = refl
name-summary_of false false = refl

job_status-summary_of : (a b : Bool) → job_status (status_name (summary_of a b)) ≡ summary_of a b
unfolding job_status status_name
job_status-summary_of true b = refl
job_status-summary_of false true = refl
job_status-summary_of false false = refl

final_status-summary :
    {Json : Type 0} (job_id : ℕ) (rows : List (TargetRow Json))
    → final_status
        (count (has_status job_id "failed") rows)
        (count (has_status job_id "action_required") rows)
      ≡ status_name (summary job_id rows)
unfolding final_status
final_status-summary job_id rows =
    rw
      (
        ltb-count (has_status job_id "failed") rows,
        ltb-count (has_status job_id "action_required") rows,
      )
      (name-summary_of _ _)

-- A row that is found under the job's id has the status just set.
find-with_status :
    (now user_id job_id : ℕ) (status : String) (jobs : List JobRow) {j : JobRow}
    → find
        (is_users_job user_id job_id)
        (update_where (is_job job_id) (with_status now status) jobs)
      ≡ some j
    → j.status ≡ status
find-with_status now user_id job_id status [] h = cc
find-with_status now user_id job_id status (x ∷ jobs) {j} h =
    ground (arith, find-with_status now user_id job_id status jobs {j = j})

get_job-eq :
    {Json : Type 0} (user_id job_id : ℕ) (db db' : Database Json) (j : JobRow)
    (rows : List (TargetRow Json))
    → get_job user_id job_id db ≡ (ok (j, rows), db')
    → (find (is_users_job user_id job_id) db.cross_post_jobs ≡ some j) × (db' ≡ db)
unfolding get_job
get_job-eq {Json = Json} user_id job_id db db' j rows h =
    elim (Option-cases (find (is_users_job user_id job_id) db.cross_post_jobs)) [
      | inl missing ↦ cc (rw missing at h)
      | inr (j₁, found) ↦
          let (value, state) = pure-injective (rw found at h) in
          (found ∙ ap (λ (o : JobRow × List (TargetRow Json)). some o.0) value, sym state)
    ]

module _ (C : Crates) (E : Env C) (job : JobRow) where
  -- The update that ends a job.
  abbrev pub last_update : PublicationStatus → ℕ → Effect C.Publication
  last_update status at = sent job.id (record {
    job_id = job.id;
    event_id = job.event_id;
    provider = none;
    status = status;
    attempt = 0;
    message = "job finished";
    occurred_at = at;
    publication = none;
  })

  -- What `finish` leaves: the job under its final status, and an update that says so.
  pub record Finished (w w' : World C) : Type 0 where
    pub current : JobRow
    pub found : find (is_users_job job.user_id job.id) w'.db.cross_post_jobs ≡ some current
    pub status : current.status ≡ status_name (summary job.id w'.db.cross_post_targets)
    pub state :
        w'.db
        ≡ set_job_status
            (E.now w)
            job.id
            (status_name (summary job.id w.db.cross_post_targets))
            w.db
    pub at : ℕ
    pub told : w'.trace ≡ last_update (summary job.id w'.db.cross_post_targets) at ∷ w.trace

  finish-Finished : (w w' : World C) → finish C E job w ≡ (ok tt, w') → Finished w w'
  unfolding finish emit
  finish-Finished w w' h =
      let end = query (finish_job (E.refuses w) (E.now w) job.id) in
      let (_, stored, k) = >>=-eq-ok end _ w h in
      let w₁ : World C = (end w).1 in
      let state : w₁.db
          ≡ set_job_status (E.now w) job.id (counted (E.refuses w) (E.now w) job.id w.db) w.db =
        finish_job-eq (E.refuses w) (E.now w) job.id w.db w₁.db
          (λ i. ((stored i).0, (stored i).1.db)) in
      let read = read_job C E job in
      let ((j, rows), fetched, k') = >>=-eq-ok read _ w₁ k in
      let w₂ : World C = (read w₁).1 in
      let (found, same) = get_job-eq job.user_id job.id w₁.db (read w₁).1.db j rows (
        unless_refused-eq (E.refuses w₁ (reads_job job.user_id job.id)) (get_job job.user_id job.id)
          w₁.db (read w₁).1.db (j, rows) (λ i. ((fetched i).0, (fetched i).1.db))) in
      let state₂ : w₂.db
          ≡ set_job_status (E.now w) job.id (counted (E.refuses w) (E.now w) job.id w.db) w.db =
        same ∙ state in
      let same_rows : w₂.db.cross_post_targets ≡ w.db.cross_post_targets =
        ap (λ (d : Database C.Json). d.cross_post_targets) state₂ in
      let named : j.status ≡ status_name (summary job.id w.db.cross_post_targets) =
        find-with_status (E.now w) job.user_id job.id _ w.db.cross_post_jobs (
          ap (λ (d : Database C.Json). find (is_users_job job.user_id job.id) d.cross_post_jobs)
            (sym state)
          ∙ found)
        ∙ final_status-summary job.id w.db.cross_post_targets in
      let named' : j.status ≡ status_name (summary job.id w₂.db.cross_post_targets) =
        named ∙ ap (λ rows. status_name (summary job.id rows)) (sym same_rows) in
      subst (Finished w) (ap (λ r. r.1) k') (record {
        current = j;
        found =
            ap (λ (d : Database C.Json). find (is_users_job job.user_id job.id) d.cross_post_jobs)
              same
            ∙ found;
        status = named';
        state =
            state₂
            ∙ ap (λ s. set_job_status (E.now w) job.id s w.db)
                (final_status-summary job.id w.db.cross_post_targets);
        at = E.now w₂;
        told =
            ap (λ s. last_update s (E.now w₂) ∷ w.trace)
              (ap job_status named' ∙ job_status-summary_of _ _);
      })

  -- The stages of a run that returns: the job is claimed, the claimed targets are settled, and the
  -- job is finished.
  pub record Stages (w w' : World C) : Type 0 where
    pub before : World C
    pub after : World C
    pub claimed_at : ℕ
    pub claimed : before.db ≡ set_job_status claimed_at job.id "running" w.db
    pub settled : AllSettled C E (targets_of job.id before.db) before after
    pub finished_job : Finished after w'

  pub run-Stages : (w w' : World C) → run C E job w ≡ (ok tt, w') → Stages w w'
  unfolding run emit
  run-Stages w w' h =
      let read = read_event C E job in
      let (event, _, k) = >>=-eq-ok read _ w h in
      let w₁ : World C = (read w).1 in
      let claim = query (claim_targets (E.refuses w₁) (E.now w₁) job.id) in
      let (targets, stored, k₁) = >>=-eq-ok claim _ w₁ k in
      let w₂ : World C = (claim w₁).1 in
      let (listed, state) =
        claim_targets-eq (E.refuses w₁) (E.now w₁) job.id w₁.db targets w₂.db
          (λ i. ((stored i).0, (stored i).1.db)) in
      let w₃ : World C = (emit C E job none running 0 "job started" none w₂).1 in
      let loop = run_targets C E job event targets in
      let (_, e, k₂) = >>=-eq-ok loop (λ _. finish C E job) w₃ k₁ in
      record {
        before = w₃;
        after = (loop w₃).1;
        claimed_at = E.now w₁;
        claimed =
            state
            ∙ ap (set_job_status (E.now w₁) job.id "running") (
                unless_refused-state (E.refuses w (reads_event job.user_id job.event_id))
                  (get_event C job.user_id job.event_id) w.db
                  (get_event-state C job.user_id job.event_id w.db));
        settled =
            subst (λ ts. AllSettled C E ts w₃ (loop w₃).1) listed
              (run_targets-AllSettled C E job event targets w₃ (loop w₃).1 e).1;
        finished_job = finish-Finished (loop w₃).1 w' k₂;
      }
