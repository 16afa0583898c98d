-- ===== src/Store/Jobs/Claims.antt =====
-- What `claim_targets` and `finish_job` of src/store.rs do where the database may refuse a statement.
use evgl_api.Base.{ℕ, String, List, ◌≡◌, Option-cases, inl, inr, count, ap, sym, ◌∙◌}
use evgl_api.Rust.{ok}
use evgl_api.Database.{
  Database, TargetRow, Refusals, claims_job, lists_targets, counts_rows, ends_job, pure-injective,
}
use evgl_api.Store.Jobs.{
  claim_targets, finish_job, set_job_status, targets_of, has_status, final_status,
}

module _ {Json : Type 0} (refuses : Refusals Json) (now job_id : ℕ) (db : Database Json) where
  -- The status that the counts of the job's targets decide.
  abbrev pub counted : String
  counted =
      final_status (count (has_status job_id "failed") db.cross_post_targets)
        (count (has_status job_id "action_required") db.cross_post_targets)

  pub claim_targets_keeps :
      (P : Database Json → Type 0)
      → P db
      → P (set_job_status now job_id "running" db)
      → P (claim_targets refuses now job_id db).1
  unfolding claim_targets
  claim_targets_keeps P h k = elim (Option-cases (refuses (claims_job job_id))) [
    | inr (_, refused) ↦ rw refused h
    | inl taken ↦ elim (Option-cases (refuses (lists_targets job_id))) [
      | inr (_, refused) ↦ rw (taken, refused) k
      | inl listed ↦ rw (taken, listed) k
    ]
  ]

  pub claim_targets-eq :
      (targets : List (TargetRow Json)) (db' : Database Json)
      → claim_targets refuses now job_id db ≡ (ok targets, db')
      → (targets ≡ targets_of job_id db') × (db' ≡ set_job_status now job_id "running" db)
  unfolding claim_targets
  claim_targets-eq targets db' h = elim (Option-cases (refuses (claims_job job_id))) [
    | inr (_, refused) ↦ cc (rw refused at h)
    | inl taken ↦ elim (Option-cases (refuses (lists_targets job_id))) [
      | inr (_, refused) ↦ cc (rw (taken, refused) at h)
      | inl listed ↦
          let (value, state) = pure-injective (rw (taken, listed) at h) in
          (sym value ∙ ap (targets_of job_id) state, sym state)
    ]
  ]

  pub finish_job_keeps :
      (P : Database Json → Type 0)
      → P db
      → ((status : String) → P (set_job_status now job_id status db))
      → P (finish_job refuses now job_id db).1
  unfolding finish_job
  finish_job_keeps P h k = elim (Option-cases (refuses (counts_rows job_id "failed"))) [
    | inr (_, refused) ↦ rw refused h
    | inl one ↦ elim (Option-cases (refuses (counts_rows job_id "action_required"))) [
      | inr (_, refused) ↦ rw (one, refused) h
      | inl two ↦ elim (Option-cases (refuses (ends_job job_id counted))) [
        | inr (_, refused) ↦ rw (one, two, refused) h
        | inl three ↦ rw (one, two, three) (k _)
      ]
    ]
  ]

  pub finish_job-eq :
      (db' : Database Json)
      → finish_job refuses now job_id db ≡ (ok tt, db')
      → db' ≡ set_job_status now job_id counted db
  unfolding finish_job
  finish_job-eq db' h = elim (Option-cases (refuses (counts_rows job_id "failed"))) [
    | inr (_, refused) ↦ cc (rw refused at h)
    | inl one ↦ elim (Option-cases (refuses (counts_rows job_id "action_required"))) [
      | inr (_, refused) ↦ cc (rw (one, refused) at h)
      | inl two ↦ elim (Option-cases (refuses (ends_job job_id counted))) [
        | inr (_, refused) ↦ cc (rw (one, two, refused) at h)
        | inl three ↦ let (_, state) = pure-injective (rw (one, two, three) at h) in sym state
      ]
    ]
  ]
