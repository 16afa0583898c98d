-- ===== src/Jobs/Socket.antt =====
-- Which jobs' updates the route `websocket` of src/jobs.rs gives a user.
use evgl_api.Base.{
  ℕ, Bool, false, List, [], ◌∷◌, ◌==◌, ◌&&◌, In, All, arith, Bool-cases, ◌≡◌, refl, ◌⊎◌, inl, inr,
  none, find, Option-cases, subst,
}
use evgl_api.Rust.{Result, ok, err}
use evgl_api.Error.{ApiError, not_found}
use evgl_api.Domain.{Crates}
use evgl_api.Database.{Database, JobRow}
use evgl_api.Base.Search.{find-In}
use evgl_api.Store.Jobs.{get_job, is_users_job}
use evgl_api.App.{AppState, Channel, channel}
use evgl_api.Jobs.{websocket}

-- The job is one of the user's, in the tables.
abbrev pub IsUsersJob : {Json : Type 0} → ℕ → ℕ → Database Json → JobRow → Type 0
IsUsersJob user_id job_id db job =
    In job db.cross_post_jobs × (job.id ≡ job_id) × (job.user_id ≡ user_id)

-- No job in the tables has the id and belongs to the user.
abbrev pub HasNoJob : {Json : Type 0} → ℕ → ℕ → Database Json → Type 0
HasNoJob user_id job_id db =
    All (λ (j : JobRow). (j.id == job_id && j.user_id == user_id) ≡ false) db.cross_post_jobs

All-none : {A : Type 0} (p : A → Bool) (xs : List A) → find p xs ≡ none → All (λ x. p x ≡ false) xs
All-none p [] h = tt
All-none p (x ∷ xs) h = elim (Bool-cases (p x)) [
  | inl here ↦ cc (rw here at h)
  | inr there ↦ (there, All-none p xs (rw there at h))
]

module _ (C : Crates) (user_id job_id : ℕ) (s : AppState C) where
  abbrev Subscribed : Result Channel ApiError × AppState C → Type 0
  Subscribed (r, s') =
      (HasNoJob user_id job_id s.db × (r ≡ err (not_found "job not found")) × (s' ≡ s))
      ⊎ ((job : JobRow) × IsUsersJob user_id job_id s.db job
          × (r ≡ ok (channel job_id s).0)
          × (s' ≡ (channel job_id s).1))

  websocket-Subscribed : Subscribed (websocket user_id job_id s)
  unfolding websocket get_job
  websocket-Subscribed =
      let test = is_users_job user_id job_id in
      elim (Option-cases (find test s.db.cross_post_jobs)) [
        | inl missing ↦ rw missing (inl (All-none test s.db.cross_post_jobs missing, refl, refl))
        | inr (job, found) ↦
            let (member, passes) = find-In test s.db.cross_post_jobs job found in
            rw found
              (inr (job, (member, ground (arith, passes), ground (arith, passes)), refl, refl))
      ]

  -- A socket for a job is opened, on that job's channel, only if the job is in the tables and belongs
  -- to the user, and refused as not found, with nothing changed, only if no job with the id does.
  pub websocket_lem :
      (s' : AppState C) (r : Result Channel ApiError)
      → websocket user_id job_id s ≡ (r, s')
      → (HasNoJob user_id job_id s.db × (r ≡ err (not_found "job not found")) × (s' ≡ s))
        ⊎ ((job : JobRow) × IsUsersJob user_id job_id s.db job
            × (r ≡ ok (channel job_id s).0)
            × (s' ≡ (channel job_id s).1))
  websocket_lem s' r h = subst Subscribed h websocket-Subscribed
