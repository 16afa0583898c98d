-- ===== src/Service/Keys.antt =====
-- The keys of the jobs of src/store.rs, of which no two jobs of a user have the same.
use evgl_api.Base.{
  ℕ, true, false, String, none, List, [], ◌∷◌, ◌≡◌, refl, sym, ◌∙◌, any, find, All, arith, inl, inr,
  Bool-cases, str_eq_iff,
}
use evgl_api.Base.Tables.{any-false_mono, any_mono, find-none}
use evgl_api.Domain.{Crates}
use evgl_api.Database.{JobRow, same_key}
use evgl_api.Store.Jobs.{has_key, new_job}

same_key_trans : (a b c : JobRow) → same_key a b ≡ true → same_key b c ≡ true → same_key a c ≡ true
same_key_trans a b c h k = ground (
  arith,
  str_eq_iff a.idempotency_key b.idempotency_key,
  str_eq_iff b.idempotency_key c.idempotency_key,
  str_eq_iff a.idempotency_key c.idempotency_key,
)

-- A key that no stored job has is none of the keys of the workers.
pub fresh_key :
    (job : JobRow) (jobs spawned : List JobRow)
    → any (same_key job) jobs ≡ false
    → All (λ j. any (same_key j) jobs ≡ true) spawned
    → any (same_key job) spawned ≡ false
fresh_key job jobs [] h a = refl
fresh_key job jobs (j ∷ js) h a = elim (Bool-cases (same_key job j)) [
  | inr differs ↦ rw differs (fresh_key job jobs js h a.1)
  | inl same ↦
      let clash : any (same_key job) jobs ≡ true =
        any_mono (same_key j) (same_key job) jobs (λ x. same_key_trans job j x same) a.0 in
      let never : true ≡ false = sym clash ∙ h in cc
]

pub own_key : (job : JobRow) (jobs : List JobRow) → any (same_key job) (job ∷ jobs) ≡ true
own_key job jobs = ground (arith, str_eq_iff job.idempotency_key job.idempotency_key)

pub new_job-fresh :
    (C : Crates) (now id user_id event_id : ℕ) (key : String) (jobs : List JobRow)
    → find (has_key user_id key) jobs ≡ none
    → any (same_key (new_job C now id user_id event_id key)) jobs ≡ false
unfolding new_job
new_job-fresh C now id user_id event_id key jobs h =
    any-false_mono (same_key (new_job C now id user_id event_id key)) (has_key user_id key) jobs
      (λ x k. ground (arith, k, str_eq_iff key x.idempotency_key, str_eq_iff x.idempotency_key key))
      (find-none (has_key user_id key) jobs h)
