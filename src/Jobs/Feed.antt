-- ===== src/Jobs/Feed.antt =====
-- What `stream` of src/jobs.rs shows an organiser.
use evgl_api.Base.{ℕ, Bool, true, String}
use evgl_api.Rust.{Result}
use evgl_api.Domain.{Crates, JobUpdate}
use evgl_api.Web.{Web, resync_required}

module _ (C : Crates) (W : Web C) where
  abbrev pub every_update : JobUpdate C.Publication → Bool
  every_update update = true

  abbrev pub update_payload : ℕ → JobUpdate C.Publication → Result String String
  update_payload now update = W.job_to_string update

  abbrev pub update_notice : ℕ → String
  update_notice skipped = W.notice_to_string (resync_required skipped)
