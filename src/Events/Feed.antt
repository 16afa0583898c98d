-- ===== src/Events/Feed.antt =====
-- What `stream_events` of src/events.rs shows an organiser.
use evgl_api.Base.{ℕ, ◌==◌, Bool, String}
use evgl_api.Domain.{Crates, EventDraft}
use evgl_api.Web.{Web, resync_required}

module _ (C : Crates) (W : Web C) where
  abbrev pub is_own : ℕ → EventDraft C.types → Bool
  is_own user_id event = event.owner_id == user_id

  abbrev pub event_notice : ℕ → String
  event_notice skipped = W.notice_to_string (resync_required skipped)
