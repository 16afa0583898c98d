-- ===== src/Web.antt =====
-- The HTTP requests and the JSON texts that src/events.rs and src/jobs.rs read and write, with the
-- functions of http, serde_json and evgl-domain as parameters.
use evgl_api.Base.{ℕ, String, Option, none, some, List}
use evgl_api.Rust.{Result}
use evgl_api.Domain.{Crates, EventDraft, PublishTarget, JobUpdate}

pub record CrossPostRequest (C : Crates) : Type 0 where
  pub event_id : ℕ
  pub targets : List (PublishTarget C.Json)
  pub idempotency_key : String

-- `json!` of an event that was created
pub record EventUpdate (C : Crates) : Type 0 where
  pub event_id : ℕ
  pub event_type : String
  pub occurred_at : ℕ
  pub event : EventDraft C.types

-- `json!` of a gap: its `type` and `skipped`
pub record Notice : Type 0 where
  pub notice_type : String
  pub skipped : ℕ

pub record Web (C : Crates) : Type 1 where
  pub HeaderValue : Type 0
  pub to_str : HeaderValue → Option String
  pub validate : CrossPostRequest C → Result (Unit {0}) String
  pub event_to_string : EventUpdate C → Result String String
  pub job_to_string : JobUpdate C.Publication → Result String String
  pub notice_to_string : Notice → String

abbrev pub and_then : {A B : Type 0} → Option A → (A → Option B) → Option B
and_then none f = none
and_then (some a) f = f a

abbrev pub resync_required : ℕ → Notice
resync_required skipped = record { notice_type = "resync_required"; skipped = skipped }
