-- ===== src/Examples/ServiceRuns.antt =====
-- Runs of the service: events that are created, streamed and cross-posted.
use evgl_api.Base.{
  ℕ, ◌+◌, Bool, true, ◌≡◌, refl, none, some, String, ◌==◌, Option, List, [], ◌∷◌, ◌++◌, ◌⊎◌,
  if◌then◌else◌, find, arith,
}
use evgl_api.Rust.{Result, ok, err}
use evgl_api.Error.{ApiError, bad_request, not_found}
use evgl_api.Domain.{EventDraft, PublishTarget, JobUpdate, meetup, running}
use evgl_api.Database.{ConnectionRow, JobRow}
use evgl_api.Store.Operations.{upserts_connection, claims_targets}
use evgl_api.Store.Events.{create_event, get_event}
use evgl_api.Store.Jobs.{get_job, enqueue_job, enqueue_new, has_key, new_job}
use evgl_api.Store.Jobs.Enqueue.{with_job}
use evgl_api.App.{Channel, new_state, AppState, channel}
use evgl_api.App.Channels.{IsAllocated, channels, channel_identity}
use evgl_api.Web.{Web}
use evgl_api.Stream.{Message, ping, Ready, update, message, received, lagged, Sent}
use evgl_api.Events.{CreateEventInput, new_event, create, get, cross_post}
use evgl_api.Events.Create.{announced_since, create_feeds}
use evgl_api.Events.CrossPost.{cross_post_lem, cross_post_atomic}
use evgl_api.Jobs.{websocket}
use evgl_api.Jobs.Socket.{IsUsersJob, HasNoJob, websocket_lem}
use evgl_api.Service.{Request, post_event, post_cross_post, get_job_socket, worker_call, serve_all}
use evgl_api.Service.Routes.{IsSound}
use evgl_api.Service.Sound.{serve_all-IsSound}
use evgl_api.Examples.Setup.{Json, null, types, crates, crates-ReadsBack, no_rows}
use evgl_api.Examples.StoreRuns.{no_rows-IsConsistent}
use evgl_api.Examples.OAuthRuns.{services}

abbrev pub web : Web crates
web = record {
  HeaderValue = String;
  to_str = λ s. some s;
  validate = λ r. ok tt;
  event_to_string = λ u. ok u.event.title;
  job_to_string = λ u. ok u.message;
  notice_to_string = λ n. n.notice_type;
}

-- Before any request.
abbrev started : AppState crates
started = new_state no_rows

started-IsAllocated : IsAllocated started
started-IsAllocated = record { below = tt; own = tt }

channel_identity_example :
    ((channel 9 (channels (8 ∷ 9 ∷ []) (channel 8 started).1)).0.id == (channel 8 started).0.id)
    ≡ (9 == 8)
channel_identity_example = channel_identity started started-IsAllocated 8 9 (8 ∷ 9 ∷ [])

abbrev input : String → CreateEventInput crates
input title = record {
  title = title;
  summary = "";
  description_html = "";
  starts_at = 0;
  ends_at = 1;
  timezone = "UTC";
  canonical_url = 0;
  online_url = none;
  venue = none;
  tags = [];
  metadata = [];
}

-- The event 3 of the user 7, and the event 4 of the user 8.
abbrev concert : EventDraft types
concert = new_event {C = crates} 3 7 (input "Concert")

abbrev talk : EventDraft types
talk = new_event {C = crates} 4 8 (input "Talk")

abbrev with_event : AppState crates
with_event = (create crates 5 3 7 (input "Concert") started).1

created : create crates 5 3 7 (input "Concert") started ≡ (ok (201, concert), with_event)
unfolding create create_event
created = refl

create_feeds_example :
    ((e : ApiError) × (◌≡◌ {A = Result (ℕ × EventDraft types) ApiError} (ok (201, concert)) (err e))
      × (with_event ≡ started))
    ⊎ ((◌≡◌ {A = Result (ℕ × EventDraft types) ApiError} (ok (201, concert)) (ok (201, concert)))
        × (announced_since 0 with_event ≡ announced_since 0 started ++ (concert ∷ []))
        × (get crates 8 3 with_event
            ≡ (if 8 == 7 then ok concert else err (not_found "event not found"), with_event)))
create_feeds_example =
    create_feeds crates crates-ReadsBack 5 3 7 (input "Concert") started with_event
      (ok (201, concert)) created 0 8 (omega arith)

-- The user's event, a ping, another user's event, and a gap of one event.
abbrev ready : List (Ready (EventDraft types))
ready =
    update 6 (received concert)
    ∷ message (some (ok (ping (1 ∷ []))))
    ∷ update 7 (received talk)
    ∷ update 8 (lagged 1)
    ∷ []

abbrev log : List (EventDraft types)
log = concert ∷ talk ∷ concert ∷ []

abbrev accepts : Sent → Message → Bool
accepts sent m = true

abbrev job_update : JobUpdate (types.Publication)
job_update = record {
  job_id = 20;
  event_id = 3;
  provider = some meetup;
  status = running;
  attempt = 1;
  message = "publishing";
  occurred_at = 31;
  publication = none;
}

abbrev account : ConnectionRow Json
account = record {
  id = 1;
  user_id = 7;
  provider = "meetup";
  account_key = "group";
  display_name = "Group";
  metadata = null;
  token_envelope = "sealed";
  created_at = 6;
  updated_at = 6;
}

-- The user 7 connects an account, and posts the event to it.
abbrev connected : AppState crates
connected = record with_event { db = record with_event.db { provider_connections = account ∷ [] } }

abbrev targets : List (PublishTarget Json)
targets = record { connection_id = 1; provider = meetup; options = null } ∷ []

abbrev posted : AppState crates
posted = (cross_post crates web 30 (λ n. n + 20) 7 3 (λ h. some "key") targets connected).1

abbrev job : JobRow
job = new_job crates 30 20 7 3 "key"

cross_posted :
    cross_post crates web 30 (λ n. n + 20) 7 3 (λ h. some "key") targets connected
    ≡ (ok (202, job), posted)
unfolding cross_post get_event create create_event enqueue_job enqueue_new
cross_posted = refl

cross_post_lem_example :
    (key : String) × (event : EventDraft types) × (◌≡◌ {A = Option String} (some "key") (some key))
    × (get_event crates 7 3 connected.db ≡ (ok event, connected.db))
    × (((find (has_key 7 key) connected.db.cross_post_jobs ≡ none)
          × (◌≡◌ {A = ℕ} 202 202)
          × (job ≡ new_job crates 30 20 7 3 key)
          × (posted ≡ record connected {
            db = with_job crates 30 (λ n. n + 20) 7 3 key targets connected.db;
            spawned = job ∷ connected.spawned;
          }))
        ⊎ ((find (has_key 7 key) connected.db.cross_post_jobs ≡ some job)
            × (◌≡◌ {A = ℕ} 202 200)
            × (posted ≡ connected)))
cross_post_lem_example =
    cross_post_lem crates web 30 (λ n. n + 20) 7 3 (λ h. some "key") targets connected posted 202
      job cross_posted

cross_post_atomic_example : connected ≡ connected
unfolding cross_post
cross_post_atomic_example =
    cross_post_atomic crates web 30 (λ n. n + 20) 7 3 (λ h. none) targets connected connected
      (bad_request "Idempotency-Key header is required") refl

started-IsSound : IsSound started
started-IsSound = record {
  consistent = no_rows-IsConsistent;
  allocated = started-IsAllocated;
  once = tt;
  stored = tt;
}

abbrev pub requests : List (Request crates services web)
requests =
    post_event 5 3 7 (input "Concert")
    ∷ worker_call (upserts_connection 6 1 7 meetup "group" "Group" null "sealed")
    ∷ post_cross_post 30 (λ n. n + 20) 7 3 (λ h. some "key") targets
    ∷ post_cross_post 31 (λ n. n + 40) 7 3 (λ h. some "key") targets
    ∷ get_job_socket 7 20
    ∷ worker_call (claims_targets (λ _. none) 32 20)
    ∷ []

serve_all-IsSound_example : IsSound (serve_all crates services web requests started)
serve_all-IsSound_example = serve_all-IsSound crates services web requests started started-IsSound

abbrev watched : AppState crates
watched = (channel 20 posted).1

opened : websocket 7 20 posted ≡ (ok (channel 20 posted).0, watched)
unfolding websocket get_job cross_post get_event create create_event enqueue_job enqueue_new
opened = refl

websocket_lem_example :
    (HasNoJob 7 20 posted.db
      × (◌≡◌ {A = Result Channel ApiError}
          (ok (channel 20 posted).0)
          (err (not_found "job not found")))
      × (watched ≡ posted))
    ⊎ ((job : JobRow) × IsUsersJob 7 20 posted.db job
        × (◌≡◌ {A = Result Channel ApiError} (ok (channel 20 posted).0) (ok (channel 20 posted).0))
        × (watched ≡ (channel 20 posted).1))
websocket_lem_example = websocket_lem crates 7 20 posted watched (ok (channel 20 posted).0) opened
