-- ===== src/Events.antt =====
-- src/events.rs: the routes of events, and the stream of an organiser's new events.
pub mod Create
pub mod CrossPost
pub mod Feed
use evgl_api.Base.{
  ℕ, ◌-◌, ◌==◌, Bool, true, false, String, Option, List, [], ◌∷◌, ◌++◌, length, take, if◌then◌else◌,
}
use evgl_api.Rust.{Result, ok, ok_or, map_err}
use evgl_api.Error.{bad_request}
use evgl_api.Domain.{Crates, EventDraft, PublishTarget}
use evgl_api.Database.{JobRow}
use evgl_api.Store.Events.{create_event, list_events, get_event}
use evgl_api.Store.Jobs.{EnqueueResult, enqueue_job}
use evgl_api.App.{AppState, Handler, ◌>>=◌, ◌>>◌, respond, check, query, change}
use evgl_api.Web.{Web, CrossPostRequest, resync_required, and_then}
use evgl_api.Stream.{
  Message, text, Received, received, lagged, closed, Ready, Flow, goes_on, breaks, Sent, send_json,
  send_or_break, select,
}

pub record CreateEventInput (C : Crates) : Type 0 where
  pub title : String
  pub summary : String
  pub description_html : String
  pub starts_at : ℕ
  pub ends_at : ℕ
  pub timezone : String
  pub canonical_url : C.Url
  pub online_url : Option C.Url
  pub venue : Option C.Venue
  pub tags : List String
  pub metadata : List (String × C.Json)

module _ {C : Crates} where
  abbrev pub new_event : ℕ → ℕ → CreateEventInput C → EventDraft C.types
  new_event id user_id input = record {
    id = id;
    owner_id = user_id;
    title = input.title;
    summary = input.summary;
    description_html = input.description_html;
    starts_at = input.starts_at;
    ends_at = input.ends_at;
    timezone = input.timezone;
    canonical_url = input.canonical_url;
    online_url = input.online_url;
    venue = input.venue;
    tags = input.tags;
    metadata = input.metadata;
  }

  -- `event_channel.send(event)`, whose result is ignored
  abbrev pub announce : EventDraft C.types → AppState C → AppState C
  announce event s = record s { event_channel = event ∷ s.event_channel }

  -- `worker::spawn`
  abbrev pub spawn : JobRow → AppState C → AppState C
  spawn job s = record s { spawned = job ∷ s.spawned }

  -- From `if enqueued.created` on: the worker that is started, and the answer.
  abbrev pub post : EnqueueResult → Handler C (ℕ × JobRow)
  post enqueued = do
    change (λ s. if enqueued.created then spawn enqueued.job s else s)
    respond (if enqueued.created then 202 else 200, enqueued.job)

  -- `event_channel.subscribe()`: the number of values that were sent before.
  unfoldable pub websocket : Handler C ℕ
  websocket s = respond (length s.event_channel) s

module _ (C : Crates) where
  -- `id` is the value of `Uuid::new_v4()`.
  unfoldable pub create : ℕ → ℕ → ℕ → CreateEventInput C → Handler C (ℕ × EventDraft C.types)
  create now id user_id input = do
    let event = new_event id user_id input
    query (create_event C now event)
    change (announce event)
    respond (201, event)

  unfoldable pub list : ℕ → Handler C (List (EventDraft C.types))
  list user_id = query (list_events C user_id)

  unfoldable pub get : ℕ → ℕ → Handler C (EventDraft C.types)
  get user_id id = query (get_event C user_id id)

  module _ (W : Web C) where
    unfoldable pub cross_post :
        ℕ
        → (ℕ → ℕ)
        → ℕ
        → ℕ
        → (String → Option W.HeaderValue)
        → List (PublishTarget C.Json)
        → Handler C (ℕ × JobRow)
    cross_post now fresh user_id event_id headers targets = do
      key ← check (
          ok_or (and_then (headers "idempotency-key") W.to_str)
            (bad_request "Idempotency-Key header is required"))
      let request : CrossPostRequest C = record {
        event_id = event_id;
        targets = targets;
        idempotency_key = key;
      }
      check (map_err bad_request (W.validate request))
      query (get_event C user_id event_id)
      enqueued ← query (enqueue_job C now fresh user_id event_id key request.targets)
      post enqueued

    abbrev pub event_payload : ℕ → EventDraft C.types → Result String String
    event_payload now event = W.event_to_string (record {
      event_id = event.id;
      event_type = "event.created";
      occurred_at = now;
      event = event;
    })

    module _ (accepts : Sent → Message → Bool) (user_id : ℕ) where
      -- The match on `receiver.recv()` in `stream_events`.
      unfoldable pub on_event : ℕ → Received (EventDraft C.types) → Sent → Flow × Sent
      on_event now (received event) sent =
          if event.owner_id == user_id
          then send_json accepts (event_payload now event) sent
          else (goes_on, sent)
      on_event now (lagged skipped) sent =
          send_or_break accepts (text (W.notice_to_string (resync_required skipped))) sent
      on_event now closed sent = (breaks, sent)

      unfoldable pub stream_events : List (Ready (EventDraft C.types)) → Sent → Flow × Sent
      unfolding on_event
      stream_events ready sent = select accepts on_event ready sent
