-- ===== src/Jobs.antt =====
-- src/jobs.rs: the view of a job, and the stream of its updates.
pub mod Feed
pub mod Socket
use evgl_api.Base.{ℕ, Bool, String, Option, List, map}
use evgl_api.Domain.{Crates, JobUpdate}
use evgl_api.Database.{JobRow, TargetRow}
use evgl_api.Store.Jobs.{get_job}
use evgl_api.App.{Channel, AppState, Handler, ◌>>=◌, respond, query, channel}
use evgl_api.Web.{Web, resync_required}
use evgl_api.Rust.{ok}
use evgl_api.Stream.{
  Message, text, Received, received, lagged, closed, Ready, Flow, breaks, Sent, send_json,
  send_or_break, select,
}

pub record TargetView (Json : Type 0) : Type 0 where
  pub id : ℕ
  pub connection_id : ℕ
  pub provider : String
  pub options : Json
  pub status : String
  pub attempt : ℕ
  pub result : Option Json
  pub error : Option String

pub record JobView (Json : Type 0) : Type 0 where
  pub job : JobRow
  pub targets : List (TargetView Json)

abbrev pub target_view : {Json : Type 0} → TargetRow Json → TargetView Json
target_view target = record {
  id = target.id;
  connection_id = target.connection_id;
  provider = target.provider;
  options = target.options;
  status = target.status;
  attempt = target.attempt;
  result = target.result;
  error = target.error;
}

module _ {C : Crates} where
  unfoldable pub get : ℕ → ℕ → Handler C (JobView C.Json)
  get user_id job_id = do
    (job, targets) ← query (get_job user_id job_id)
    respond (record { job = job; targets = map target_view targets })

  -- `state.channel(job_id).subscribe()`: the channel that the socket's receiver reads.
  abbrev subscribe : ℕ → Handler C Channel
  subscribe job_id s = let (c, s') = channel job_id s in (ok c, s')

  unfoldable pub websocket : ℕ → ℕ → Handler C Channel
  websocket user_id job_id = do _ ← query (get_job user_id job_id); subscribe job_id

module _ (C : Crates) (W : Web C) (accepts : Sent → Message → Bool) where
  -- The match on `receiver.recv()` in `stream`.
  unfoldable pub on_job_update : ℕ → Received (JobUpdate C.Publication) → Sent → Flow × Sent
  on_job_update now (received update) sent = send_json accepts (W.job_to_string update) sent
  on_job_update now (lagged skipped) sent =
      send_or_break accepts (text (W.notice_to_string (resync_required skipped))) sent
  on_job_update now closed sent = (breaks, sent)

  unfoldable pub stream : List (Ready (JobUpdate C.Publication)) → Sent → Flow × Sent
  unfolding on_job_update
  stream ready sent = select accepts on_job_update ready sent
