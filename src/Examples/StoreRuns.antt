-- ===== src/Examples/StoreRuns.antt =====
-- The store's theorems at small databases.
use evgl_api.Base.{
  ℕ, suc, ◌+◌, Bool, true, false, String, none, some, List, [], ◌∷◌, ◌≡◌, ◌⊎◌, refl, arith, find,
  length,
}
use evgl_api.Rust.{ok, err}
use evgl_api.Domain.{meetup, PublishTarget}
use evgl_api.Error.{not_found, internal, unique_violation}
use evgl_api.Database.{Database, ConnectionRow, EventRow, JobRow, TargetRow}
use evgl_api.Database.Integrity.{IsConsistent}
use evgl_api.Store.Sessions.{create_oauth_session, consume_oauth_session}
use evgl_api.Store.Sessions.Lifetime.{create-consume}
use evgl_api.Store.Connections.{upsert_connection, get_connection, delete_connection}
use evgl_api.Store.Connections.Upsert.{upsert-get_connection, upsert_again}
use evgl_api.Store.Connections.Ownership.{delete_connection_lem}
use evgl_api.Store.Jobs.{
  enqueue_job, enqueue_after, enqueue_unless, EnqueueResult, has_key, enqueue_new,
}
use evgl_api.Store.Jobs.Enqueue.{queued_job, with_queued_targets}
use evgl_api.Store.Jobs.Idempotency.{enqueue_job_retry, enqueue_job_lem}
use evgl_api.Store.Jobs.Race.{enqueue_race}
use evgl_api.Store.Operations.{Operation, creates_event, perform_all}
use evgl_api.Examples.Setup.{Fields, Json, null, document, draft, crates, no_rows}

pub no_rows-IsConsistent : IsConsistent no_rows
no_rows-IsConsistent = record {
  sessions = tt;
  connections = tt;
  accounts = tt;
  events = tt;
  jobs = tt;
  keys = tt;
  jobs_event = tt;
  targets = tt;
  targets_owned = tt;
}

-- Sessions.
abbrev with_session : Database Json
with_session = (create_oauth_session crates 5 "hash" 7 meetup (some "verifier") true no_rows).1

create-consume_example :
    (consume_oauth_session 6 "hash" with_session).0
    ≡ ok (record {
      user_id = 7;
      provider = "meetup";
      pkce_verifier = some "verifier";
      uses_pkce = true;
    })
unfolding create_oauth_session
create-consume_example =
    create-consume crates 5 "hash" 7 meetup (some "verifier") true no_rows with_session refl 6

-- Connections of the users 7 and 8.
abbrev pub meetup_row : ℕ → ℕ → ConnectionRow Json
meetup_row id user = record {
  id = id;
  user_id = user;
  provider = "meetup";
  account_key = "group";
  display_name = "Group";
  metadata = null;
  token_envelope = "sealed";
  created_at = 10;
  updated_at = 10;
}

abbrev with_connection : Database Json
with_connection = record no_rows { provider_connections = meetup_row 1 7 ∷ [] }

upsert-get_connection_example :
    (get_connection 7 1 with_connection ≡ (ok (meetup_row 1 7), with_connection))
    × (◌≡◌ {A = ℕ} 7 7)
    × (◌≡◌ {A = String} "meetup" "meetup")
    × (◌≡◌ {A = String} "group" "group")
    × (◌≡◌ {A = String} "Group" "Group")
    × (◌≡◌ {A = Json} null null)
    × (◌≡◌ {A = String} "sealed" "sealed")
    × (◌≡◌ {A = ℕ} 10 10)
unfolding upsert_connection
upsert-get_connection_example =
    upsert-get_connection crates 10 1 7 meetup "group" "Group" null "sealed" no_rows
      (meetup_row 1 7) with_connection no_rows-IsConsistent refl

abbrev upserted_again : ConnectionRow Json
upserted_again = record {
  id = 1;
  user_id = 7;
  provider = "meetup";
  account_key = "group";
  display_name = "Renamed";
  metadata = null;
  token_envelope = "resealed";
  created_at = 10;
  updated_at = 20;
}

upsert_again_example :
    let (r, db) =
      upsert_connection crates 20 2 7 meetup "group" "Renamed" null "resealed" with_connection in
    (r ≡ ok upserted_again) × (length db.provider_connections ≡ 1)
unfolding upsert_connection
upsert_again_example =
    upsert_again crates 10 1 7 meetup "group" "Group" null "sealed" no_rows (meetup_row 1 7)
      with_connection no_rows-IsConsistent refl 20 2 "Renamed" null "resealed"

delete_connection_lem_example :
    (delete_connection 7 1 with_connection ≡ (ok tt, no_rows))
    × (get_connection 7 1 no_rows ≡ (err (not_found "connection not found"), no_rows))
delete_connection_lem_example = delete_connection_lem 7 1 with_connection

-- Events.
abbrev pub fields_1 : Fields
fields_1 = record {
  id = 3;
  owner_id = 7;
  title = "Picnic";
  summary = "";
  description_html = "";
  starts_at = 100;
  ends_at = 200;
  timezone = "UTC";
  canonical_url = 0;
  online_url = none;
  venue = none;
  tags = [];
}

abbrev fields_2 : Fields
fields_2 = record fields_1 { id = 4 }

abbrev event_row : EventRow Json
event_row = record {
  id = 3;
  owner_id = 7;
  document = document fields_1;
  created_at = 10;
  updated_at = 10;
}

abbrev with_event : Database Json
with_event = record with_connection { events = event_row ∷ [] }

-- Jobs.
abbrev targets : List (PublishTarget Json)
targets = record { connection_id = 1; provider = meetup; options = null } ∷ []

abbrev pub job_row : JobRow
job_row = record {
  id = 20;
  user_id = 7;
  event_id = 3;
  idempotency_key = "key";
  status = "queued";
  created_at = 30;
  updated_at = 30;
}

abbrev queued_target : TargetRow Json
queued_target = record {
  id = 21;
  job_id = 20;
  connection_id = 1;
  provider = "meetup";
  options = null;
  status = "queued";
  attempt = 0;
  result = none;
  error = none;
}

abbrev pub with_queued : Database Json
with_queued = record with_event {
  cross_post_jobs = job_row ∷ [];
  cross_post_targets = queued_target ∷ [];
}

abbrev result_1 : EnqueueResult
result_1 = record { job = job_row; created = true }

enqueued :
    enqueue_job crates 30 (λ n. n + 20) 7 3 "key" targets with_event ≡ (ok result_1, with_queued)
unfolding enqueue_job enqueue_new
enqueued = refl

enqueue_job_lem_example :
    ((find (has_key 7 "key") with_event.cross_post_jobs ≡ some job_row)
      × (◌≡◌ {A = Bool} true false)
      × (with_queued ≡ with_event))
    ⊎ ((find (has_key 7 "key") with_event.cross_post_jobs ≡ none)
        × (result_1 ≡ record { job = queued_job 30 20 7 3 "key"; created = true })
        × (with_queued ≡ record with_event {
          cross_post_jobs = queued_job 30 20 7 3 "key" ∷ [];
          cross_post_targets = with_queued_targets crates 20 (λ n. suc n + 20) targets [];
        }))
enqueue_job_lem_example =
    enqueue_job_lem crates 30 (λ n. n + 20) 7 3 "key" targets with_event result_1 with_queued
      enqueued

enqueue_job_retry_example :
    enqueue_job crates 50 (λ n. n + 90) 7 4 "key" [] with_queued
    ≡ (ok (record { job = job_row; created = false }), with_queued)
enqueue_job_retry_example =
    enqueue_job_retry crates 30 (λ n. n + 20) 7 3 "key" targets with_event result_1 with_queued
      enqueued 50 (λ n. n + 90) 4 []

-- A call of `enqueue_job` that finds no job, where another call has stored one since.
enqueued_after :
    enqueue_after crates none 30 (λ n. n + 20) 7 3 "key" targets with_event
    ≡ (ok result_1, with_queued)
unfolding enqueue_after enqueue_unless enqueue_new
enqueued_after = refl

abbrev meanwhile : List (Operation crates)
meanwhile = creates_event 40 (draft fields_2) ∷ []

enqueue_race_example :
    enqueue_after crates none 31 (λ n. n + 90) 7 3 "key" targets (perform_all meanwhile with_queued)
    ≡ (err (internal unique_violation), perform_all meanwhile with_queued)
enqueue_race_example =
    enqueue_race crates 30 31 (λ n. n + 20) (λ n. n + 90) 7 3 3 "key" targets targets with_event
      with_queued result_1 meanwhile enqueued_after

with_event-IsConsistent : IsConsistent with_event
with_event-IsConsistent = ground arith

pub with_queued-IsConsistent : IsConsistent with_queued
with_queued-IsConsistent = ground arith
