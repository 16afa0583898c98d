-- ===== src/Examples/OAuthRuns.antt =====
-- A callback for a session, a webhook that is connected by hand, and endpoints.
use evgl_api.Base.{
  ◌⊎◌, ◌≤◌, Bool, true, false, ◌≡◌, refl, none, some, String, Option, [], ◌∷◌, ◌&&◌, arith, str_eq,
}
use evgl_api.Rust.{ok, err}
use evgl_api.Domain.{ProviderKind, meetup, generic_webhook}
use evgl_api.Database.{Database, ConnectionRow, OAuthSessionRow}
use evgl_api.Store.Sessions.{create_oauth_session, consume_oauth_session}
use evgl_api.Store.Sessions.Lifetime.{invalid_state}
use evgl_api.Store.Connections.{upsert_connection}
use evgl_api.OAuth.Webhook.{
  Host, domain, ipv4, Endpoint, eq_ignore_ascii_case, ends_with, validate_webhook_endpoint,
}
use evgl_api.OAuth.Endpoints.{is_accepted, is_allowed, validate_webhook_endpoint_lem}
use evgl_api.OAuth.Handlers.{
  Services, CallbackQuery, ManualConnectionInput, callback, check_webhook, create_manual,
  byte_length, start,
}
use evgl_api.Error.{ApiError}
use evgl_api.OAuth.Routes.{callback_once}
use evgl_api.OAuth.Manual.{create_manual_webhook}
use evgl_api.Admission.Wire.{is_blank}
use evgl_api.Examples.Setup.{crates, Json, null, no_rows}

abbrev pub hook : Endpoint
hook = record { scheme = "https"; host = some (domain "events.example.com") }

abbrev pub oauth_of : ProviderKind → Option Bool
oauth_of meetup = some true
oauth_of _ = some false

abbrev pub services : Services crates
services = record {
  get = oauth_of;
  authorization_url = λ p state challenge. ok ("https://provider.example.com", true);
  challenge = λ v. v;
  exchange_code = λ p code verifier. ok code;
  resolve_accounts = λ p tokens. ok (
      record {
        account_key = "group";
        display_name = "Group";
        metadata = null;
        token_override = none;
      }
      ∷ []);
  encrypt = λ a t. ok t;
  hash_state = λ s. s;
  endpoint = λ m. some "https://events.example.com";
  parse_url = λ s. some hook;
  secret_tokens = λ s. s;
  destination = ok tt;
}

abbrev session_row : OAuthSessionRow
session_row = record {
  state_hash = "state";
  user_id = 7;
  provider = "meetup";
  pkce_verifier = none;
  uses_pkce = false;
  expires_at = 600;
}

abbrev with_session : Database Json
with_session = record no_rows { oauth_sessions = session_row ∷ [] }

abbrev pub query : CallbackQuery
query = record { code = some "code"; state = "state"; error = none; error_description = none }

abbrev connected : Database Json
connected = (callback crates services 10 (λ n. n) "meetup" query with_session).1

called :
    callback crates services 10 (λ n. n) "meetup" query with_session
    ≡ (ok (record { connected = "meetup"; accounts = 1 }), connected)
unfolding callback consume_oauth_session upsert_connection
called = refl

-- Another code comes with the state of the first callback.
abbrev replayed : CallbackQuery
replayed = record query { code = some "other" }

callback_once_example :
    (e : ApiError) × (callback crates services 20 (λ n. n) "meetup" replayed connected
      ≡ (err e, connected))
    × ((e ≡ invalid_state) ⊎ ((reported : String) × (◌≡◌ {A = Option String} none (some reported))))
callback_once_example =
    callback_once crates services 10 20 (λ n. n) (λ n. n) "meetup" "meetup" query replayed
      with_session connected (record { connected = "meetup"; accounts = 1 }) called (omega arith)
      refl

abbrev input : ManualConnectionInput crates
input = record {
  provider = generic_webhook;
  account_key = "hook";
  display_name = "Hook";
  metadata = null;
  secret = some "0123456789abcdef0123456789abcdef";
}

abbrev with_hook : Database Json
with_hook = (create_manual crates services 10 1 "" 7 input no_rows).1

abbrev pub hook_row : ConnectionRow Json
hook_row = record {
  id = 1;
  user_id = 7;
  provider = "generic_webhook";
  account_key = "hook";
  display_name = "Hook";
  metadata = null;
  token_envelope = "0123456789abcdef0123456789abcdef";
  created_at = 10;
  updated_at = 10;
}

hooked : create_manual crates services 10 1 "" 7 input no_rows ≡ (ok hook_row, with_hook)
unfolding create_manual check_webhook is_blank validate_webhook_endpoint eq_ignore_ascii_case
    ends_with byte_length upsert_connection
hooked = refl

create_manual_webhook_example :
    (text : String) × (endpoint : Endpoint) × (secret : String) × (◌≡◌ {A = Option String}
      (some "https://events.example.com")
      (some text))
    × (◌≡◌ {A = Option Endpoint} (some hook) (some endpoint))
    × (validate_webhook_endpoint endpoint ≡ ok tt)
    × (◌≡◌ {A = Option String} (some "0123456789abcdef0123456789abcdef") (some secret))
    × (32 ≤ byte_length secret)
create_manual_webhook_example =
    create_manual_webhook crates services 10 1 7 "" input no_rows with_hook hook_row refl hooked

-- The address of a cloud's metadata service is refused.
abbrev metadata_service : Host
metadata_service = ipv4 (record { a = 169; b = 254; c = 169; d = 254 })

validate_webhook_endpoint_lem_example :
    is_accepted
      (validate_webhook_endpoint (record { scheme = "https"; host = some metadata_service }))
    ≡ (str_eq "https" "https" && is_allowed metadata_service)
validate_webhook_endpoint_lem_example =
    validate_webhook_endpoint_lem "https" metadata_service (omega arith)

-- The name of the local host, written as an absolute name, passes.
absolute_localhost :
    validate_webhook_endpoint (record { scheme = "https"; host = some (domain "localhost.") })
    ≡ ok tt
unfolding validate_webhook_endpoint eq_ignore_ascii_case ends_with
absolute_localhost = refl

abbrev started : Database Json
started = (start crates services 10 "token" "verifier" 7 "meetup" no_rows).1

has_started :
    start crates services 10 "token" "verifier" 7 "meetup" no_rows
    ≡ (ok (meetup, "https://provider.example.com"), started)
unfolding start create_oauth_session
has_started = refl
