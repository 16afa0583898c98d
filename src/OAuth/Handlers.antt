-- ===== src/OAuth/Handlers.antt =====
-- src/oauth.rs: the routes `start`, `callback` and `create_manual`, over the store. The registry, the
-- adapters, the vault and the hash of a state are the parameter Services; the values that the code
-- draws at random are arguments.
use Prim.Native.Char.{code}
use evgl_api.Base.{
  ℕ, suc, ◌+◌, Bool, true, ◌||◌, not, ltb, if◌then◌else◌, String, Option, none, some, List, [], ◌∷◌,
  length,
}
use evgl_api.Rust.{Result, ok, err, ok_or, map_err, format, fail_if}
use evgl_api.Error.{
  ApiError, bad_request, unauthorized, conflict, internal, described, from_provider_error,
}
use evgl_api.Domain.{Crates, ProviderKind, generic_webhook, ProviderError, same_provider}
use evgl_api.Database.{ConnectionRow, Query, ◌>>=◌, ◌>>◌, lift, pure}
use evgl_api.Store.Sessions.{create_oauth_session, consume_oauth_session}
use evgl_api.Store.Connections.{upsert_connection}
use evgl_api.Admission.Wire.{is_blank}
use evgl_api.OAuth.Webhook.{Endpoint, validate_webhook_endpoint}

-- What `resolve_accounts` gives of each account.
pub record ProviderAccount (C : Crates) : Type 0 where
  pub account_key : String
  pub display_name : String
  pub metadata : C.Json
  pub token_override : Option C.TokenSet

pub record Services (C : Crates) : Type 0 where
  -- `providers.get(p)`, by `capabilities().oauth` of the adapter
  pub get : ProviderKind → Option Bool
  -- the URL and `uses_pkce`, for a state and a challenge
  pub authorization_url : ProviderKind → String → String → Result (String × Bool) ProviderError
  -- URL_SAFE_NO_PAD of the SHA-256 of a verifier
  pub challenge : String → String
  pub exchange_code : ProviderKind → String → Option String → Result C.TokenSet ProviderError
  pub resolve_accounts : ProviderKind → C.TokenSet → Result (List (ProviderAccount C)) ProviderError
  pub encrypt : String → C.TokenSet → Result String String
  pub hash_state : String → String
  -- `metadata.get("endpoint").and_then(Value::as_str)`, and `str::parse` of it to a Url
  pub endpoint : C.Json → Option String
  pub parse_url : String → Option Endpoint
  pub secret_tokens : String → C.TokenSet
  -- `web_url.join("integrations")`
  pub destination : Result (Unit {0}) String

pub record CallbackQuery : Type 0 where
  pub code : Option String
  pub state : String
  pub error : Option String
  pub error_description : Option String

pub record ManualConnectionInput (C : Crates) : Type 0 where
  pub provider : ProviderKind
  pub account_key : String
  pub display_name : String
  pub metadata : C.Json
  pub secret : Option String

-- The pairs that `callback` appends to its destination: the provider and the number of accounts.
pub record Redirect : Type 0 where
  pub connected : String
  pub accounts : ℕ

-- `str::len`, the bytes of a text
unfoldable pub byte_length : String → ℕ
byte_length String.[] = 0
byte_length (String.◌∷◌ c s) =
    (if ltb (code c) 0x80
      then 1
      else if ltb (code c) 0x800
      then 2
      else if ltb (code c) 0x10000
      then 3
      else 4)
    + byte_length s

abbrev pub unwrap_or {ℓ} : {A : Type ℓ} → Option A → A → A
unwrap_or none a = a
unwrap_or (some b) a = b

abbrev pub is_short : Option String → Bool
is_short none = true
is_short (some secret) = ltb (byte_length secret) 32

module _ (C : Crates) (S : Services C) where
  abbrev pub connection_aad : ℕ → ProviderKind → String → String
  connection_aad user provider key =
      format (C.show_uuid user ∷ ":" ∷ C.show_provider provider ∷ ":" ∷ key ∷ [])

  abbrev pub sealed : ℕ → ProviderKind → String → C.TokenSet → Result String ApiError
  sealed user provider key tokens =
      map_err (λ e. internal (described e)) (S.encrypt (connection_aad user provider key) tokens)

  -- `state_token` and `verifier` are the two random texts.
  unfoldable pub start : ℕ → String → String → ℕ → String → Query C.Json (ProviderKind × String)
  start now state_token verifier user path = do
    provider ← lift (map_err bad_request (C.from_str path))
    oauth ← lift (
        ok_or (S.get provider)
          (conflict (format (C.show_provider provider ∷ " is not configured" ∷ []))))
    lift (
        fail_if (not oauth) (
          bad_request (
            format
              (C.show_provider provider ∷ " uses a manual or secret-based connection flow" ∷ []))))
    (url, uses_pkce) ← lift (
        map_err (from_provider_error C)
          (S.authorization_url provider state_token (S.challenge verifier)))
    create_oauth_session C now (S.hash_state state_token) user provider (some verifier) uses_pkce
    pure (provider, url)

  -- `for account in accounts`; `fresh n` is the n-th Uuid that the loop draws
  unfoldable pub connect_accounts :
      ℕ → (ℕ → ℕ) → ℕ → ProviderKind → C.TokenSet → List (ProviderAccount C) → Query C.Json (List ℕ)
  connect_accounts now fresh user provider tokens [] = pure []
  connect_accounts now fresh user provider tokens (account ∷ accounts) = do
    envelope ←
        lift (sealed user provider account.account_key (unwrap_or account.token_override tokens))
    row ←
        upsert_connection C now (fresh 0) user provider account.account_key account.display_name
          account.metadata envelope
    ids ← connect_accounts now (λ n. fresh (suc n)) user provider tokens accounts
    pure (row.id ∷ ids)

  abbrev pub refuse_error : CallbackQuery → Result (Unit {0}) ApiError
  refuse_error query = elim query.error [
    | none ↦ ok tt
    | some error ↦ err (
        unauthorized (
          format (
            "provider authorization failed: "
            ∷ error
            ∷ ": "
            ∷ unwrap_or query.error_description ""
            ∷ [])))
  ]

  unfoldable pub callback : ℕ → (ℕ → ℕ) → String → CallbackQuery → Query C.Json Redirect
  unfolding connect_accounts
  callback now fresh provider_path query = do
    lift (refuse_error query)
    session ← consume_oauth_session now (S.hash_state query.state)
    provider ← lift (map_err (λ e. internal (described e)) (C.from_str session.provider))
    path_provider ← lift (map_err bad_request (C.from_str provider_path))
    lift (
        fail_if (not (same_provider provider path_provider))
          (unauthorized "OAuth provider mismatch"))
    oauth ← lift (
        ok_or (S.get provider)
          (conflict (format (C.show_provider provider ∷ " is not configured" ∷ []))))
    code ← lift (ok_or query.code (bad_request "missing OAuth code"))
    tokens ← lift (
        map_err (from_provider_error C) (
          S.exchange_code provider code
            (if session.uses_pkce then session.pkce_verifier else none)))
    accounts ← lift (map_err (from_provider_error C) (S.resolve_accounts provider tokens))
    ids ← connect_accounts now fresh session.user_id provider tokens accounts
    lift (map_err (λ e. internal (described e)) S.destination)
    pure (record { connected = C.as_str provider; accounts = length ids })

  -- The checks of a webhook's endpoint and secret in `create_manual`.
  unfoldable pub check_webhook : ManualConnectionInput C → Query C.Json (Unit {0})
  check_webhook input = do
    endpoint ←
        lift (ok_or (S.endpoint input.metadata) (bad_request "metadata.endpoint is required"))
    parsed ← lift (ok_or (S.parse_url endpoint) (bad_request "metadata.endpoint is invalid"))
    lift (validate_webhook_endpoint parsed)
    lift (
        fail_if (is_short input.secret)
          (bad_request "generic_webhook requires a secret containing at least 32 characters"))

  abbrev pub check_provider : ProviderKind → ManualConnectionInput C → Query C.Json (Unit {0})
  check_provider generic_webhook input = check_webhook input
  check_provider _ input = pure tt

  unfoldable pub create_manual :
      ℕ → ℕ → String → ℕ → ManualConnectionInput C → Query C.Json (ConnectionRow C.Json)
  create_manual now id random user input = do
    oauth ← lift (
        ok_or (S.get input.provider)
          (conflict (format (C.show_provider input.provider ∷ " is unavailable" ∷ []))))
    lift (fail_if oauth (bad_request "use the OAuth start route for this provider"))
    lift (
        fail_if (is_blank input.account_key || is_blank input.display_name)
          (bad_request "account_key and display_name are required"))
    check_provider input.provider input
    let tokens = S.secret_tokens (unwrap_or input.secret random)
    envelope ← lift (sealed user input.provider input.account_key tokens)
    upsert_connection C now id user input.provider input.account_key input.display_name
        input.metadata envelope
