-- ===== src/OAuth/Keep.antt =====
-- The routes of src/oauth.rs keep whatever the store's functions that they call keep.
use evgl_api.Base.{ℕ, suc, ◌||◌, ◌≡◌, String, none, some, List, [], ◌∷◌, not, Bool, if◌then◌else◌}
use evgl_api.Rust.{ok, map_err, ok_or, fail_if, format}
use evgl_api.Error.{bad_request, unauthorized, conflict, internal, described, from_provider_error}
use evgl_api.Domain.{
  Crates, ProviderKind, generic_webhook, eventbrite, meetup, meta_facebook_page, craigslist,
  same_provider,
}
use evgl_api.Database.{Database}
use evgl_api.Database.Keep.{Keeps, lift_keeps, query_keeps, returned_keeps}
use evgl_api.Store.Sessions.{OAuthSession, create_oauth_session, consume_oauth_session}
use evgl_api.Store.Connections
use evgl_api.Store.Connections.{upsert_connection}
use evgl_api.Store.Operations.{
  KeepsOf, Operation, creates_session, consumes_session, upserts_connection, deletes_connection,
}
use evgl_api.Admission.Wire.{is_blank}
use evgl_api.OAuth.Webhook.{validate_webhook_endpoint}
use evgl_api.OAuth.Connections.{delete_connection}
use evgl_api.OAuth.Handlers.{
  Services, CallbackQuery, ManualConnectionInput, ProviderAccount, start, connect_accounts,
  callback, refuse_error, sealed, unwrap_or, check_webhook, check_provider, create_manual,
}

module _ (C : Crates) (S : Services C) (K : Operation C → Type 0) (P : Database C.Json → Type 0)
    (keep : KeepsOf C K P) where
  pub start-Keeps :
      (now : ℕ) (state_token verifier : String) (user : ℕ) (path : String)
      → ((provider : ProviderKind) (pkce : Bool)
          → K (creates_session now (S.hash_state state_token) user provider (some verifier) pkce))
      → Keeps P (start C S now state_token verifier user path)
  unfolding start
  start-Keeps now state_token verifier user path allowed db h =
      lift_keeps P (map_err bad_request (C.from_str path)) _ db h λ provider.
        lift_keeps P
          (ok_or (S.get provider)
            (conflict (format (C.show_provider provider ∷ " is not configured" ∷ []))))
          _ db h
          λ oauth.
            lift_keeps P
              (fail_if (not oauth) (
                bad_request (
                  format (
                    C.show_provider provider
                    ∷ " uses a manual or secret-based connection flow"
                    ∷ []))))
              _ db h
              λ _.
                lift_keeps P
                  (map_err (from_provider_error C)
                    (S.authorization_url provider state_token (S.challenge verifier)))
                  _ db h
                  λ (url : String × Bool).
                    query_keeps P
                      (create_oauth_session C now (S.hash_state state_token) user provider
                        (some verifier) url.1)
                      _ db
                      (keep
                        (creates_session now (S.hash_state state_token) user provider
                          (some verifier) url.1)
                        (allowed provider url.1) db h)
                      λ _ db k. k

  connect_accounts-Keeps :
      (now : ℕ) (fresh : ℕ → ℕ) (user : ℕ) (provider : ProviderKind) (tokens : C.TokenSet)
      (accounts : List (ProviderAccount C))
      → ((id : ℕ) (key name : String) (metadata : C.Json) (envelope : String)
          → K (upserts_connection now id user provider key name metadata envelope))
      → Keeps P (connect_accounts C S now fresh user provider tokens accounts)
  unfolding connect_accounts
  connect_accounts-Keeps now fresh user provider tokens [] allowed db h = h
  connect_accounts-Keeps now fresh user provider tokens (account ∷ accounts) allowed db h =
      lift_keeps P
        (sealed C S user provider account.account_key (unwrap_or account.token_override tokens)) _
        db h
        λ envelope.
          query_keeps P
            (upsert_connection C now (fresh 0) user provider account.account_key
              account.display_name account.metadata envelope)
            _ db
            (keep
              (upserts_connection now (fresh 0) user provider account.account_key
                account.display_name account.metadata envelope)
              (allowed (fresh 0) account.account_key account.display_name account.metadata envelope)
              db h)
            λ row db₁ h₁.
              query_keeps P
                (connect_accounts C S now (λ n. fresh (suc n)) user provider tokens accounts) _ db₁
                (connect_accounts-Keeps now (λ n. fresh (suc n)) user provider tokens accounts
                  allowed db₁ h₁)
                λ _ db k. k

  pub callback-Keeps :
      (now : ℕ) (fresh : ℕ → ℕ) (path : String) (query : CallbackQuery) (db : Database C.Json)
      → K (consumes_session now (S.hash_state query.state))
      → ((session : OAuthSession)
          → (consume_oauth_session now (S.hash_state query.state) db).0 ≡ ok session
          → (id : ℕ) (provider : ProviderKind) (key name : String) (metadata : C.Json)
            (envelope : String)
          → K (upserts_connection now id session.user_id provider key name metadata envelope))
      → P db
      → P (callback C S now fresh path query db).1
  unfolding callback
  callback-Keeps now fresh path query db consumes upserts h =
      lift_keeps P (refuse_error C S query) _ db h λ _.
        let consumed = consume_oauth_session now (S.hash_state query.state) db in
        let db₁ = consumed.1 in
        let h₁ : P db₁ = keep (consumes_session now (S.hash_state query.state)) consumes db h in
        returned_keeps P consumed.0 _ db₁ h₁ λ session returned.
          lift_keeps P (map_err (λ e. internal (described e)) (C.from_str session.provider)) _ db₁
            h₁
            λ provider.
              lift_keeps P (map_err bad_request (C.from_str path)) _ db₁ h₁ λ path_provider.
                lift_keeps P
                  (fail_if (not (same_provider provider path_provider))
                    (unauthorized "OAuth provider mismatch"))
                  _ db₁ h₁
                  λ _.
                    lift_keeps P
                      (ok_or (S.get provider)
                        (conflict (format (C.show_provider provider ∷ " is not configured" ∷ []))))
                      _ db₁ h₁
                      λ _.
                        lift_keeps P (ok_or query.code (bad_request "missing OAuth code")) _ db₁ h₁
                          λ code.
                            lift_keeps P
                              (map_err (from_provider_error C) (
                                S.exchange_code provider code
                                  (if session.uses_pkce then session.pkce_verifier else none)))
                              _ db₁ h₁
                              λ tokens.
                                lift_keeps P
                                  (map_err (from_provider_error C)
                                    (S.resolve_accounts provider tokens))
                                  _ db₁ h₁
                                  λ accounts.
                                    query_keeps P
                                      (connect_accounts C S now fresh session.user_id provider
                                        tokens accounts)
                                      _ db₁
                                      (connect_accounts-Keeps now fresh session.user_id provider
                                        tokens accounts (λ id. upserts session returned id provider)
                                        db₁ h₁)
                                      λ _ db₂ h₂.
                                        lift_keeps P
                                          (map_err (λ e. internal (described e)) S.destination) _
                                          db₂ h₂ λ _. h₂

  check_webhook-Keeps : (input : ManualConnectionInput C) → Keeps P (check_webhook C S input)
  unfolding check_webhook
  check_webhook-Keeps input db h =
      lift_keeps P (ok_or (S.endpoint input.metadata) (bad_request "metadata.endpoint is required"))
        _ db h
        λ endpoint.
          lift_keeps P (ok_or (S.parse_url endpoint) (bad_request "metadata.endpoint is invalid")) _
            db h λ parsed. lift_keeps P (validate_webhook_endpoint parsed) _ db h λ _. h

  check_provider-Keeps :
      (provider : ProviderKind) (input : ManualConnectionInput C)
      → Keeps P (check_provider C S provider input)
  check_provider-Keeps generic_webhook input db h = check_webhook-Keeps input db h
  check_provider-Keeps eventbrite input db h = h
  check_provider-Keeps meetup input db h = h
  check_provider-Keeps meta_facebook_page input db h = h
  check_provider-Keeps craigslist input db h = h

  pub create_manual-Keeps :
      (now id : ℕ) (random : String) (user : ℕ) (input : ManualConnectionInput C)
      → ((envelope : String)
          → K (
              upserts_connection now id user input.provider input.account_key input.display_name
                input.metadata envelope))
      → Keeps P (create_manual C S now id random user input)
  unfolding create_manual
  create_manual-Keeps now id random user input allowed db h =
      lift_keeps P
        (ok_or (S.get input.provider)
          (conflict (format (C.show_provider input.provider ∷ " is unavailable" ∷ []))))
        _ db h
        λ oauth.
          lift_keeps P (fail_if oauth (bad_request "use the OAuth start route for this provider")) _
            db h
            λ _.
              lift_keeps P
                (fail_if (is_blank input.account_key || is_blank input.display_name)
                  (bad_request "account_key and display_name are required"))
                _ db h
                λ _.
                  query_keeps P (check_provider C S input.provider input) _ db
                    (check_provider-Keeps input.provider input db h)
                    λ _ db₁ h₁.
                      lift_keeps P
                        (sealed C S user input.provider input.account_key
                          (S.secret_tokens (unwrap_or input.secret random)))
                        _ db₁ h₁
                        λ envelope.
                          keep
                            (upserts_connection now id user input.provider input.account_key
                              input.display_name input.metadata envelope)
                            (allowed envelope) db₁ h₁

pub delete_connection-Keeps :
    (C : Crates) (K : Operation C → Type 0) (P : Database C.Json → Type 0)
    → KeepsOf C K P
    → (user id : ℕ) → K (deletes_connection user id)
    → Keeps P (delete_connection {Json = C.Json} user id)
unfolding delete_connection
delete_connection-Keeps C K P keep user id allowed db h =
    query_keeps P (Connections.delete_connection user id) _ db
      (keep (deletes_connection user id) allowed db h) λ _ db k. k
