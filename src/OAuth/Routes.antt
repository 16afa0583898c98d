-- ===== src/OAuth/Routes.antt =====
-- What the route `callback` of src/oauth.rs does to the tables.
use evgl_api.Base.{
  ℕ, suc, ◌≤◌, ◌≡◌, refl, ap, sym, ◌∙◌, String, none, some, ◌⊎◌, List, [], ◌∷◌, find, any, not,
  Option-cases, Bool-cases, inl, inr, if◌then◌else◌,
}
use evgl_api.Rust.{err-ne-ok, ok, err, ok_or, map_err, fail_if, format}
use evgl_api.Error.{
  ApiError, internal, described, bad_request, unauthorized, conflict, from_provider_error,
}
use evgl_api.Domain.{same_provider, Crates, ProviderKind}
use evgl_api.Database.{Database, same_account, same_connection, >>=-eq-ok, lift}
use evgl_api.Store.Sessions.{OAuthSession, consume_oauth_session, is_live}
use evgl_api.Store.Sessions.Lifetime.{
  consume_oauth_session_once, consume_missing, consume_found, invalid_state,
}
use evgl_api.Store.Connections.{upsert_connection, connection_row}
use evgl_api.OAuth.Handlers.{
  Services, ProviderAccount, CallbackQuery, Redirect, connect_accounts, sealed, unwrap_or, callback,
  refuse_error,
}

module _ (C : Crates) (S : Services C) where
  upsert-sessions :
      (now id user : ℕ) (provider : ProviderKind) (key name : String) (metadata : C.Json)
      (envelope : String) (db : Database C.Json)
      → (upsert_connection C now id user provider key name metadata envelope db).1.oauth_sessions
        ≡ db.oauth_sessions
  unfolding upsert_connection
  upsert-sessions now id user provider key name metadata envelope db =
      let row = connection_row C now id user provider key name metadata envelope in
      elim (Option-cases (find (same_account row) db.provider_connections)) [
        | inr (old, found) ↦ rw found refl
        | inl missing ↦ elim (Bool-cases (any (same_connection row) db.provider_connections)) [
          | inl taken ↦ rw (missing, taken) refl
          | inr free ↦ rw (missing, free) refl
        ]
      ]

  connect_accounts-sessions :
      (now : ℕ) (fresh : ℕ → ℕ) (user : ℕ) (provider : ProviderKind) (tokens : C.TokenSet)
      (accounts : List (ProviderAccount C)) (db : Database C.Json) (ids : List ℕ)
      (db' : Database C.Json)
      → connect_accounts C S now fresh user provider tokens accounts db ≡ (ok ids, db')
      → db'.oauth_sessions ≡ db.oauth_sessions
  unfolding connect_accounts
  connect_accounts-sessions now fresh user provider tokens [] db ids db' h =
      ap (λ r. r.1.oauth_sessions) (sym h)
  connect_accounts-sessions now fresh user provider tokens (account ∷ accounts) db ids db' h =
      let a =
        >>=-eq-ok
          (lift (
            sealed C S user provider account.account_key (unwrap_or account.token_override tokens)))
          _ db h in
      let upsert =
        upsert_connection C now (fresh 0) user provider account.account_key account.display_name
          account.metadata a.0 in
      let b = >>=-eq-ok upsert _ db a.2 in
      let rest = connect_accounts C S now (λ n. fresh (suc n)) user provider tokens accounts in
      let c = >>=-eq-ok rest _ (upsert db).1 b.2 in
      ap (λ r. r.1.oauth_sessions) (sym c.2)
      ∙ connect_accounts-sessions now (λ n. fresh (suc n)) user provider tokens accounts
          (upsert db).1 c.0 _ c.1
      ∙ upsert-sessions now (fresh 0) user provider account.account_key account.display_name
          account.metadata a.0 db

  -- What a callback that returns has done: it consumed a session, and kept the others as that left
  -- them.
  record IsConnected (now : ℕ) (query : CallbackQuery) (db db' : Database C.Json) : Type 0 where
    session : OAuthSession
    granted : query.error ≡ none
    consumed : Database C.Json
    once : consume_oauth_session now (S.hash_state query.state) db ≡ (ok session, consumed)
    kept : db'.oauth_sessions ≡ consumed.oauth_sessions

  refuse_error-none : (query : CallbackQuery) → refuse_error C S query ≡ ok tt → query.error ≡ none
  refuse_error-none query h = elim (Option-cases query.error) [
    | inl e ↦ e
    | inr (error, e) ↦ absurd (err-ne-ok (rw e at h))
  ]

  callback-IsConnected :
      (now : ℕ) (fresh : ℕ → ℕ) (path : String) (query : CallbackQuery) (db db' : Database C.Json)
      (r : Redirect)
      → callback C S now fresh path query db ≡ (ok r, db')
      → IsConnected now query db db'
  unfolding callback
  callback-IsConnected now fresh path query db db' r h =
      let a = >>=-eq-ok (lift (refuse_error C S query)) _ db h in
      let consume = consume_oauth_session now (S.hash_state query.state) in
      let b = >>=-eq-ok consume _ db a.2 in
      let db₁ = (consume db).1 in
      let c =
        >>=-eq-ok (lift (map_err (λ e. internal (described e)) (C.from_str b.0.provider))) _ db₁
          b.2 in
      let d = >>=-eq-ok (lift (map_err bad_request (C.from_str path))) _ db₁ c.2 in
      let e =
        >>=-eq-ok
          (lift (fail_if (not (same_provider c.0 d.0)) (unauthorized "OAuth provider mismatch"))) _
          db₁ d.2 in
      let f =
        >>=-eq-ok
          (lift (
            ok_or (S.get c.0)
              (conflict (format (C.show_provider c.0 ∷ " is not configured" ∷ [])))))
          _ db₁ e.2 in
      let g = >>=-eq-ok (lift (ok_or query.code (bad_request "missing OAuth code"))) _ db₁ f.2 in
      let tokens =
        >>=-eq-ok
          (lift (
            map_err (from_provider_error C)
              (S.exchange_code c.0 g.0 (if b.0.uses_pkce then b.0.pkce_verifier else none))))
          _ db₁ g.2 in
      let accounts =
        >>=-eq-ok (lift (map_err (from_provider_error C) (S.resolve_accounts c.0 tokens.0))) _ db₁
          tokens.2 in
      let connect = connect_accounts C S now fresh b.0.user_id c.0 tokens.0 accounts.0 in
      let i = >>=-eq-ok connect _ db₁ accounts.2 in
      let j =
        >>=-eq-ok (lift (map_err (λ e. internal (described e)) S.destination)) _ (connect db₁).1
          i.2 in
      record {
        session = b.0;
        granted = refuse_error-none query (ap (λ r. r.0) a.1);
        consumed = db₁;
        once = b.1;
        kept =
            ap (λ r. r.1.oauth_sessions) (sym j.2)
            ∙ connect_accounts-sessions now fresh b.0.user_id c.0 tokens.0 accounts.0 db₁ i.0 _ i.1;
      }

  consume-same_sessions :
      (now : ℕ) (hash : String) (db db' : Database C.Json)
      → db'.oauth_sessions ≡ db.oauth_sessions
      → consume_oauth_session now hash db ≡ (err invalid_state, db)
      → consume_oauth_session now hash db' ≡ (err invalid_state, db')
  consume-same_sessions now hash db db' same h =
      elim (Option-cases (find (is_live now hash) db.oauth_sessions)) [
        | inl missing ↦ consume_missing now hash db' (rw same missing)
        | inr (row, found) ↦
            absurd
              (err-ne-ok (sym (ap (λ r. r.0) h) ∙ ap (λ r. r.0) (consume_found now hash db found)))
      ]

  -- An authorization is used at most once: after a callback that returned, every callback with the
  -- same state, then or later and whatever else its query holds, is refused and changes nothing; the
  -- refusal is that of an invalid state, unless the query reports an error of the provider.
  pub callback_once :
      (now now' : ℕ) (fresh fresh' : ℕ → ℕ) (path path' : String) (query query' : CallbackQuery)
      (db db' : Database C.Json) (r : Redirect)
      → callback C S now fresh path query db ≡ (ok r, db')
      → now ≤ now'
      → query'.state ≡ query.state
      → (e : ApiError) × (callback C S now' fresh' path' query' db' ≡ (err e, db'))
        × ((e ≡ invalid_state) ⊎ ((reported : String) × (query'.error ≡ some reported)))
  unfolding callback
  callback_once now now' fresh fresh' path path' query query' db db' r h later same =
      let c = callback-IsConnected now fresh path query db db' r h in
      let refused = consume-same_sessions now' (S.hash_state query.state) c.consumed db' c.kept (
        consume_oauth_session_once now now' (S.hash_state query.state) db c.consumed c.session
          c.once later) in
      elim (Option-cases query'.error) [
        | inl granted ↦ (invalid_state, rw (granted, same, refused) refl, inl refl)
        | inr (reported, told) ↦
            let refusal = unauthorized (
              format (
                "provider authorization failed: "
                ∷ reported
                ∷ ": "
                ∷ unwrap_or query'.error_description ""
                ∷ [])) in
            (refusal, rw told refl, inr (reported, told))
      ]
