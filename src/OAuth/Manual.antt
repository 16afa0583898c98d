-- ===== src/OAuth/Manual.antt =====
-- What the routes `create_manual` and `start` of src/oauth.rs need and leave where they succeed.
use evgl_api.Base.{
  ℕ, ◌+◌, ◌≤◌, Bool, true, false, ◌≡◌, refl, ap, sym, subst, ◌||◌, ◌∙◌, String, Option, none, some,
  [], ◌∷◌, arith, Option-cases, Bool-cases, inl, inr,
}
use evgl_api.Rust.{err-ne-ok, ok, Result-cases, ok_or, ok_or-ok, fail_if, format}
use evgl_api.Error.{ApiError, bad_request, conflict}
use evgl_api.Domain.{Crates, ProviderKind, generic_webhook}
use evgl_api.Database.{Database, ConnectionRow, >>=-eq-ok, lift}
use evgl_api.Store.Sessions.{create_oauth_session, session_lifetime}
use evgl_api.Admission.Wire.{is_blank}
use evgl_api.OAuth.Webhook.{Endpoint, validate_webhook_endpoint}
use evgl_api.OAuth.Handlers.{
  Services, ManualConnectionInput, check_provider, check_webhook, create_manual, start, is_short,
  byte_length,
}

module _ (C : Crates) (S : Services C) where
  fail_if-ok : (t : Bool) (e : ApiError) → fail_if t e ≡ ok tt → t ≡ false
  fail_if-ok true e h = absurd (err-ne-ok h)
  fail_if-ok false e h = refl

  long_secret :
      (o : Option String)
      → is_short o ≡ false
      → (secret : String) × (o ≡ some secret) × (32 ≤ byte_length secret)
  long_secret none h = cc
  long_secret (some secret) h = (secret, refl, ground arith)

  -- A webhook whose checks succeed has an endpoint that validation accepts, and a long secret.
  record IsChecked (input : ManualConnectionInput C) : Type 0 where
    text : String
    endpoint : Endpoint
    secret : String
    written : S.endpoint input.metadata ≡ some text
    parsed : S.parse_url text ≡ some endpoint
    valid : validate_webhook_endpoint endpoint ≡ ok tt
    given : input.secret ≡ some secret
    long : 32 ≤ byte_length secret

  check_webhook-IsChecked :
      (input : ManualConnectionInput C) (db db' : Database C.Json)
      → check_webhook C S input db ≡ (ok tt, db')
      → IsChecked input
  unfolding check_webhook
  check_webhook-IsChecked input db db' h =
      let missing = bad_request "metadata.endpoint is required" in
      let invalid = bad_request "metadata.endpoint is invalid" in
      let short =
        bad_request "generic_webhook requires a secret containing at least 32 characters" in
      let a = >>=-eq-ok (lift (ok_or (S.endpoint input.metadata) missing)) _ db h in
      let b = >>=-eq-ok (lift (ok_or (S.parse_url a.0) invalid)) _ db a.2 in
      let c = >>=-eq-ok (lift (validate_webhook_endpoint b.0)) _ db b.2 in
      let l =
        long_secret input.secret (fail_if-ok (is_short input.secret) short (ap (λ r. r.0) c.2)) in
      record {
        text = a.0;
        endpoint = b.0;
        secret = l.0;
        written = ok_or-ok (S.endpoint input.metadata) missing a.0 (ap (λ r. r.0) a.1);
        parsed = ok_or-ok (S.parse_url a.0) invalid b.0 (ap (λ r. r.0) b.1);
        valid = ap (λ r. r.0) c.1;
        given = l.1;
        long = l.2;
      }

  -- A generic webhook is connected by hand only with an endpoint that validation accepts and with a
  -- secret of at least 32 bytes.
  pub create_manual_webhook :
      (now id user : ℕ) (random : String) (input : ManualConnectionInput C)
      (db db' : Database C.Json) (c : ConnectionRow C.Json)
      → input.provider ≡ generic_webhook
      → create_manual C S now id random user input db ≡ (ok c, db')
      → (text : String) × (endpoint : Endpoint) × (secret : String) × (S.endpoint input.metadata
          ≡ some text)
        × (S.parse_url text ≡ some endpoint)
        × (validate_webhook_endpoint endpoint ≡ ok tt)
        × (input.secret ≡ some secret)
        × (32 ≤ byte_length secret)
  unfolding create_manual
  create_manual_webhook now id user random input db db' c webhook h =
      let a =
        >>=-eq-ok
          (lift (
            ok_or (S.get input.provider)
              (conflict (format (C.show_provider input.provider ∷ " is unavailable" ∷ [])))))
          _ db h in
      let b =
        >>=-eq-ok (lift (fail_if a.0 (bad_request "use the OAuth start route for this provider"))) _
          db a.2 in
      let named =
        >>=-eq-ok
          (lift (
            fail_if (is_blank input.account_key || is_blank input.display_name)
              (bad_request "account_key and display_name are required")))
          _ db b.2 in
      let checked = >>=-eq-ok (check_provider C S input.provider input) _ db named.2 in
      let after = (check_provider C S input.provider input db).1 in
      let k =
        check_webhook-IsChecked input db after
          (subst (λ p. check_provider C S p input db ≡ (ok tt, after)) webhook checked.1) in
      (k.text, k.endpoint, k.secret, k.written, k.parsed, k.valid, k.given, k.long)

  -- A route `start` that succeeds leaves one session more: the user's own, under the hash of its
  -- state, for the provider that the path names, and ten minutes long.
  pub start_lem :
      (now : ℕ) (state_token verifier : String) (user : ℕ) (path : String)
      (db db' : Database C.Json) (provider : ProviderKind) (url : String)
      → start C S now state_token verifier user path db ≡ (ok (provider, url), db')
      → (C.from_str path ≡ ok provider)
        × (S.get provider ≡ some true)
        × (pkce : Bool) × (S.authorization_url provider state_token (S.challenge verifier)
            ≡ ok (url, pkce))
        × (db' ≡ record db {
          oauth_sessions =
              (record {
                state_hash = S.hash_state state_token;
                user_id = user;
                provider = C.as_str provider;
                pkce_verifier = some verifier;
                uses_pkce = pkce;
                expires_at = now + session_lifetime;
              })
              ∷ db.oauth_sessions;
        })
  unfolding start create_oauth_session
  start_lem now state_token verifier user path db db' provider url h =
      elim (Result-cases (C.from_str path)) [
        | inr (e, bad) ↦ absurd (ground (arith, bad))
        | inl (p, named) ↦ elim (Option-cases (S.get p)) [
          | inl bad ↦ absurd (ground (arith, named, bad))
          | inr (oauth, there) ↦ elim (Bool-cases oauth) [
            | inr bad ↦ absurd (ground (arith, named, there, bad))
            | inl flows ↦
                let link = S.authorization_url p state_token (S.challenge verifier) in
                elim (Result-cases link) [
                  | inr (e, bad) ↦ absurd (ground (arith, named, there, flows, bad))
                  | inl ((to, pkce), linked) ↦
                      let same : p ≡ provider = ground (arith, named, there, flows, linked) in
                      let target : to ≡ url = ground (arith, named, there, flows, linked) in
                      (
                        named ∙ ap ok same,
                        ap S.get (sym same) ∙ there ∙ ap some flows,
                        pkce,
                        ap (λ q. S.authorization_url q state_token (S.challenge verifier))
                              (sym same)
                            ∙ linked
                            ∙ ap (λ u. ok (u, pkce)) target,
                        rw (← same) (ground (arith, named, there, flows, linked)),
                      )
                ]
          ]
        ]
      ]
