-- ===== src/Store/Sessions/Lifetime.antt =====
-- How long a session of src/store.rs can be consumed, and how often.
use evgl_api.Base.{
  ltb, ltb→lt, Bool-cases, if◌then◌else◌, ℕ, ◌*◌, ◌+◌, ◌≤◌, ◌<◌, Bool, false, String, Option, none,
  some, List, [], ◌∷◌, ◌≡◌, refl, arith, not, any, find, filter, str_eq_iff, inl, inr, Option-cases,
  sym, ap, ◌∙◌,
}
use evgl_api.Base.Tables.{find-none_of_any, any-false_mono}
use evgl_api.Rust.{ok, err}
use evgl_api.Domain.{Crates, ProviderKind}
use evgl_api.Error.{ApiError, unauthorized}
use evgl_api.Database.{OAuthSessionRow, Database, same_hash}
use evgl_api.Store.Sessions.{
  OAuthSession, create_oauth_session, consume_oauth_session, session_lifetime, is_live, session_of,
}

abbrev pub invalid_state : ApiError
invalid_state = unauthorized "OAuth state is invalid or expired"

find-live_consumed :
    (now now' : ℕ) (hash : String) (rows : List OAuthSessionRow)
    → now ≤ now'
    → find (is_live now' hash) (filter (λ row. not (is_live now hash row)) rows) ≡ none
find-live_consumed now now' hash [] h = refl
find-live_consumed now now' hash (row ∷ rows) h =
    ground (arith, find-live_consumed now now' hash rows h)

pub consume_missing :
    {Json : Type 0} (now : ℕ) (hash : String) (db : Database Json)
    → find (is_live now hash) db.oauth_sessions ≡ none
    → consume_oauth_session now hash db ≡ (err invalid_state, db)
unfolding consume_oauth_session
consume_missing now hash db h = rw h

pub consume_found :
    {Json : Type 0} (now : ℕ) (hash : String) (db : Database Json) {row : OAuthSessionRow}
    → find (is_live now hash) db.oauth_sessions ≡ some row
    → consume_oauth_session now hash db ≡ (
      ok (session_of row),
      record db { oauth_sessions = filter (λ row. not (is_live now hash row)) db.oauth_sessions },
    )
unfolding consume_oauth_session
consume_found now hash db h = rw h

-- An OAuth state is consumed at most once: after a call that returned its session, every call at the
-- same or a later time fails, and changes nothing.
pub consume_oauth_session_once :
    {Json : Type 0} (now now' : ℕ) (hash : String) (db db' : Database Json) (s : OAuthSession)
    → consume_oauth_session now hash db ≡ (ok s, db')
    → now ≤ now'
    → consume_oauth_session now' hash db' ≡ (err invalid_state, db')
consume_oauth_session_once now now' hash db db' s h le =
    elim (Option-cases (find (is_live now hash) db.oauth_sessions)) [
      | inl missing ↦ cc (consume_missing now hash db missing)
      | inr (row, found) ↦
          let e : db' ≡ record db {
            oauth_sessions = filter (λ row. not (is_live now hash row)) db.oauth_sessions;
          } =
            ap (λ r. r.1) (sym h ∙ consume_found now hash db found) in
          consume_missing now' hash db'
            (rw e (find-live_consumed now now' hash db.oauth_sessions le))
    ]

module _ (C : Crates) (now : ℕ) (hash : String) (user_id : ℕ) (provider : ProviderKind)
    (verifier : Option String) (uses_pkce : Bool) where
  abbrev created : OAuthSessionRow
  created = record {
    state_hash = hash;
    user_id = user_id;
    provider = C.as_str provider;
    pkce_verifier = verifier;
    uses_pkce = uses_pkce;
    expires_at = now + session_lifetime;
  }

  create_oauth_session-parts :
      (db db' : Database C.Json)
      → create_oauth_session C now hash user_id provider verifier uses_pkce db ≡ (ok tt, db')
      → (any (same_hash created) db.oauth_sessions ≡ false)
        × (db' ≡ record db { oauth_sessions = created ∷ db.oauth_sessions })
  unfolding create_oauth_session
  create_oauth_session-parts db db' h = (ground arith, ground arith)

  find-created_early :
      (now' : ℕ) (rows : List OAuthSessionRow)
      → now' < now + session_lifetime
      → find (is_live now' hash) (created ∷ rows) ≡ some created
  find-created_early now' rows early = ground (arith, str_eq_iff hash hash)

  find-created_late :
      (now' : ℕ) (rows : List OAuthSessionRow)
      → now + session_lifetime ≤ now'
      → any (same_hash created) rows ≡ false
      → find (is_live now' hash) (created ∷ rows) ≡ none
  find-created_late now' rows late fresh =
      let none_left = find-none_of_any (is_live now' hash) rows (
        any-false_mono (is_live now' hash) (same_hash created) rows
          (λ row live.
            ground (arith, str_eq_iff row.state_hash hash, str_eq_iff hash row.state_hash))
          fresh) in
      ground (arith)

-- A session that was created is returned to a call within ten minutes of its creation, 600 seconds of
-- a thousand million nanoseconds, with the user, the provider, the verifier and the flag that it was
-- created with, and to no later call, which fails.
pub create-consume :
    (C : Crates) (now : ℕ) (hash : String) (user_id : ℕ) (provider : ProviderKind)
    (verifier : Option String) (uses_pkce : Bool) (db db' : Database C.Json)
    → create_oauth_session C now hash user_id provider verifier uses_pkce db ≡ (ok tt, db')
    → (now' : ℕ)
    → (consume_oauth_session now' hash db').0 ≡ (
        if ltb now' (now + 600 * 1000000000)
        then ok (record {
          user_id = user_id;
          provider = C.as_str provider;
          pkce_verifier = verifier;
          uses_pkce = uses_pkce;
        })
        else err invalid_state)
create-consume C now hash user_id provider verifier uses_pkce db db' h now' =
    let (fresh, state) =
      create_oauth_session-parts C now hash user_id provider verifier uses_pkce db db' h in
    let row = created C now hash user_id provider verifier uses_pkce in
    elim (Bool-cases (ltb now' (now + session_lifetime))) [
      | inl early ↦ rw early (
          ap (λ r. r.0)
            (consume_found now' hash db' {row = row} (
              rw state (
                find-created_early C now hash user_id provider verifier uses_pkce now'
                  db.oauth_sessions (ltb→lt _ _ early)))))
      | inr late ↦ rw late (
          ap (λ r. r.0)
            (consume_missing now' hash db' (
              rw state (
                find-created_late C now hash user_id provider verifier uses_pkce now'
                  db.oauth_sessions (ground arith) fresh))))
    ]
