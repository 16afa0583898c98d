-- ===== src/Store/Sessions.antt =====
-- src/store.rs: the OAuth sessions. `now` is the database's clock at the statement.
pub mod Lifetime
pub mod Integrity
use evgl_api.Base.{
  ℕ, ◌+◌, ◌*◌, Bool, String, Option, ◌∷◌, not, ◌&&◌, ltb, str_eq, any, find, filter,
}
use evgl_api.Error.{unique_violation, unauthorized}
use evgl_api.Domain.{Crates, ProviderKind}
use evgl_api.Database.{
  OAuthSessionRow, Query, ◌>>=◌, ◌>>◌, gets, modify, refuse_if, found_or, pure, transaction,
  same_hash,
}

-- Ticks are nanoseconds: `interval '10 minutes'`.
abbrev pub session_lifetime : ℕ
session_lifetime = 600 * 1000000000

unfoldable pub create_oauth_session :
    (C : Crates) → ℕ → String → ℕ → ProviderKind → Option String → Bool → Query C.Json (Unit {0})
create_oauth_session C now state_hash user_id provider pkce_verifier uses_pkce = do
  let row : OAuthSessionRow = record {
    state_hash = state_hash;
    user_id = user_id;
    provider = C.as_str provider;
    pkce_verifier = pkce_verifier;
    uses_pkce = uses_pkce;
    expires_at = now + session_lifetime;
  }
  db ← gets (λ db. db)
  refuse_if (any (same_hash row) db.oauth_sessions) unique_violation
  modify (λ db. record db { oauth_sessions = row ∷ db.oauth_sessions })

-- `OAuthSession`, the columns that the DELETE returns
pub record OAuthSession : Type 0 where
  pub user_id : ℕ
  pub provider : String
  pub pkce_verifier : Option String
  pub uses_pkce : Bool

abbrev pub is_live : ℕ → String → OAuthSessionRow → Bool
is_live now state_hash row = str_eq row.state_hash state_hash && ltb now row.expires_at

abbrev pub session_of : OAuthSessionRow → OAuthSession
session_of row = record {
  user_id = row.user_id;
  provider = row.provider;
  pkce_verifier = row.pkce_verifier;
  uses_pkce = row.uses_pkce;
}

unfoldable pub consume_oauth_session : {Json : Type 0} → ℕ → String → Query Json OAuthSession
consume_oauth_session now state_hash = transaction do
  db ← gets (λ db. db)
  modify (λ db. record db {
    oauth_sessions = filter (λ row. not (is_live now state_hash row)) db.oauth_sessions;
  })
  row ←
      found_or (unauthorized "OAuth state is invalid or expired")
        (find (is_live now state_hash) db.oauth_sessions)
  pure (session_of row)
