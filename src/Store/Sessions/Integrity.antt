-- ===== src/Store/Sessions/Integrity.antt =====
-- The session functions of src/store.rs keep the database consistent.
use evgl_api.Base.{
  ℕ, Bool, String, Option, List, not, any, Bool-cases, inl, inr, find, Option-cases, str_eq,
}
use evgl_api.Base.Tables.{Distinct, Distinct-filter}
use evgl_api.Domain.{Crates, ProviderKind}
use evgl_api.Database.{Database, OAuthSessionRow, same_hash}
use evgl_api.Database.Integrity.{IsConsistent}
use evgl_api.Store.Sessions.{create_oauth_session, consume_oauth_session, is_live}

-- Only the sessions matter to the sessions' constraint.
sessions-IsConsistent :
    {Json : Type 0} (rows : List OAuthSessionRow) (db : Database Json)
    → Distinct same_hash rows
    → IsConsistent db
    → IsConsistent (record db { oauth_sessions = rows })
sessions-IsConsistent rows db d h = record {
  sessions = d;
  connections = h.connections;
  accounts = h.accounts;
  events = h.events;
  jobs = h.jobs;
  keys = h.keys;
  jobs_event = h.jobs_event;
  targets = h.targets;
  targets_owned = h.targets_owned;
}

pub create_oauth_session-IsConsistent :
    (C : Crates) (now : ℕ) (hash : String) (user_id : ℕ) (provider : ProviderKind)
    (verifier : Option String) (uses_pkce : Bool) (db : Database C.Json)
    → IsConsistent db
    → IsConsistent (create_oauth_session C now hash user_id provider verifier uses_pkce db).1
unfolding create_oauth_session
create_oauth_session-IsConsistent C now hash user_id provider verifier uses_pkce db h =
    elim (Bool-cases (any (λ row. str_eq hash row.state_hash) db.oauth_sessions)) [
      | inl taken ↦ rw taken h
      | inr fresh ↦ rw fresh (sessions-IsConsistent _ db (fresh, h.sessions) h)
    ]

pub consume_oauth_session-IsConsistent :
    {Json : Type 0} (now : ℕ) (hash : String) (db : Database Json)
    → IsConsistent db
    → IsConsistent (consume_oauth_session now hash db).1
unfolding consume_oauth_session
consume_oauth_session-IsConsistent now hash db h =
    elim (Option-cases (find (is_live now hash) db.oauth_sessions)) [
      | inl missing ↦ rw missing h
      | inr (row, found) ↦ rw found (
          sessions-IsConsistent _ db
            (Distinct-filter same_hash (λ row. not (is_live now hash row)) db.oauth_sessions
              h.sessions)
            h)
    ]
