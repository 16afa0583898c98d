-- ===== src/Store/Connections/Integrity.antt =====
-- The connection functions of src/store.rs keep the database consistent.
use evgl_api.Base.{
  ℕ, true, false, String, Option, none, some, List, ◌∷◌, ◌≡◌, refl, arith, not, any, filter,
  Bool-cases, inl, inr, find, ◌∙◌, ◌==◌, update_where, All, [],
}
use evgl_api.Base.Tables.{
  Distinct, Distinct-filter, Distinct-update, All-mono, any-update, any_mono, find-none,
  any-filter_keep, filter-not_none,
}
use evgl_api.Domain.{Crates, ProviderKind}
use evgl_api.Database.{Database, ConnectionRow, TargetRow, JobRow, same_connection, same_account}
use evgl_api.Database.Integrity.{IsConsistent, IsOwned, job_owns, owned_by}
use evgl_api.Store.Connections.{upsert_at, upsert_connection, delete_connection, is_users, refresh}

module _ {Json : Type 0} where
  -- A change of the connections that keeps their keys, and every connection that a target uses.
  connections-IsConsistent :
      (rows : List (ConnectionRow Json)) (db : Database Json)
      → Distinct same_connection rows
      → Distinct same_account rows
      → All (IsOwned rows db.cross_post_jobs) db.cross_post_targets
      → IsConsistent db
      → IsConsistent (record db { provider_connections = rows })
  connections-IsConsistent rows db d a o h = record {
    sessions = h.sessions;
    connections = d;
    accounts = a;
    events = h.events;
    jobs = h.jobs;
    keys = h.keys;
    jobs_event = h.jobs_event;
    targets = h.targets;
    targets_owned = o;
  }

  -- If each test on a connection that a target makes is still met, the target is still owned.
  IsOwned-mono :
      (rows rows' : List (ConnectionRow Json)) (jobs : List JobRow) (t : TargetRow Json)
      → ((user : ℕ) → any (owned_by user t) rows ≡ true → any (owned_by user t) rows' ≡ true)
      → IsOwned rows jobs t
      → IsOwned rows' jobs t
  IsOwned-mono rows rows' jobs t keep o =
      any_mono (job_owns rows t) (job_owns rows' t) jobs (λ j h. ground (arith, keep j.user_id)) o

  upsert_at-IsConsistent :
      (o : Option (ConnectionRow Json)) (now : ℕ) (row : ConnectionRow Json) (db : Database Json)
      → find (same_account row) db.provider_connections ≡ o
      → IsConsistent db
      → IsConsistent (upsert_at o now row db).1
  unfolding upsert_at
  upsert_at-IsConsistent none now row db new h =
      let rows = db.provider_connections in
      elim (Bool-cases (any (same_connection row) rows)) [
        | inl taken ↦ rw taken h
        | inr fresh ↦ rw fresh (
            connections-IsConsistent (row ∷ rows) db (fresh, h.connections)
              (find-none (same_account row) rows new, h.accounts)
              (All-mono (IsOwned rows db.cross_post_jobs) _ db.cross_post_targets
                (λ t. IsOwned-mono rows (row ∷ rows) db.cross_post_jobs t (λ user o. ground arith))
                h.targets_owned)
              h)
      ]
  upsert_at-IsConsistent (some old) now row db found h =
      let rows = db.provider_connections in
      let same = same_account row in
      let f = refresh now row in
      connections-IsConsistent (update_where same f rows) db
        (Distinct-update same_connection same f rows (λ x y. refl) (λ x y. refl) h.connections)
        (Distinct-update same_account same f rows (λ x y. refl) (λ x y. refl) h.accounts)
        (All-mono (IsOwned rows db.cross_post_jobs) _ db.cross_post_targets
          (λ t.
            IsOwned-mono rows (update_where same f rows) db.cross_post_jobs t
              (λ user o. any-update (owned_by user t) same f rows (λ c. refl) ∙ o))
          h.targets_owned)
        h

  -- A target that does not use the connection `id` keeps its own.
  kept-IsOwned :
      (user id : ℕ) (rows : List (ConnectionRow Json)) (jobs : List JobRow)
      (targets : List (TargetRow Json))
      → any (λ (t : TargetRow Json). t.connection_id == id) targets ≡ false
      → All (IsOwned rows jobs) targets
      → All (IsOwned (filter (λ c. not (is_users user id c)) rows) jobs) targets
  kept-IsOwned user id rows jobs [] none_uses o = tt
  kept-IsOwned user id rows jobs (t ∷ ts) none_uses o = (
    IsOwned-mono rows _ jobs t
        (λ u a.
          any-filter_keep (owned_by u t) (λ c. not (is_users user id c)) rows (λ c k. ground arith)
          ∙ a)
        o.0,
    kept-IsOwned user id rows jobs ts (ground arith) o.1,
  )

  -- Deleting a connection never strands a target: the database stays consistent.
  pub delete_connection-IsConsistent :
      (user id : ℕ) (db : Database Json)
      → IsConsistent db
      → IsConsistent (delete_connection user id db).1
  unfolding delete_connection
  delete_connection-IsConsistent user id db h =
      let rows = db.provider_connections in
      let keep = λ (c : ConnectionRow Json). not (is_users user id c) in
      let used = λ (t : TargetRow Json). t.connection_id == id in
      elim (Bool-cases (any (is_users user id) rows)) [
        | inl hit ↦ elim (Bool-cases (any used db.cross_post_targets)) [
          | inl refs ↦ rw (hit, refs) h
          | inr free ↦
              rw (hit, free)
                (connections-IsConsistent (filter keep rows) db
                  (Distinct-filter same_connection keep rows h.connections)
                  (Distinct-filter same_account keep rows h.accounts)
                  (kept-IsOwned user id rows db.cross_post_jobs db.cross_post_targets free
                    h.targets_owned)
                  h)
        ]
        | inr miss ↦ rw (miss, filter-not_none (is_users user id) rows miss) h
      ]

pub upsert_connection-IsConsistent :
    (C : Crates) (now id user_id : ℕ) (provider : ProviderKind) (account_key display_name : String)
    (metadata : C.Json) (token_envelope : String) (db : Database C.Json)
    → IsConsistent db
    → IsConsistent
        (upsert_connection C now id user_id provider account_key display_name metadata
          token_envelope db).1
unfolding upsert_connection
upsert_connection-IsConsistent C now id user_id provider account_key display_name metadata
      token_envelope db h =
    upsert_at-IsConsistent _ now _ db refl h
