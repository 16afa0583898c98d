-- ===== src/Store/Connections/Ownership.antt =====
-- The connection functions of src/store.rs serve a user only the user's own connections.
use evgl_api.Base.{
  if◌then◌else◌, ℕ, Bool, ◌≡◌, ◌≢◌, arith, any, find, filter, ◌==◌, ◌⊎◌, not, ◌&&◌, Bool-cases, inl,
  inr, Option-cases,
}
use evgl_api.Base.Tables.{find_passes, find-filter-not, find-filter_keep, filter-not_none}
use evgl_api.Rust.{ok, err, ok_or}
use evgl_api.Error.{not_found, internal, foreign_key_violation}
use evgl_api.Database.{Database, ConnectionRow}
use evgl_api.Store.Connections.{get_connection, delete_connection, is_users}

module _ {Json : Type 0} where
  -- What `get_connection` returns is the connection asked for, and one of the user's; reading
  -- changes nothing.
  pub get_connection_owner :
      (user id : ℕ) (db db' : Database Json) (c : ConnectionRow Json)
      → get_connection user id db ≡ (ok c, db')
      → (c.id ≡ id) × (c.user_id ≡ user) × (db' ≡ db)
  unfolding get_connection
  get_connection_owner user id db db' c h =
      elim (Option-cases (find (is_users user id) db.provider_connections)) [
        | inl missing ↦ ground arith
        | inr (row, found) ↦
            ground (arith, find_passes (is_users user id) db.provider_connections found)
      ]

  pub get_connection-state : (user id : ℕ) (db : Database Json) → (get_connection user id db).1 ≡ db
  unfolding get_connection
  get_connection-state user id db =
      elim (Option-cases (find (is_users user id) db.provider_connections)) [
        | inl missing ↦ rw missing
        | inr (row, found) ↦ rw found
      ]

  -- Whether a target of any job names the connection.
  abbrev pub is_referenced : ℕ → Database Json → Bool
  is_referenced id db = any (λ t. t.connection_id == id) db.cross_post_targets

  abbrev pub without_connection : ℕ → ℕ → Database Json → Database Json
  without_connection user id db = record db {
    provider_connections = filter (λ c. not (is_users user id c)) db.provider_connections;
  }

  -- Deleting, on every branch. One that is not the user's, or does not exist: not found. One that a
  -- target names: the foreign key refuses, and the response is an internal error. Either way nothing
  -- changes. Any other is removed, and is not found afterwards.
  pub delete_connection_lem :
      (user id : ℕ) (db : Database Json)
      → (delete_connection user id db ≡ (
          if any (is_users user id) db.provider_connections
          then (if is_referenced id db
              then (err (internal foreign_key_violation), db)
              else (ok tt, without_connection user id db))
          else (err (not_found "connection not found"), db)))
        × (get_connection user id (without_connection user id db)
            ≡ (err (not_found "connection not found"), without_connection user id db))
  unfolding delete_connection get_connection
  delete_connection_lem user id db = (
    elim (Bool-cases (any (is_users user id) db.provider_connections)) [
      | inr miss ↦ rw (miss, filter-not_none (is_users user id) db.provider_connections miss)
      | inl hit ↦ elim (Bool-cases (is_referenced id db)) [
        | inl used ↦ rw (hit, used)
        | inr free ↦ rw (hit, free)
      ]
    ],
    rw (find-filter-not (is_users user id) db.provider_connections),
  )

  get_connection-find :
      (user id : ℕ) (db : Database Json)
      → (get_connection user id db).0
        ≡ ok_or (find (is_users user id) db.provider_connections) (not_found "connection not found")
  unfolding get_connection
  get_connection-find user id db =
      elim (Option-cases (find (is_users user id) db.provider_connections)) [
        | inl missing ↦ rw missing
        | inr (c, found) ↦ rw found
      ]

  delete_connection-rows :
      (user id : ℕ) (db : Database Json)
      → ((delete_connection user id db).1.provider_connections ≡ db.provider_connections)
        ⊎ ((delete_connection user id db).1.provider_connections
            ≡ filter (λ c. not (is_users user id c)) db.provider_connections)
  unfolding delete_connection
  delete_connection-rows user id db =
      elim (Bool-cases (any (is_users user id) db.provider_connections && is_referenced id db)) [
        | inl refused ↦ inl (rw refused)
        | inr free ↦ elim (Bool-cases (any (is_users user id) db.provider_connections)) [
          | inl hit ↦ inr (rw (free, hit))
          | inr miss ↦ inr (rw (free, miss))
        ]
      ]

  -- Deleting a connection of one user changes no lookup of another user, nor of another connection.
  pub delete_connection_others :
      (user id other id' : ℕ) (db : Database Json)
      → (other ≢ user) ⊎ (id' ≢ id)
      → (get_connection other id' (delete_connection user id db).1).0
        ≡ (get_connection other id' db).0
  delete_connection_others user id other id' db ne =
      rw
        (
          get_connection-find other id' (delete_connection user id db).1,
          get_connection-find other id' db,
        )
        (elim (delete_connection-rows user id db) [
          | inl same ↦ rw same
          | inr kept ↦ rw (
            kept,
            find-filter_keep (is_users other id') (λ c. not (is_users user id c))
                db.provider_connections (λ c h. ground arith),
          )
        ])
