-- ===== src/Store/Connections.antt =====
-- src/store.rs: the provider connections.
pub mod Integrity
pub mod Upsert
pub mod Ownership
use evgl_api.Base.{
  ℕ, Bool, String, Option, none, some, List, [], ◌∷◌, not, ◌&&◌, ◌==◌, str_eq, any, find, filter,
  sort_by, update_where, if◌then◌else◌,
}
use evgl_api.Rust.{format}
use evgl_api.Error.{unique_violation, foreign_key_violation, not_found}
use evgl_api.Domain.{Crates, ProviderKind}
use evgl_api.Database.{
  ConnectionRow, Query, ◌>>=◌, ◌>>◌, gets, modify, refuse_if, found_or, pure, raise,
  same_connection, same_account,
}

-- `ConnectionRow::aad`
pub aad : (C : Crates) → ConnectionRow C.Json → String
aad C row = format (C.show_uuid row.user_id ∷ ":" ∷ row.provider ∷ ":" ∷ row.account_key ∷ [])

-- The row after `DO UPDATE SET`.
abbrev pub refresh :
    {Json : Type 0} → ℕ → ConnectionRow Json → ConnectionRow Json → ConnectionRow Json
refresh now excluded row = record row {
  display_name = excluded.display_name;
  metadata = excluded.metadata;
  token_envelope = excluded.token_envelope;
  updated_at = now;
}

-- The two ways of ON CONFLICT (user_id, provider, account_key) DO UPDATE .. RETURNING *, by the row
-- that is in conflict.
unfoldable pub upsert_at :
    {Json : Type 0}
    → Option (ConnectionRow Json)
    → ℕ
    → ConnectionRow Json
    → Query Json (ConnectionRow Json)
upsert_at none now row = do
  db ← gets (λ db. db)
  refuse_if (any (same_connection row) db.provider_connections) unique_violation
  modify (λ db. record db { provider_connections = row ∷ db.provider_connections })
  pure row
upsert_at (some old) now row = do
  modify (λ db. record db {
    provider_connections =
        update_where (same_account row) (refresh now row) db.provider_connections;
  })
  pure (refresh now row old)

unfoldable pub upsert_row :
    {Json : Type 0} → ℕ → ConnectionRow Json → Query Json (ConnectionRow Json)
unfolding upsert_at
upsert_row now row db = upsert_at (find (same_account row) db.provider_connections) now row db

module _ (C : Crates) (now id user_id : ℕ) (provider : ProviderKind)
    (account_key display_name : String) (metadata : C.Json) (token_envelope : String) where
  -- The row that is inserted; `id` is the value of `Uuid::new_v4()`.
  abbrev pub connection_row : ConnectionRow C.Json
  connection_row = record {
    id = id;
    user_id = user_id;
    provider = C.as_str provider;
    account_key = account_key;
    display_name = display_name;
    metadata = metadata;
    token_envelope = token_envelope;
    created_at = now;
    updated_at = now;
  }

  unfoldable pub upsert_connection : Query C.Json (ConnectionRow C.Json)
  unfolding upsert_row
  upsert_connection = upsert_row now connection_row

-- ORDER BY provider, display_name
abbrev pub listed_before : (C : Crates) → ConnectionRow C.Json → ConnectionRow C.Json → Bool
listed_before C a b =
    if str_eq a.provider b.provider
    then C.collates_le a.display_name b.display_name
    else C.collates_le a.provider b.provider

unfoldable pub list_connections : (C : Crates) → ℕ → Query C.Json (List (ConnectionRow C.Json))
list_connections C user_id =
    gets
      (λ db. sort_by (listed_before C) (filter (λ c. c.user_id == user_id) db.provider_connections))

module _ {Json : Type 0} where
  -- WHERE id = $1 AND user_id = $2
  abbrev pub is_users : ℕ → ℕ → ConnectionRow Json → Bool
  is_users user_id id c = c.id == id && c.user_id == user_id

  unfoldable pub get_connection : ℕ → ℕ → Query Json (ConnectionRow Json)
  get_connection user_id id = do
    row ← gets (λ db. find (is_users user_id id) db.provider_connections)
    found_or (not_found "connection not found") row

  -- The targets' foreign key is ON DELETE RESTRICT.
  unfoldable pub delete_connection : ℕ → ℕ → Query Json (Unit {0})
  delete_connection user_id id = do
    db ← gets (λ db. db)
    let hit = any (is_users user_id id) db.provider_connections
    refuse_if (hit && any (λ t. t.connection_id == id) db.cross_post_targets) foreign_key_violation
    modify (λ db. record db {
      provider_connections = filter (λ c. not (is_users user_id id c)) db.provider_connections;
    })
    if hit then pure tt else raise (not_found "connection not found")
