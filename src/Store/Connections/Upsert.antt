-- ===== src/Store/Connections/Upsert.antt =====
-- `upsert_connection` of src/store.rs: one connection for each user, provider and account.
use evgl_api.Base.{
  ℕ, suc, Bool, true, String, Option, none, some, List, [], ◌∷◌, ◌≡◌, refl, arith, find, ap,
  update_where, length, str_eq_iff, Bool-cases, inl, inr,
}
use evgl_api.Base.Tables.{Distinct, any_of_find, find_passes}
use evgl_api.Rust.{ok}
use evgl_api.Domain.{Crates, ProviderKind}
use evgl_api.Database.{Database, ConnectionRow, same_connection, same_account, pure-injective}
use evgl_api.Database.Integrity.{IsConsistent}
use evgl_api.Store.Connections.{
  upsert_at, connection_row, upsert_connection, get_connection, is_users, refresh,
}

module _ {Json : Type 0} where
  same_account_refl : (c : ConnectionRow Json) → same_account c c ≡ true
  same_account_refl c =
      ground (arith, str_eq_iff c.provider c.provider, str_eq_iff c.account_key c.account_key)

  -- The row that is refreshed is the only one with its id.
  find-refreshed :
      (now : ℕ) (row old : ConnectionRow Json) (rows : List (ConnectionRow Json))
      → find (same_account row) rows ≡ some old
      → Distinct same_connection rows
      → find (is_users row.user_id old.id) (update_where (same_account row) (refresh now row) rows)
        ≡ some (refresh now row old)
  find-refreshed now row old [] found d = cc
  find-refreshed now row old (c ∷ rows) found d = elim (Bool-cases (same_account row c)) [
    | inl here ↦ ground arith
    | inr there ↦ ground (
      arith,
      find-refreshed now row old rows,
      any_of_find (same_account row) (same_connection c) rows {a = old},
    )
  ]

  find-account_refreshed :
      (now : ℕ) (row old : ConnectionRow Json) (rows : List (ConnectionRow Json))
      → find (same_account row) rows ≡ some old
      → find (same_account row) (update_where (same_account row) (refresh now row) rows)
        ≡ some (refresh now row old)
  find-account_refreshed now row old [] found = cc
  find-account_refreshed now row old (c ∷ rows) found =
      ground (arith, find-account_refreshed now row old rows)

  pub length-update :
      (p : ConnectionRow Json → Bool) (f : ConnectionRow Json → ConnectionRow Json)
      (rows : List (ConnectionRow Json))
      → length (update_where p f rows) ≡ length rows
  length-update p f [] = refl
  length-update p f (c ∷ rows) = ap suc (length-update p f rows)

  -- After an upsert the row that it returned is the user's only row for that account, and the one
  -- that its id finds.
  record Upserted (now : ℕ) (row c : ConnectionRow Json) (rows' : List (ConnectionRow Json))
      : Type 0 where
    account : find (same_account row) rows' ≡ some c
    by_id : find (is_users row.user_id c.id) rows' ≡ some c
    user : c.user_id ≡ row.user_id
    provider : c.provider ≡ row.provider
    account_key : c.account_key ≡ row.account_key
    display_name : c.display_name ≡ row.display_name
    metadata : c.metadata ≡ row.metadata
    token_envelope : c.token_envelope ≡ row.token_envelope
    updated_at : c.updated_at ≡ now

  upsert_new-parts :
      (now : ℕ) (row : ConnectionRow Json) (db : Database Json) (c : ConnectionRow Json)
      (db' : Database Json)
      → upsert_at none now row db ≡ (ok c, db')
      → (c ≡ row) × (db' ≡ record db { provider_connections = row ∷ db.provider_connections })
  unfolding upsert_at
  upsert_new-parts now row db c db' h = (ground arith, ground arith)

  inserted-Upserted :
      (now : ℕ) (row : ConnectionRow Json) (rows : List (ConnectionRow Json))
      → row.updated_at ≡ now
      → Upserted now row row (row ∷ rows)
  inserted-Upserted now row rows at = record {
    account = rw (same_account_refl row);
    by_id = ground arith;
    user = refl;
    provider = refl;
    account_key = refl;
    display_name = refl;
    metadata = refl;
    token_envelope = refl;
    updated_at = at;
  }

  refreshed-Upserted :
      (now : ℕ) (row old : ConnectionRow Json) (rows : List (ConnectionRow Json))
      → find (same_account row) rows ≡ some old
      → Distinct same_connection rows
      → Upserted now row
          (refresh now row old)
          (update_where (same_account row) (refresh now row) rows)
  refreshed-Upserted now row old rows found d =
      let same = find_passes (same_account row) rows found in
      record {
        account = find-account_refreshed now row old rows found;
        by_id = find-refreshed now row old rows found d;
        user = ground arith;
        provider = ground (arith, str_eq_iff row.provider old.provider);
        account_key = ground (arith, str_eq_iff row.account_key old.account_key);
        display_name = refl;
        metadata = refl;
        token_envelope = refl;
        updated_at = refl;
      }

  upsert_at-Upserted :
      (o : Option (ConnectionRow Json)) (now : ℕ) (row : ConnectionRow Json) (db : Database Json)
      (c : ConnectionRow Json) (db' : Database Json)
      → row.updated_at ≡ now
      → find (same_account row) db.provider_connections ≡ o
      → Distinct same_connection db.provider_connections
      → upsert_at o now row db ≡ (ok c, db')
      → Upserted now row c db'.provider_connections
  unfolding upsert_at
  upsert_at-Upserted none now row db c db' at new d h =
      let (same, state) = upsert_new-parts now row db c db' h in
      rw (same, state) (inserted-Upserted now row db.provider_connections at)
  upsert_at-Upserted (some old) now row db c db' at found d h =
      let (same, state) = pure-injective h in
      rw (← same, ← state) (refreshed-Upserted now row old db.provider_connections found d)

  length-upsert_some :
      (old : ConnectionRow Json) (now : ℕ) (row : ConnectionRow Json) (db : Database Json)
      → length (upsert_at (some old) now row db).1.provider_connections
        ≡ length db.provider_connections
  unfolding upsert_at
  length-upsert_some old now row db =
      length-update (same_account row) (refresh now row) db.provider_connections

-- A connection that was upserted is found by its owner and id, with what was stored.
pub upsert-get_connection :
    (C : Crates) (now id user_id : ℕ) (provider : ProviderKind) (account_key display_name : String)
    (metadata : C.Json) (token_envelope : String) (db : Database C.Json) (c : ConnectionRow C.Json)
    (db' : Database C.Json)
    → IsConsistent db
    → upsert_connection C now id user_id provider account_key display_name metadata token_envelope
        db
      ≡ (ok c, db')
    → (get_connection user_id c.id db' ≡ (ok c, db'))
      × (c.user_id ≡ user_id)
      × (c.provider ≡ C.as_str provider)
      × (c.account_key ≡ account_key)
      × (c.display_name ≡ display_name)
      × (c.metadata ≡ metadata)
      × (c.token_envelope ≡ token_envelope)
      × (c.updated_at ≡ now)
unfolding upsert_connection get_connection
upsert-get_connection C now id user_id provider account_key display_name metadata token_envelope db
      c db' v h =
    let u = upsert_at-Upserted _ now _ db c db' refl refl v.connections h in
    (
      rw (u.by_id),
      u.user,
      u.provider,
      u.account_key,
      u.display_name,
      u.metadata,
      u.token_envelope,
      u.updated_at,
    )

-- A second upsert of the same account, with whatever fresh id, display name, metadata and tokens,
-- changes that connection in place: it keeps its id and its creation time, and adds no row.
pub upsert_again :
    (C : Crates) (now id user_id : ℕ) (provider : ProviderKind) (account_key display_name : String)
    (metadata : C.Json) (token_envelope : String) (db : Database C.Json) (c : ConnectionRow C.Json)
    (db' : Database C.Json)
    → IsConsistent db
    → upsert_connection C now id user_id provider account_key display_name metadata token_envelope
        db
      ≡ (ok c, db')
    → (now' id' : ℕ) (display_name' : String) (metadata' : C.Json) (token_envelope' : String)
    → let (r, db'') =
        upsert_connection C now' id' user_id provider account_key display_name' metadata'
          token_envelope' db' in
      (r
        ≡ ok (record c {
          display_name = display_name';
          metadata = metadata';
          token_envelope = token_envelope';
          updated_at = now';
        }))
      × (length db''.provider_connections ≡ length db'.provider_connections)
unfolding upsert_connection
upsert_again C now id user_id provider account_key display_name metadata token_envelope db c db' v h
      now' id' display_name' metadata' token_envelope' =
    let u = upsert_at-Upserted _ now _ db c db' refl refl v.connections h in
    rw (u.account) (
      refl,
      length-upsert_some c now'
          (connection_row C now' id' user_id provider account_key display_name' metadata'
            token_envelope')
          db',
    )
