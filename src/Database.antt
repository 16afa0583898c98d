-- ===== src/Database.antt =====
-- The tables of migrations/0001_initial.sql, the row types of src/store.rs, and a query's result. A
-- table is the list of its rows, the latest insertion first. A statement either takes effect or
-- fails and changes nothing; `transaction` gives a block of statements the same.
pub mod Integrity
pub mod Keep
use evgl_api.Base.{
  ℕ, Bool, String, Option, none, some, List, ◌&&◌, ◌==◌, ◌≡◌, refl, arith, str_eq, if◌then◌else◌,
}
use evgl_api.Rust.{Result, ok, err}
use evgl_api.Error.{ApiError, Cause, internal}

pub record OAuthSessionRow : Type 0 where
  pub state_hash : String
  pub user_id : ℕ
  pub provider : String
  pub pkce_verifier : Option String
  pub uses_pkce : Bool
  pub expires_at : ℕ

module _ (Json : Type 0) where
  pub record ConnectionRow : Type 0 where
    pub id : ℕ
    pub user_id : ℕ
    pub provider : String
    pub account_key : String
    pub display_name : String
    pub metadata : Json
    pub token_envelope : String
    pub created_at : ℕ
    pub updated_at : ℕ

  pub record EventRow : Type 0 where
    pub id : ℕ
    pub owner_id : ℕ
    pub document : Json
    pub created_at : ℕ
    pub updated_at : ℕ

pub record JobRow : Type 0 where
  pub id : ℕ
  pub user_id : ℕ
  pub event_id : ℕ
  pub idempotency_key : String
  pub status : String
  pub created_at : ℕ
  pub updated_at : ℕ

module _ (Json : Type 0) where
  pub record TargetRow : Type 0 where
    pub id : ℕ
    pub job_id : ℕ
    pub connection_id : ℕ
    pub provider : String
    pub options : Json
    pub status : String
    pub attempt : ℕ
    pub result : Option Json
    pub error : Option String

  pub record Database : Type 0 where
    pub oauth_sessions : List OAuthSessionRow
    pub provider_connections : List (ConnectionRow Json)
    pub events : List (EventRow Json)
    pub cross_post_jobs : List JobRow
    pub cross_post_targets : List TargetRow

-- A query gives its result, or an error, and the database after it.
abbrev pub Query : Type 0 → Type 0 → Type 0
Query Json A = Database Json → Result A ApiError × Database Json

module _ {Json A : Type 0} where
  abbrev pub pure : A → Query Json A
  pure a db = (ok a, db)

  abbrev pub raise : ApiError → Query Json A
  raise e db = (err e, db)

  abbrev pub lift : Result A ApiError → Query Json A
  lift r db = (r, db)

  abbrev pub gets : (Database Json → A) → Query Json A
  gets f db = (ok (f db), db)

  -- `fetch_optional(..).await?.ok_or_else(..)`
  abbrev pub found_or : ApiError → Option A → Query Json A
  found_or e none = raise e
  found_or e (some a) = pure a

  -- `db.begin()` to `tx.commit()`: an early return drops the transaction, which rolls it back.
  abbrev pub settle : Result A ApiError × Database Json → Query Json A
  settle (ok a, db') db = (ok a, db')
  settle (err e, db') db = (err e, db)

  abbrev pub transaction : Query Json A → Query Json A
  transaction m db = settle (m db) db

abbrev pub modify : {Json : Type 0} → (Database Json → Database Json) → Query Json (Unit {0})
modify f db = (ok tt, f db)

abbrev pub continue : {Json A B : Type 0} → Result A ApiError → (A → Query Json B) → Query Json B
continue (ok a) f db = f a db
continue (err e) f db = (err e, db)

infixl 5 ◌>>=◌ ◌>>◌
abbrev pub ◌>>=◌ : {Json A B : Type 0} → Query Json A → (A → Query Json B) → Query Json B
◌>>=◌ m f db = let (r, db') = m db in continue r f db'

abbrev pub ◌>>◌ : {Json A B : Type 0} → Query Json A → Query Json B → Query Json B
m >> k = m >>= λ _. k

-- A failing constraint aborts the statement.
abbrev pub refuse_if : {Json : Type 0} → Bool → Cause → Query Json (Unit {0})
refuse_if c e db = (if c then err (internal e) else ok tt, db)

-- The statements of a worker's run, by what is bound to them; `Refusals` says which of them the
-- database refuses, and why: it may be gone, or not take a value, such as a text with a NUL character.
module _ (Json : Type 0) where
  pub data RunStatement : Type 0 where
    claims_job lists_targets : ℕ → RunStatement
    runs_row : ℕ → ℕ → RunStatement
    completes_row : ℕ → String → Json → RunStatement
    fails_row : ℕ → ℕ → String → RunStatement
    counts_rows ends_job : ℕ → String → RunStatement
    reads_event reads_connection reads_job : ℕ → ℕ → RunStatement

  abbrev pub Refusals : Type 0
  Refusals = RunStatement → Option Cause

module _ {Json : Type 0} where
  -- `execute(db).await?`
  abbrev pub execute : Option Cause → (Database Json → Database Json) → Query Json (Unit {0})
  execute none f db = (ok tt, f db)
  execute (some c) f db = (err (internal c), db)

  -- `fetch_one(db).await?` and `fetch_all(db).await?`
  abbrev pub fetch : {A : Type 0} → Option Cause → (Database Json → A) → Query Json A
  fetch none f db = (ok (f db), db)
  fetch (some c) f db = (err (internal c), db)

  -- A function of the store that only reads, where the database may refuse to answer it.
  abbrev pub unless_refused : {A : Type 0} → Option Cause → Query Json A → Query Json A
  unless_refused none q db = q db
  unless_refused (some c) q db = (err (internal c), db)

  pub unless_refused-state :
      {A : Type 0} (r : Option Cause) (q : Query Json A) (db : Database Json)
      → (q db).1 ≡ db
      → (unless_refused r q db).1 ≡ db
  unless_refused-state none q db h = h
  unless_refused-state (some c) q db h = refl

  pub unless_refused-eq :
      {A : Type 0} (r : Option Cause) (q : Query Json A) (db db' : Database Json) (a : A)
      → unless_refused r q db ≡ (ok a, db')
      → q db ≡ (ok a, db')
  unless_refused-eq none q db db' a h = h
  unless_refused-eq (some c) q db db' a h = cc

  pub execute_keeps :
      (P : Database Json → Type 0) (r : Option Cause) (f : Database Json → Database Json)
      (db : Database Json)
      → P db
      → P (f db)
      → P (execute r f db).1
  execute_keeps P none f db h k = k
  execute_keeps P (some c) f db h k = h

-- The columns of each PRIMARY KEY and UNIQUE constraint, as a test on two rows.
abbrev pub same_hash : OAuthSessionRow → OAuthSessionRow → Bool
same_hash a b = str_eq a.state_hash b.state_hash

abbrev pub same_job : JobRow → JobRow → Bool
same_job a b = a.id == b.id

abbrev pub same_key : JobRow → JobRow → Bool
same_key a b = a.user_id == b.user_id && str_eq a.idempotency_key b.idempotency_key

module _ {Json : Type 0} where
  abbrev pub same_connection : ConnectionRow Json → ConnectionRow Json → Bool
  same_connection a b = a.id == b.id

  abbrev pub same_account : ConnectionRow Json → ConnectionRow Json → Bool
  same_account a b =
      a.user_id == b.user_id && str_eq a.provider b.provider && str_eq a.account_key b.account_key

  abbrev pub same_event : EventRow Json → EventRow Json → Bool
  same_event a b = a.id == b.id

  abbrev pub same_target : TargetRow Json → TargetRow Json → Bool
  same_target a b = a.id == b.id

-- Inversion of a query that returns.
continue-eq-ok :
    {Json A B : Type 0} (r : Result A ApiError) (f : A → Query Json B) (db : Database Json) {b : B}
    {db' : Database Json}
    → continue r f db ≡ (ok b, db')
    → (a : A) × (r ≡ ok a) × (f a db ≡ (ok b, db'))
continue-eq-ok (ok a) f db h = (a, refl, h)
continue-eq-ok (err e) f db h = cc

pub >>=-eq-ok :
    {Json A B : Type 0} (m : Query Json A) (f : A → Query Json B) (db : Database Json) {b : B}
    {db' : Database Json}
    → (m >>= f) db ≡ (ok b, db')
    → (a : A) × (m db ≡ (ok a, (m db).1)) × (f a (m db).1 ≡ (ok b, db'))
>>=-eq-ok m f db h =
    let (a, e, k) = continue-eq-ok (m db).0 f (m db).1 h in (a, (λ i. (e i, (m db).1)), k)

-- A transaction that returns has committed; one that fails has changed nothing.
pub settle-eq-ok :
    {Json A : Type 0} (r : Result A ApiError × Database Json) (db : Database Json) {a : A}
    {db' : Database Json}
    → settle r db ≡ (ok a, db')
    → r ≡ (ok a, db')
settle-eq-ok (ok a, db₁) db h = h
settle-eq-ok (err e, db₁) db h = cc

pub settle-eq-err :
    {Json A : Type 0} (r : Result A ApiError × Database Json) (db : Database Json) {e : ApiError}
    {db' : Database Json}
    → settle r db ≡ (err e, db')
    → db' ≡ db
settle-eq-err (ok a, db₁) db h = cc
settle-eq-err (err e, db₁) db h = ground arith

pub pure-injective :
    {Json A : Type 0} {a b : A} {db db' : Database Json}
    → pure a db ≡ (ok b, db')
    → (a ≡ b) × (db ≡ db')
pure-injective h = (ground arith, ground arith)

-- A transaction keeps what its successful runs keep.
pub settle-keep :
    {Json A : Type 0} (P : Database Json → Type 0) (r : Result A ApiError × Database Json)
    (db : Database Json)
    → ((a : A) (db' : Database Json) → r ≡ (ok a, db') → P db')
    → P db
    → P (settle r db).1
settle-keep P (ok a, db') db keep h = keep a db' refl
settle-keep P (err e, db') db keep h = h
