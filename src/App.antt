-- ===== src/App.antt =====
-- src/state.rs: the state that the handlers share, and the map of the jobs' channels. The secret,
-- the vault, the registry and the URL, which never change, are parameters where they are used.
pub mod Channels
use evgl_api.Base.{
  ℕ, suc, ◌==◌, ◌≡◌, refl, ap, sym, ◌⊎◌, inl, inr, Option, none, some, List, [], ◌∷◌, find, Bool,
}
use evgl_api.Rust.{Result, ok, err}
use evgl_api.Error.{ApiError}
use evgl_api.Domain.{Crates, EventDraft}
use evgl_api.Database.{Database, JobRow, Query}

-- A broadcast channel: which one it is, and how many values it keeps for a slow receiver.
pub record Channel : Type 0 where
  pub id : ℕ
  pub capacity : ℕ

-- `event_channel` holds the values sent on it and `spawned` the jobs whose worker was started, both
-- the latest first; `opened` counts the channels that were created for jobs.
pub record AppState (C : Crates) : Type 0 where
  pub db : Database C.Json
  pub job_channels : List (ℕ × Channel)
  pub opened : ℕ
  pub event_channel : List (EventDraft C.types)
  pub spawned : List JobRow

abbrev pub is_entry : ℕ → ℕ × Channel → Bool
is_entry job_id e = e.0 == job_id

-- `broadcast::channel(128)`
abbrev pub job_channel : ℕ → Channel
job_channel n = record { id = n; capacity = 128 }

module _ {C : Crates} where
  -- `entry(job_id).or_insert_with(..)`
  abbrev or_insert : ℕ → Option (ℕ × Channel) → AppState C → Channel × AppState C
  or_insert job_id (some e) s = (e.1, s)
  or_insert job_id none s = (
    job_channel s.opened,
    record s {
      job_channels = (job_id, job_channel s.opened) ∷ s.job_channels;
      opened = suc s.opened;
    },
  )

  unfoldable pub channel : ℕ → AppState C → Channel × AppState C
  channel job_id s = or_insert job_id (find (is_entry job_id) s.job_channels) s

-- The state that `main` starts with.
abbrev pub new_state : {C : Crates} → Database C.Json → AppState C
new_state db = record { db = db; job_channels = []; opened = 0; event_channel = []; spawned = [] }

-- A handler gives its result, or an error, and the state after it.
abbrev pub Handler : Crates → Type 0 → Type 0
Handler C A = AppState C → Result A ApiError × AppState C

abbrev pub forward :
    {C : Crates} {A B : Type 0} → Result A ApiError → (A → Handler C B) → Handler C B
forward (ok a) f s = f a s
forward (err e) f s = (err e, s)

infixl 5 ◌>>=◌ ◌>>◌
abbrev pub ◌>>=◌ : {C : Crates} {A B : Type 0} → Handler C A → (A → Handler C B) → Handler C B
◌>>=◌ m f s = let (r, s') = m s in forward r f s'

abbrev pub ◌>>◌ : {C : Crates} {A B : Type 0} → Handler C A → Handler C B → Handler C B
m >> k = m >>= λ _. k

module _ {C : Crates} where
  abbrev pub respond : {A : Type 0} → A → Handler C A
  respond a s = (ok a, s)

  abbrev pub check : {A : Type 0} → Result A ApiError → Handler C A
  check r s = (r, s)

  abbrev pub query : {A : Type 0} → Query C.Json A → Handler C A
  query q s = let (r, db') = q s.db in (r, record s { db = db' })

  abbrev pub change : (AppState C → AppState C) → Handler C (Unit {0})
  change f s = (ok tt, f s)

forward-eq-ok :
    {C : Crates} {A B : Type 0} (r : Result A ApiError) (f : A → Handler C B) (s : AppState C)
    {b : B} {s' : AppState C}
    → forward r f s ≡ (ok b, s')
    → (a : A) × (r ≡ ok a) × (f a s ≡ (ok b, s'))
forward-eq-ok (ok a) f s h = (a, refl, h)
forward-eq-ok (err e) f s h = cc

-- Inversion of a handler that returns.
pub >>=-eq-ok :
    {C : Crates} {A B : Type 0} (m : Handler C A) (f : A → Handler C B) (s : AppState C) {b : B}
    {s' : AppState C}
    → (m >>= f) s ≡ (ok b, s')
    → (a : A) × (m s ≡ (ok a, (m s).1)) × (f a (m s).1 ≡ (ok b, s'))
>>=-eq-ok m f s h =
    let (a, e, k) = forward-eq-ok (m s).0 f (m s).1 h in (a, (λ i. (e i, (m s).1)), k)

forward-eq-err :
    {C : Crates} {A B : Type 0} (r : Result A ApiError) (f : A → Handler C B) (s : AppState C)
    {e : ApiError} {s' : AppState C}
    → forward r f s ≡ (err e, s')
    → (s' ≡ s) ⊎ ((a : A) × (r ≡ ok a) × (f a s ≡ (err e, s')))
forward-eq-err (ok a) f s h = inr (a, refl, h)
forward-eq-err (err e) f s h = inl (ap (λ o. o.1) (sym h))

-- A handler that fails has failed in its first step or in the rest.
pub >>=-eq-err :
    {C : Crates} {A B : Type 0} (m : Handler C A) (f : A → Handler C B) (s : AppState C)
    {e : ApiError} {s' : AppState C}
    → (m >>= f) s ≡ (err e, s')
    → (s' ≡ (m s).1) ⊎ ((a : A) × ((m s).0 ≡ ok a) × (f a (m s).1 ≡ (err e, s')))
>>=-eq-err m f s h = forward-eq-err (m s).0 f (m s).1 h
