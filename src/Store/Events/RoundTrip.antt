-- ===== src/Store/Events/RoundTrip.antt =====
-- What `create_event` of src/store.rs stores is what its owner, and nobody else, reads back.
use evgl_api.Base.{
  Bool-cases, if◌then◌else◌, ℕ, suc, All, In, sort_by, filter, ◌≤◌, true, false, some, none, List,
  [], ◌∷◌, ◌≡◌, ◌≢◌, refl, sym, arith, any, find, take, length, ap, inl, inr, ◌==◌,
}
use evgl_api.Base.Tables.{
  find-none_of_any, any-false_mono, All-take, All-sort_by, All-filter, All-In, All-mono,
  length-take-le,
}
use evgl_api.Rust.{ok, err, Result-cases}
use evgl_api.Domain.{Crates, EventDraft}
use evgl_api.Error.{not_found}
use evgl_api.Database.{Database, EventRow}
use evgl_api.Store.Events.{
  create_event, get_event, list_events, newest_first, decode_all, is_owners,
}

-- serde_json: a value that an event was written to is read back as that event.
abbrev pub ReadsBack : Crates → Type 0
ReadsBack C =
    (event : EventDraft C.types) (v : C.Json)
    → C.event_to_value event ≡ ok v
    → C.event_from_value v ≡ ok event

module _ (C : Crates) where
  abbrev pub created_row : ℕ → EventDraft C.types → C.Json → EventRow C.Json
  created_row now event document = record {
    id = event.id;
    owner_id = event.owner_id;
    document = document;
    created_at = now;
    updated_at = now;
  }

  -- Of a list of rows that decodes, each event is the decoded document of one of the rows.
  decode_all-All :
      (P : EventRow C.Json → Type 0) (rows : List (EventRow C.Json))
      (events : List (EventDraft C.types))
      → decode_all C rows ≡ ok events
      → All P rows
      → (length events ≡ length rows)
        × All
            (λ event.
              (row : EventRow C.Json) × P row × (C.event_from_value row.document ≡ ok event))
            events
  unfolding decode_all
  decode_all-All P [] [] h a = (refl, tt)
  decode_all-All P [] (event ∷ events) h a = cc
  decode_all-All P (row ∷ rows) events h a = elim (Result-cases (C.event_from_value row.document)) [
    | inr (_, bad) ↦ ground arith
    | inl (event, good) ↦ elim (Result-cases (decode_all C rows)) [
      | inr (_, bad) ↦ ground arith
      | inl (rest, tail) ↦
          let (size, each) = decode_all-All P rows rest tail a.1 in
          let same : (event ∷ rest) ≡ events = ground arith in
          rw (← same) (ap suc size, ((row, a.0, good), each))
    ]
  ]

  -- The row that a successful `create_event` adds.
  pub record Created (now : ℕ) (event : EventDraft C.types) (db db' : Database C.Json)
      : Type 0 where
    pub document : C.Json
    pub valid : C.validate_event event ≡ ok tt
    pub printed : C.event_to_value event ≡ ok document
    pub fresh : any (λ e. event.id == e.id) db.events ≡ false
    pub added : db' ≡ record db { events = created_row now event document ∷ db.events }

  pub create_event-Created :
      (now : ℕ) (event : EventDraft C.types) (db db' : Database C.Json)
      → create_event C now event db ≡ (ok tt, db')
      → Created now event db db'
  unfolding create_event
  create_event-Created now event db db' h = elim (Result-cases (C.validate_event event)) [
    | inr (_, invalid) ↦ ground arith
    | inl (_, valid) ↦ elim (Result-cases (C.event_to_value event)) [
      | inr (_, unprintable) ↦ ground arith
      | inl (v, printed) ↦ record {
        document = v;
        valid = valid;
        printed = printed;
        fresh = ground arith;
        added = ground arith;
      }
    ]
  ]

  others_miss :
      (now : ℕ) (event : EventDraft C.types) (document : C.Json) (rows : List (EventRow C.Json))
      (other : ℕ)
      → other ≢ event.owner_id
      → any (λ e. event.id == e.id) rows ≡ false
      → find (is_owners other event.id) (created_row now event document ∷ rows) ≡ none
  others_miss now event document rows other ne fresh =
      let none_left = find-none_of_any (is_owners other event.id) rows (
        any-false_mono (is_owners other event.id) (λ e. event.id == e.id) rows (λ e k. ground arith)
          fresh) in
      ground arith

  -- An event that was created is valid, is read back whole by its owner, and is not found by any
  -- other user. Reading changes nothing.
  pub create-get_event :
      ReadsBack C
      → (now : ℕ) (event : EventDraft C.types) (db db' : Database C.Json)
      → create_event C now event db ≡ (ok tt, db')
      → (user : ℕ)
      → (C.validate_event event ≡ ok tt)
        × (get_event C user event.id db'
            ≡ (if user == event.owner_id then ok event else err (not_found "event not found"), db'))
  unfolding get_event
  create-get_event back now event db db' h user =
      let c = create_event-Created now event db db' h in
      (
        c.valid,
        elim (Bool-cases (user == event.owner_id)) [
          | inl owns ↦
              let own : find (is_owners user event.id) db'.events
                  ≡ some (created_row now event c.document) =
                rw (c.added) (ground arith) in
              rw (owns, own, back event c.document c.printed)
          | inr differs ↦
              let none_left : find (is_owners user event.id) db'.events ≡ none =
                rw (c.added)
                  (others_miss now event c.document db.events user (ground arith) c.fresh) in
              rw (differs, none_left)
        ],
      )

-- Listing gives at most a hundred events, each the decoded document of a row of the user, and
-- changes nothing.
pub list_events_owner :
    (C : Crates) (user_id : ℕ) (db db' : Database C.Json) (events : List (EventDraft C.types))
    → list_events C user_id db ≡ (ok events, db')
    → (length events ≤ 100)
      × All
          (λ event.
            (row : EventRow C.Json) × In row db.events
            × (row.owner_id ≡ user_id)
            × (C.event_from_value row.document ≡ ok event))
          events
      × (db' ≡ db)
unfolding list_events
list_events_owner C user_id db db' events h =
    let rows = take 100 (sort_by newest_first (filter (λ e. e.owner_id == user_id) db.events)) in
    let decoded : decode_all C rows ≡ ok events = ap (λ r. r.0) h in
    let (size, each) =
      decode_all-All C (λ row. In row db.events × ((row.owner_id == user_id) ≡ true)) rows events
        decoded
        (All-take _ 100 _ (
          All-sort_by _ newest_first _
            (All-filter (λ row. In row db.events) _ db.events (All-In db.events)))) in
    (
      omega (
        arith,
        length-take-le 100 (sort_by newest_first (filter (λ e. e.owner_id == user_id) db.events)),
      ),
      All-mono _ _ events (λ event (row, inside, k). (row, inside.0, ground arith, k)) each,
      ap (λ r. r.1) (sym h),
    )
