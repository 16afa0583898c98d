-- ===== src/Events/Create.antt =====
-- What the route `create` of src/events.rs does: the store's part of it, and what open streams get.
use evgl_api.Base.{
  ℕ, ◌-◌, ◌≤◌, ◌==◌, ◌≡◌, refl, sym, ap, ◌∙◌, ◌⊎◌, inl, inr, List, [], ◌∷◌, ◌++◌, length, take,
  arith, suc, if◌then◌else◌,
}
use evgl_api.Rust.{Result, ok, err, Result-cases}
use evgl_api.Error.{ApiError, not_found}
use evgl_api.Domain.{Crates, EventDraft}
use evgl_api.Database.{Database}
use evgl_api.Store.Events.{create_event, get_event}
use evgl_api.Store.Events.RoundTrip.{ReadsBack, create-get_event}
use evgl_api.App.{AppState}
use evgl_api.Events.{CreateEventInput, new_event, create, get}

abbrev pub oldest_first : {A : Type 0} → List A → List A
oldest_first [] = []
oldest_first (x ∷ xs) = oldest_first xs ++ (x ∷ [])

-- The events that were announced after the first `n`, oldest first: those that a receiver has to be
-- given which subscribed then.
abbrev pub announced_since : {C : Crates} → ℕ → AppState C → List (EventDraft C.types)
announced_since n s = oldest_first (take (length s.event_channel - n) s.event_channel)

module _ (C : Crates) where
  create_event-err :
      (now : ℕ) (event : EventDraft C.types) (db : Database C.Json) (e : ApiError)
      → (create_event C now event db).0 ≡ err e
      → (create_event C now event db).1 ≡ db
  unfolding create_event
  create_event-err now event db e h = elim (Result-cases (C.validate_event event)) [
    | inr (_, invalid) ↦ rw invalid refl
    | inl (_, valid) ↦ elim (Result-cases (C.event_to_value event)) [
      | inr (_, unprintable) ↦ rw (valid, unprintable) refl
      | inl (v, printed) ↦ ground arith
    ]
  ]

  module _ (now id user_id : ℕ) (input : CreateEventInput C) (s : AppState C) where
    abbrev event : EventDraft C.types
    event = new_event id user_id input

    create-err :
        (e : ApiError)
        → (create_event C now event s.db).0 ≡ err e
        → create C now id user_id input s ≡ (err e, s)
    unfolding create
    create-err e failed =
        let same : create_event C now event s.db ≡ (err e, s.db) =
          λ i. (failed i, create_event-err now event s.db e failed i) in
        rw same refl

    create-ok :
        (create_event C now event s.db).0 ≡ ok tt
        → create C now id user_id input s ≡ (
          ok (201, event),
          record s {
            db = (create_event C now event s.db).1;
            event_channel = event ∷ s.event_channel;
          },
        )
    unfolding create
    create-ok made = rw made refl

    get_created :
        ReadsBack C
        → (create_event C now event s.db).0 ≡ ok tt
        → (other : ℕ) (s' : AppState C) → s'.db ≡ (create_event C now event s.db).1
        → get C other id s'
          ≡ (if other == user_id then ok event else err (not_found "event not found"), s')
    unfolding get
    get_created back made other s' h =
        let (_, read) =
          create-get_event C back now event s.db (create_event C now event s.db).1
            (λ i. (made i, (create_event C now event s.db).1)) other in
        let same : get_event C other id s'.db
            ≡ (if other == user_id then ok event else err (not_found "event not found"), s'.db) =
          rw h read in
        rw same refl

    announced-create :
        (n : ℕ)
        → n ≤ length s.event_channel
        → (db : Database C.Json)
        → announced_since n (record s { db = db; event_channel = event ∷ s.event_channel })
          ≡ announced_since n s ++ (event ∷ [])
    announced-create n opened db =
        let e : suc (length s.event_channel) - n ≡ suc (length s.event_channel - n) =
          omega (arith, opened) in
        rw e refl

  -- A request that creates an event either fails and changes nothing, or answers 201 with an event
  -- of the user, which every stream that was opened before has to be given after those before it,
  -- and which the user, and nobody else, reads back.
  pub create_feeds :
      ReadsBack C
      → (now id user_id : ℕ) (input : CreateEventInput C) (s s' : AppState C)
        (r : Result (ℕ × EventDraft C.types) ApiError)
      → create C now id user_id input s ≡ (r, s')
      → (n other : ℕ) → n ≤ length s.event_channel
      → ((e : ApiError) × (r ≡ err e) × (s' ≡ s))
        ⊎ ((r ≡ ok (201, new_event id user_id input))
            × (announced_since n s' ≡ announced_since n s ++ (new_event id user_id input ∷ []))
            × (get C other id s' ≡ (
              if other == user_id
                  then ok (new_event id user_id input)
                  else err (not_found "event not found"),
              s',
            )))
  create_feeds back now id user_id input s s' r h n other opened =
      let event = new_event id user_id input in
      elim (Result-cases (create_event C now event s.db).0) [
        | inr (e, failed) ↦
            let same = sym h ∙ create-err now id user_id input s e failed in
            inl (e, ap (λ o. o.0) same, ap (λ o. o.1) same)
        | inl (_, made) ↦
            let same = sym h ∙ create-ok now id user_id input s made in
            let db = (create_event C now event s.db).1 in
            inr (
              ap (λ o. o.0) same,
              ap (λ o. announced_since n o.1) same
                  ∙ announced-create now id user_id input s n opened db,
              get_created now id user_id input s back made other s' (ap (λ o. o.1.db) same),
            )
      ]
