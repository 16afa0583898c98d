-- ===== src/Store/Events.antt =====
-- src/store.rs: the events. A document is the JSON of an `EventDraft`.
pub mod Integrity
pub mod RoundTrip
pub mod Reads
use evgl_api.Base.{ℕ, Bool, List, [], ◌∷◌, ◌&&◌, ◌==◌, leb, any, find, filter, sort_by, take}
use evgl_api.Rust.{Result, ok, err, map_err}
use evgl_api.Rust
use evgl_api.Error.{ApiError, unique_violation, bad_request, not_found, internal, described}
use evgl_api.Domain.{Crates, EventDraft}
use evgl_api.Database.{
  EventRow, Query, ◌>>=◌, ◌>>◌, gets, modify, refuse_if, found_or, lift, same_event,
}

unfoldable pub create_event : (C : Crates) → ℕ → EventDraft C.types → Query C.Json (Unit {0})
create_event C now event = do
  lift (map_err bad_request (C.validate_event event))
  document ← lift (map_err (λ e. internal (described e)) (C.event_to_value event))
  let row : EventRow C.Json = record {
    id = event.id;
    owner_id = event.owner_id;
    document = document;
    created_at = now;
    updated_at = now;
  }
  db ← gets (λ db. db)
  refuse_if (any (same_event row) db.events) unique_violation
  modify (λ db. record db { events = row ∷ db.events })

-- WHERE id = $1 AND owner_id = $2
abbrev pub is_owners : {Json : Type 0} → ℕ → ℕ → EventRow Json → Bool
is_owners user_id event_id e = e.id == event_id && e.owner_id == user_id

abbrev pub decode_event : (C : Crates) → C.Json → Result (EventDraft C.types) ApiError
decode_event C document = map_err (λ e. internal (described e)) (C.event_from_value document)

unfoldable pub get_event : (C : Crates) → ℕ → ℕ → Query C.Json (EventDraft C.types)
get_event C user_id event_id = do
  row ← gets (λ db. find (is_owners user_id event_id) db.events)
  found ← found_or (not_found "event not found") row
  lift (decode_event C found.document)

-- `collect::<Result<Vec<_>, _>>` of the documents
pub decode_all : (C : Crates) → List (EventRow C.Json) → Result (List (EventDraft C.types)) ApiError
decode_all C [] = ok []
decode_all C (row ∷ rows) =
    let rest = decode_all C rows in
    Rust.◌>>=◌ (decode_event C row.document) λ event. Rust.◌>>=◌ rest λ events. ok (event ∷ events)

-- ORDER BY created_at DESC LIMIT 100
abbrev pub newest_first : {Json : Type 0} → EventRow Json → EventRow Json → Bool
newest_first a b = leb b.created_at a.created_at

unfoldable pub list_events : (C : Crates) → ℕ → Query C.Json (List (EventDraft C.types))
unfolding decode_all
list_events C user_id = do
  rows ←
      gets (λ db. take 100 (sort_by newest_first (filter (λ e. e.owner_id == user_id) db.events)))
  lift (decode_all C rows)
