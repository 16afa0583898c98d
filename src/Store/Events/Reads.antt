-- ===== src/Store/Events/Reads.antt =====
-- `get_event` of src/store.rs changes nothing.
use evgl_api.Base.{ℕ, ◌≡◌, inl, inr, find, Option-cases}
use evgl_api.Domain.{Crates}
use evgl_api.Database.{Database}
use evgl_api.Store.Events.{get_event, is_owners}

pub get_event-state :
    (C : Crates) (user_id event_id : ℕ) (db : Database C.Json)
    → (get_event C user_id event_id db).1 ≡ db
unfolding get_event
get_event-state C user_id event_id db =
    elim (Option-cases (find (is_owners user_id event_id) db.events)) [
      | inl missing ↦ rw missing
      | inr (row, found) ↦ rw found
    ]
