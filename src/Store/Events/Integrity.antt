-- ===== src/Store/Events/Integrity.antt =====
-- `create_event` of src/store.rs keeps the database consistent.
use evgl_api.Base.{ℕ, false, ◌∷◌, ◌≡◌, arith, any, inl, inr, Bool-cases, ◌==◌}
use evgl_api.Base.Tables.{All-mono}
use evgl_api.Rust.{Result-cases}
use evgl_api.Domain.{Crates, EventDraft}
use evgl_api.Database.{Database, EventRow, same_event}
use evgl_api.Database.Integrity.{IsConsistent, HasEvent}
use evgl_api.Store.Events.{create_event}

event-IsConsistent :
    {Json : Type 0} (row : EventRow Json) (db : Database Json)
    → any (same_event row) db.events ≡ false
    → IsConsistent db
    → IsConsistent (record db { events = row ∷ db.events })
event-IsConsistent row db fresh h = record {
  sessions = h.sessions;
  connections = h.connections;
  accounts = h.accounts;
  events = (fresh, h.events);
  jobs = h.jobs;
  keys = h.keys;
  jobs_event =
      All-mono (HasEvent db.events) (HasEvent (row ∷ db.events)) db.cross_post_jobs
        (λ j e. ground arith) h.jobs_event;
  targets = h.targets;
  targets_owned = h.targets_owned;
}

pub create_event-IsConsistent :
    (C : Crates) (now : ℕ) (event : EventDraft C.types) (db : Database C.Json)
    → IsConsistent db
    → IsConsistent (create_event C now event db).1
unfolding create_event
create_event-IsConsistent C now event db h = elim (Result-cases (C.validate_event event)) [
  | inr (_, invalid) ↦ rw invalid h
  | inl (_, valid) ↦ elim (Result-cases (C.event_to_value event)) [
    | inr (_, unprintable) ↦ rw (valid, unprintable) h
    | inl (_, printed) ↦ elim (Bool-cases (any (λ e. event.id == e.id) db.events)) [
      | inl taken ↦ rw (valid, printed, taken) h
      | inr fresh ↦ rw (valid, printed, fresh) (event-IsConsistent _ db fresh h)
    ]
  ]
]
