-- ===== src/Ticketing/Inventory.antt =====
-- src/ticketing.rs: `TicketingService`. A statement takes effect if the constraints accept the tables
-- after it, and fails without effect if not.
use Prim.Native.Char.{Char, code}
use evgl_api.Base.{
  ℕ, Bool, true, ◌&&◌, ◌==◌, ltb, str_eq, if◌then◌else◌, String, Option, none, some, List, [], ◌∷◌,
  find, filter, map, update_where,
}
use evgl_api.Base.Int.{ℤ, pos, ◌+ℤ◌, leb_ℤ}
use evgl_api.Rust.{Result, ok, err, ok_or, map_err}
use evgl_api.Admission.Wire.{is_whitespace}
use evgl_api.Ticketing.Tables.{
  DbErr, record_not_found, validation_error, failure, InventoryRow, HoldRow, TicketOrderRow,
  ClassRow, Stock, QueryResult, Statement, ◌>>=◌, ◌>>◌, lift, ConfigureEventInventory,
  CreateTicketClass, ReserveTickets, CreateTicketOrder, ConfirmTicketPayment, CancelTicketOrder,
  JoinWaitlist, InventoryReceipt, TicketInterfaces, uuid_column,
}

abbrev trim_start : String → String
trim_start String.[] = String.[]
trim_start (String.◌∷◌ c s) =
    let rest = trim_start s in if is_whitespace (code c) then rest else String.◌∷◌ c s

abbrev drop_blank : Bool → Char → String → String
drop_blank true c String.[] = String.[]
drop_blank _ c s = String.◌∷◌ c s

abbrev trim_end : String → String
trim_end String.[] = String.[]
trim_end (String.◌∷◌ c s) = drop_blank (is_whitespace (code c)) c (trim_end s)

-- `str::trim`
abbrev pub trim : String → String
trim s = trim_end (trim_start s)

abbrev pub total : List ℤ → ℤ
total [] = pos 0
total (q ∷ qs) = q +ℤ total qs

abbrev pub is_held : ℕ → ℕ → HoldRow → Bool
is_held event_id now h = h.event_id == event_id && str_eq h.status "held" && ltb now h.expires_at

abbrev pub is_sold : ℕ → TicketOrderRow → Bool
is_sold event_id o = o.event_id == event_id && str_eq o.status "paid"

-- What the subselects add up: the tickets of an event that are held or sold.
abbrev pub allocated : ℕ → ℕ → Stock → ℤ
allocated event_id now t =
    total (map (λ (h : HoldRow). h.quantity) (filter (is_held event_id now) t.ticket_holds))
    +ℤ total (map (λ (o : TicketOrderRow). o.quantity) (filter (is_sold event_id) t.ticket_orders))

-- A returned row with one column.
abbrev pub row_with : String → ℕ → QueryResult
row_with name id = record {
  uuid = λ column. if str_eq column name then ok id else err (failure column);
  optional_uuid = λ column. err (failure column);
  integer = λ column. err (failure column);
}

abbrev pub is_inventory : ℕ → InventoryRow → Bool
is_inventory event_id r = r.event_id == event_id

abbrev pub is_roomy : ℕ → ℤ → InventoryRow → Bool
is_roomy event_id capacity r = r.event_id == event_id && leb_ℤ capacity r.capacity

abbrev pub class_row : ℕ → CreateTicketClass → ℕ → ClassRow
class_row id input now = record {
  id = id;
  event_id = input.event_id;
  name = trim input.name;
  capacity = input.capacity;
  sale_starts_at = input.sale_starts_at;
  sale_ends_at = input.sale_ends_at;
  created_at = now;
}

module _ (I : TicketInterfaces) where
  abbrev judged : {A : Type 0} → Result (Unit {0}) DbErr → A → Stock → Statement A
  judged (ok _) a t' t = (ok a, t')
  judged (err e) a t' t = (err e, t)

  abbrev pub enforce : {A : Type 0} → A → Stock → Statement A
  enforce a t' t = judged (I.constraints t') a t' t

  -- insert into event_inventory .. on conflict (event_id) do update .. where .. returning event_id
  unfoldable pub upsert_inventory : Option InventoryRow → ℕ → ℤ → ℕ → Statement (Option QueryResult)
  upsert_inventory none event_id capacity now t =
      enforce (some (row_with "event_id" event_id))
        (record t {
          event_inventory =
              record {
                event_id = event_id;
                capacity = capacity;
                created_at = now;
                updated_at = now;
              }
              ∷ t.event_inventory;
        })
        t
  upsert_inventory (some old) event_id capacity now t =
      if leb_ℤ (allocated event_id now t) capacity
      then enforce (some (row_with "event_id" event_id))
          (record t {
            event_inventory =
                update_where (is_inventory event_id)
                  (λ r. record r { capacity = capacity; updated_at = now }) t.event_inventory;
          })
          t
      else (ok none, t)

  unfoldable pub configure_event : ConfigureEventInventory → ℕ → Statement ℕ
  unfolding upsert_inventory uuid_column
  configure_event input now = do
    lift (map_err validation_error (I.validate_configure input))
    row ← λ t.
        upsert_inventory (find (is_inventory input.event_id) t.event_inventory) input.event_id
          input.capacity now t
    lift (uuid_column row "event_id" "event capacity cannot be reduced below allocated stock")

  -- insert into ticket_classes .. select .. from event_inventory where .. returning id
  unfoldable pub insert_class :
      Option InventoryRow → ℕ → CreateTicketClass → ℕ → Statement (Option QueryResult)
  insert_class none id input now t = (ok none, t)
  insert_class (some roomy) id input now t =
      enforce (some (row_with "id" id))
        (record t { ticket_classes = class_row id input now ∷ t.ticket_classes }) t

  -- `id` is the column's default.
  unfoldable pub create_ticket_class : ℕ → CreateTicketClass → ℕ → Statement ℕ
  unfolding insert_class uuid_column
  create_ticket_class id input now = do
    lift (map_err validation_error (I.validate_class input))
    row ← λ t.
        insert_class (find (is_roomy input.event_id input.capacity) t.event_inventory) id input now
          t
    lift
        (uuid_column row "id" "event inventory is missing or class capacity exceeds event capacity")

  abbrev pub call_uuid : Statement (Option QueryResult) → Statement ℕ
  call_uuid call =
      call >>= λ result. lift (uuid_column result "id" "database function returned no row")

  unfoldable pub reserve : ReserveTickets → ℕ → Statement ℕ
  unfolding uuid_column
  reserve input now =
      lift (map_err validation_error (I.validate_reserve input now))
      >> call_uuid (
          I.evgl_reserve_tickets input.event_id input.ticket_class_id input.quantity
            input.idempotency_key now input.expires_at)

  unfoldable pub create_order : CreateTicketOrder → ℕ → Statement ℕ
  unfolding uuid_column
  create_order input now =
      lift (map_err validation_error (I.validate_order input))
      >> call_uuid (I.evgl_create_ticket_order input.hold_id input.checkout_idempotency_key now)

  unfoldable pub confirm_payment : ConfirmTicketPayment → ℕ → Statement ℕ
  unfolding uuid_column
  confirm_payment input now =
      lift (map_err validation_error (I.validate_payment input))
      >> call_uuid (I.evgl_confirm_ticket_payment input.order_id input.payment_idempotency_key now)

  unfoldable pub cancel_order : CancelTicketOrder → ℕ → Statement ℕ
  unfolding uuid_column
  cancel_order input now =
      lift (map_err validation_error (I.validate_cancel input))
      >> call_uuid (
          I.evgl_cancel_ticket_order input.order_id input.cancellation_idempotency_key input.refund
            now)

  unfoldable pub expire_holds : ℕ → Statement ℤ
  expire_holds now = do
    result ← I.evgl_expire_ticket_holds now
    row ← lift (ok_or result (record_not_found "hold expiry result missing"))
    lift (row.integer "count")

  unfoldable pub join_waitlist : JoinWaitlist → ℕ → Statement ℕ
  unfolding uuid_column
  join_waitlist input now =
      lift (map_err validation_error (I.validate_waitlist input))
      >> call_uuid (
          I.evgl_join_ticket_waitlist input.event_id input.ticket_class_id input.attendee_ref_hash
            input.quantity now)

  unfoldable pub promote_waitlist : ℕ → ℕ → ℕ → ℕ → Statement (Option ℕ)
  promote_waitlist event_id ticket_class_id now offer_expires_at = do
    result ← I.evgl_promote_ticket_waitlist event_id ticket_class_id now offer_expires_at
    row ← lift (ok_or result (record_not_found "waitlist promotion result missing"))
    lift (row.optional_uuid "id")

  unfoldable pub inventory_receipt : ℕ → ℕ → Statement InventoryReceipt
  inventory_receipt event_id now = do
    result ← I.ticket_inventory_receipts event_id
    row ← lift (ok_or result (record_not_found "event inventory receipt missing"))
    event_id ← lift (row.uuid "event_id")
    event_capacity ← lift (row.integer "event_capacity")
    held ← lift (row.integer "held")
    sold ← lift (row.integer "sold")
    remaining ← lift (row.integer "remaining")
    lift (
        ok (record {
          event_id = event_id;
          event_capacity = event_capacity;
          held = held;
          sold = sold;
          remaining = remaining;
          generated_at = now;
        }))
