-- ===== src/Examples/TicketRuns.antt =====
-- Stock that is configured, and a class of tickets.
use evgl_api.Base.{ℕ, ◌≡◌, refl, ◌⊎◌, String, Option, none, some, [], ◌∷◌, In, arith, if◌then◌else◌}
use evgl_api.Base.Int.{ℤ, pos, ◌≤ℤ◌, leb_ℤ}
use evgl_api.Rust.{Result, ok, err}
use evgl_api.Ticketing.Tables.{
  DbErr, InventoryRow, Stock, ConfigureEventInventory, CreateTicketClass, TicketInterfaces,
  QueryResult, Statement, uuid_column,
}
use evgl_api.Ticketing.Inventory.{
  configure_event, create_ticket_class, trim, upsert_inventory, insert_class,
}
use evgl_api.Ticketing.Covered.{IsCovered, Validates, capacity_of}
use evgl_api.Ticketing.Configured.{configure_event_lem, create_ticket_class_lem}

abbrev no_row : Statement (Option QueryResult)
no_row t = (ok none, t)

abbrev validate : ConfigureEventInventory → Result (Unit {0}) String
validate input = if leb_ℤ (pos 0) input.capacity then ok tt else err "capacity"

abbrev interfaces : TicketInterfaces
interfaces = record {
  constraints = λ t. ok tt;
  validate_configure = validate;
  validate_class = λ input. ok tt;
  validate_reserve = λ input now. ok tt;
  validate_order = λ input. ok tt;
  validate_payment = λ input. ok tt;
  validate_cancel = λ input. ok tt;
  validate_waitlist = λ input. ok tt;
  evgl_reserve_tickets = λ event class quantity key now expires_at. no_row;
  evgl_create_ticket_order = λ hold key now. no_row;
  evgl_confirm_ticket_payment = λ order key now. no_row;
  evgl_cancel_ticket_order = λ order key refund now. no_row;
  evgl_expire_ticket_holds = λ now. no_row;
  evgl_join_ticket_waitlist = λ event class hash quantity now. no_row;
  evgl_promote_ticket_waitlist = λ event class now expires_at. no_row;
  ticket_inventory_receipts = λ event. no_row;
}

validate-positive : Validates interfaces
validate-positive input h = ground (arith, h)

-- Ten places, of which two are held and three are sold.
abbrev stock : Stock
stock = record {
  event_inventory = record { event_id = 3; capacity = pos 10; created_at = 1; updated_at = 1 } ∷ [];
  ticket_holds = record { event_id = 3; quantity = pos 2; status = "held"; expires_at = 90 } ∷ [];
  ticket_orders = record { event_id = 3; quantity = pos 3; status = "paid" } ∷ [];
  ticket_classes = [];
}

stock-IsCovered : IsCovered 50 stock
stock-IsCovered = record { covers = (omega arith, tt); holds = (refl, tt); orders = (refl, tt) }

abbrev shrink : ℤ → ConfigureEventInventory
shrink capacity = record { event_id = 3; capacity = capacity }

abbrev shrunk : Stock
shrunk = (configure_event interfaces (shrink (pos 5)) 50 stock).1

configured : configure_event interfaces (shrink (pos 5)) 50 stock ≡ (ok 3, shrunk)
unfolding configure_event upsert_inventory uuid_column
configured = refl

configure_event_lem_example :
    IsCovered 50 shrunk
    × (((e : DbErr) × (◌≡◌ {A = Result ℕ DbErr} (ok 3) (err e)) × (shrunk ≡ stock))
        ⊎ ((◌≡◌ {A = Result ℕ DbErr} (ok 3) (ok 3)) × (capacity_of 3 shrunk ≡ some (pos 5))))
configure_event_lem_example =
    configure_event_lem interfaces validate-positive (shrink (pos 5)) 50 stock shrunk (ok 3)
      stock-IsCovered configured

abbrev balcony : CreateTicketClass
balcony = record {
  event_id = 3;
  name = " balcony ";
  capacity = pos 7;
  sale_starts_at = 1;
  sale_ends_at = 99;
}

abbrev classed : Stock
classed = (create_ticket_class interfaces 8 balcony 50 stock).1

created : create_ticket_class interfaces 8 balcony 50 stock ≡ (ok 8, classed)
unfolding create_ticket_class insert_class uuid_column
created = refl

create_ticket_class_lem_example :
    ((e : DbErr) × (◌≡◌ {A = Result ℕ DbErr} (ok 8) (err e)) × (classed ≡ stock))
    ⊎ ((row : InventoryRow) × (◌≡◌ {A = Result ℕ DbErr} (ok 8) (ok 8))
        × In row stock.event_inventory
        × (row.event_id ≡ 3)
        × (pos 7 ≤ℤ row.capacity)
        × (classed ≡ record stock {
          ticket_classes =
              record {
                id = 8;
                event_id = balcony.event_id;
                name = trim balcony.name;
                capacity = balcony.capacity;
                sale_starts_at = balcony.sale_starts_at;
                sale_ends_at = balcony.sale_ends_at;
                created_at = 50;
              }
              ∷ [];
        }))
create_ticket_class_lem_example =
    create_ticket_class_lem interfaces 8 balcony 50 stock classed (ok 8) created
