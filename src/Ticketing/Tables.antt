-- ===== src/Ticketing/Tables.antt =====
-- src/ticketing.rs: the tables and the requests of an event's stock of tickets. The tables have the columns that its statements
-- name. The migration with their constraints, the functions of the database that it calls, and the
-- validation of requests stand in evgl_interfaces and are the parameter TicketInterfaces.

use evgl_api.Base.{ℕ, Bool, String, Option, List}
use evgl_api.Base.Int.{ℤ}
use evgl_api.Rust.{Result, ok, err, ok_or, map_err}
use evgl_api.Rust

-- sea_orm's errors: the two that the code makes, and any other.
pub data DbErr : Type 0 where
  record_not_found custom failure : String → DbErr

pub record InventoryRow : Type 0 where
  pub event_id : ℕ
  pub capacity : ℤ
  pub created_at : ℕ
  pub updated_at : ℕ

pub record HoldRow : Type 0 where
  pub event_id : ℕ
  pub quantity : ℤ
  pub status : String
  pub expires_at : ℕ

pub record TicketOrderRow : Type 0 where
  pub event_id : ℕ
  pub quantity : ℤ
  pub status : String

pub record ClassRow : Type 0 where
  pub id : ℕ
  pub event_id : ℕ
  pub name : String
  pub capacity : ℤ
  pub sale_starts_at : ℕ
  pub sale_ends_at : ℕ
  pub created_at : ℕ

pub record Stock : Type 0 where
  pub event_inventory : List InventoryRow
  pub ticket_holds : List HoldRow
  pub ticket_orders : List TicketOrderRow
  pub ticket_classes : List ClassRow

-- A row that a statement returns, by what `try_get` makes of its columns.
pub record QueryResult : Type 0 where
  pub uuid : String → Result ℕ DbErr
  pub optional_uuid : String → Result (Option ℕ) DbErr
  pub integer : String → Result ℤ DbErr

abbrev pub Statement : Type 0 → Type 0
Statement A = Stock → Result A DbErr × Stock

abbrev pub next : {A B : Type 0} → Result A DbErr → (A → Statement B) → Statement B
next (ok a) f t = f a t
next (err e) f t = (err e, t)

infixl 5 ◌>>=◌ ◌>>◌
abbrev pub ◌>>=◌ : {A B : Type 0} → Statement A → (A → Statement B) → Statement B
◌>>=◌ m f t = let (r, t') = m t in next r f t'

abbrev pub ◌>>◌ : {A B : Type 0} → Statement A → Statement B → Statement B
m >> k = m >>= λ _. k

abbrev pub lift : {A : Type 0} → Result A DbErr → Statement A
lift r t = (r, t)

pub record ConfigureEventInventory : Type 0 where
  pub event_id : ℕ
  pub capacity : ℤ

pub record CreateTicketClass : Type 0 where
  pub event_id : ℕ
  pub name : String
  pub capacity : ℤ
  pub sale_starts_at : ℕ
  pub sale_ends_at : ℕ

pub record ReserveTickets : Type 0 where
  pub event_id : ℕ
  pub ticket_class_id : ℕ
  pub quantity : ℤ
  pub idempotency_key : String
  pub expires_at : ℕ

pub record CreateTicketOrder : Type 0 where
  pub hold_id : ℕ
  pub checkout_idempotency_key : String

pub record ConfirmTicketPayment : Type 0 where
  pub order_id : ℕ
  pub payment_idempotency_key : String

pub record CancelTicketOrder : Type 0 where
  pub order_id : ℕ
  pub cancellation_idempotency_key : String
  pub refund : Bool

pub record JoinWaitlist : Type 0 where
  pub event_id : ℕ
  pub ticket_class_id : ℕ
  pub attendee_ref_hash : String
  pub quantity : ℤ

pub record InventoryReceipt : Type 0 where
  pub event_id : ℕ
  pub event_capacity : ℤ
  pub held : ℤ
  pub sold : ℤ
  pub remaining : ℤ
  pub generated_at : ℕ

pub record TicketInterfaces : Type 0 where
  -- whether the constraints of the migration accept the tables
  pub constraints : Stock → Result (Unit {0}) DbErr
  pub validate_configure : ConfigureEventInventory → Result (Unit {0}) String
  pub validate_class : CreateTicketClass → Result (Unit {0}) String
  pub validate_reserve : ReserveTickets → ℕ → Result (Unit {0}) String
  pub validate_order : CreateTicketOrder → Result (Unit {0}) String
  pub validate_payment : ConfirmTicketPayment → Result (Unit {0}) String
  pub validate_cancel : CancelTicketOrder → Result (Unit {0}) String
  pub validate_waitlist : JoinWaitlist → Result (Unit {0}) String
  pub evgl_reserve_tickets : ℕ → ℕ → ℤ → String → ℕ → ℕ → Statement (Option QueryResult)
  pub evgl_create_ticket_order : ℕ → String → ℕ → Statement (Option QueryResult)
  pub evgl_confirm_ticket_payment : ℕ → String → ℕ → Statement (Option QueryResult)
  pub evgl_cancel_ticket_order : ℕ → String → Bool → ℕ → Statement (Option QueryResult)
  pub evgl_expire_ticket_holds : ℕ → Statement (Option QueryResult)
  pub evgl_join_ticket_waitlist : ℕ → ℕ → String → ℤ → ℕ → Statement (Option QueryResult)
  pub evgl_promote_ticket_waitlist : ℕ → ℕ → ℕ → ℕ → Statement (Option QueryResult)
  -- the view ticket_inventory_receipts
  pub ticket_inventory_receipts : ℕ → Statement (Option QueryResult)

unfoldable pub uuid_column : Option QueryResult → String → String → Result ℕ DbErr
uuid_column result column missing =
    Rust.◌>>=◌ (ok_or result (record_not_found missing)) λ row. row.uuid column

abbrev pub validation_error : String → DbErr
validation_error error = custom error
