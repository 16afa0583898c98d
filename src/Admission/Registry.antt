-- ===== src/Admission/Registry.antt =====
-- src/admission.rs: `AdmissionService`, the registration of keys, entitlements and tokens and the
-- recording of receipts. The columns and the key of each table are those that the statements name:
-- the migration and its functions stand in evgl_interfaces and are the parameter AdmissionSchema.
use evgl_api.Base.{
  ℕ, Bool, true, false, ◌||◌, ◌&&◌, ◌==◌, leb, str_eq, if◌then◌else◌, String, Option, none, some,
  List, [], ◌∷◌, find,
}
use evgl_api.Base.Int.{ℤ, eqb_ℤ}
use evgl_api.Rust.{Result, ok, err, fail_if}
use evgl_api.Admission.Wire.{
  AdmissionCrates, AdmissionVerificationKey, SignedScanReceipt, AdmissionError, policy,
  decode_bytes, validate_descriptor, is_blank,
}

pub record SigningKeyRow : Type 0 where
  pub key_id : String
  pub issuance_epoch : ℤ
  pub public_key : List ℕ
  pub active_from : ℕ
  pub retire_at : ℕ

pub record ScannerKeyRow : Type 0 where
  pub scanner_id : ℕ
  pub key_id : String
  pub public_key : List ℕ
  pub active_from : ℕ
  pub retire_at : ℕ

pub record EntitlementRow : Type 0 where
  pub ticket_id : ℕ
  pub order_id : ℕ
  pub event_id : ℕ
  pub issuance_epoch : ℤ
  pub status : String
  pub created_at : ℕ
  pub updated_at : ℕ

pub record TokenRow : Type 0 where
  pub token_id : ℕ
  pub ticket_id : ℕ
  pub order_id : ℕ
  pub event_id : ℕ
  pub issuance_epoch : ℤ
  pub key_id : String
  pub issued_at : ℕ
  pub expires_at : ℕ
  pub revoked_at : Option ℕ

pub record OrderRow : Type 0 where
  pub id : ℕ
  pub event_id : ℕ
  pub status : String

-- The arguments of evgl_record_admission_receipt.
pub record ReceiptRow : Type 0 where
  pub receipt : SignedScanReceipt
  pub received_at : ℕ
  pub payload_hash : List ℕ
  pub signature : List ℕ
  pub outcome : String
  pub reason : Option String

pub record Registry : Type 0 where
  pub signing_keys : List SigningKeyRow
  pub scanner_keys : List ScannerKeyRow
  pub entitlements : List EntitlementRow
  pub tokens : List TokenRow
  pub ticket_orders : List OrderRow

pub record AdmissionSchema : Type 0 where
  -- the values of the columns that no INSERT names
  pub default_status : String
  pub default_revoked_at : Option ℕ
  pub sha256 : List ℕ → List ℕ
  pub revoke_admission_entitlement : ℕ → ℕ → Registry → Result (Option ℤ) AdmissionError × Registry
  pub record_admission_receipt : ReceiptRow → Registry → Result (Option ℕ) AdmissionError × Registry

-- A query on the tables gives a result or an error, and the tables after it.
abbrev pub Action : Type 0 → Type 0
Action A = Registry → Result A AdmissionError × Registry

-- What is checked before the first statement runs.
abbrev pub checked : {A B : Type 0} → Result A AdmissionError → (A → Action B) → Action B
checked (ok a) f db = f a db
checked (err e) f db = (err e, db)

abbrev pub bytes_eq : List ℕ → List ℕ → Bool
bytes_eq [] [] = true
bytes_eq [] (c ∷ cs) = false
bytes_eq (b ∷ bs) [] = false
bytes_eq (b ∷ bs) (c ∷ cs) = b == c && bytes_eq bs cs

-- INSERT .. ON CONFLICT (key) DO UPDATE SET key = excluded.key WHERE agrees RETURNING key: the rows
-- after it, or none where no row is returned. An update that sets the key to itself changes nothing.
abbrev pub insert_or_agree :
    {Row : Type 0} → (Row → Bool) → (Row → Bool) → Row → List Row → Option (List Row)
insert_or_agree has_key agrees row rows = elim (find has_key rows) [
  | none ↦ some (row ∷ rows)
  | some old ↦ if agrees old then some rows else none
]

-- `if result.is_none() { return Err(Policy(..)) }`
abbrev pub returning :
    {Row : Type 0}
    → String
    → (List Row → Registry → Registry)
    → Option (List Row)
    → Action (Unit {0})
returning message store none db = (err (policy message), db)
returning message store (some rows) db = (ok tt, store rows db)

abbrev pub is_signing_key : String → SigningKeyRow → Bool
is_signing_key key_id r = str_eq r.key_id key_id

abbrev pub same_signing_key : SigningKeyRow → SigningKeyRow → Bool
same_signing_key row old =
    eqb_ℤ old.issuance_epoch row.issuance_epoch
    && bytes_eq old.public_key row.public_key
    && old.active_from == row.active_from
    && old.retire_at == row.retire_at

abbrev pub is_scanner_key : ℕ → String → ScannerKeyRow → Bool
is_scanner_key scanner_id key_id r = r.scanner_id == scanner_id && str_eq r.key_id key_id

abbrev pub same_scanner_key : ScannerKeyRow → ScannerKeyRow → Bool
same_scanner_key row old =
    bytes_eq old.public_key row.public_key
    && old.active_from == row.active_from
    && old.retire_at == row.retire_at

abbrev pub is_paid : ℕ → ℕ → OrderRow → Bool
is_paid order_id event_id o = o.id == order_id && o.event_id == event_id && str_eq o.status "paid"

abbrev pub is_entitlement : ℕ → EntitlementRow → Bool
is_entitlement ticket_id r = r.ticket_id == ticket_id

abbrev pub same_entitlement : EntitlementRow → EntitlementRow → Bool
same_entitlement row old =
    old.order_id == row.order_id
    && old.event_id == row.event_id
    && eqb_ℤ old.issuance_epoch row.issuance_epoch

module _ (C : AdmissionCrates) where
  unfoldable pub signing_key_row : AdmissionVerificationKey → List ℕ → SigningKeyRow
  signing_key_row d public_key = record {
    key_id = d.key_id;
    issuance_epoch = d.issuance_epoch;
    public_key = public_key;
    active_from = d.active_from;
    retire_at = d.retire_at;
  }

  unfoldable pub register_signing_key : AdmissionVerificationKey → Action (Unit {0})
  unfolding signing_key_row
  register_signing_key d = checked (validate_descriptor C d) λ _.
      checked (decode_bytes C 32 d.public_key) λ public_key db.
        let row = signing_key_row d public_key in
        returning "signing key id is already bound to different key material or epochs"
          (λ rows db. record db { signing_keys = rows })
          (insert_or_agree (is_signing_key d.key_id) (same_signing_key row) row db.signing_keys) db

  unfoldable pub register_scanner_key : ℕ → String → List ℕ → ℕ → ℕ → Action (Unit {0})
  unfolding is_blank
  register_scanner_key scanner_id key_id public_key active_from retire_at =
      checked
        (fail_if (is_blank key_id || leb retire_at active_from)
          (policy "invalid scanner verification key window"))
        λ _. checked (decode_bytes C 32 public_key) λ bytes db.
          let row : ScannerKeyRow = record {
            scanner_id = scanner_id;
            key_id = key_id;
            public_key = bytes;
            active_from = active_from;
            retire_at = retire_at;
          } in
          returning "scanner key id is already bound to different key material or windows"
            (λ rows db. record db { scanner_keys = rows })
            (insert_or_agree (is_scanner_key scanner_id key_id) (same_scanner_key row) row
              db.scanner_keys)
            db
