-- ===== src/Examples/RegistryRuns.antt =====
-- The registration of a key, an entitlement and a token, and a receipt for it.
use evgl_api.Base.{
  ◌+◌, ℕ, String, Option, List, ◌≡◌, refl, none, some, [], ◌∷◌, map, In, if◌then◌else◌,
}
use evgl_api.Base.Int.{pos}
use evgl_api.Rust.{ok, err}
use evgl_api.Admission.Wire.{
  AdmissionVerificationKey, policy, decode_bytes, validate_descriptor, decode_verifying_key,
  decode_signature, is_blank,
}
use evgl_api.Admission.Receipts.{
  verify_scan_receipt, AdmissionOutcome, accepted, duplicate_review, AdmissionReceiptOutcome,
}
use evgl_api.Admission.Outcomes.{outcomes, outcome_row, outcomes-outcome_row}
use evgl_api.Admission.Registry.{
  SigningKeyRow, ScannerKeyRow, EntitlementRow, OrderRow, ReceiptRow, Registry, AdmissionSchema,
  register_signing_key, register_scanner_key, same_signing_key, signing_key_row,
}
use evgl_api.Admission.Enrolment.{register_entitlement, register_token}
use evgl_api.Admission.Recording.{record_receipt, is_candidate, candidate}
use evgl_api.Admission.Binding.{register_signing_key_again}
use evgl_api.Admission.Recorded.{IsScannerKey, IsJudged, record_receipt-IsJudged}
use evgl_api.Admission.Entitled.{IsEntitled, IsIssuer, register_token-IsEntitled}
use evgl_api.Examples.AdmissionRuns.{toy, zeros, descriptor, claims, earlier}

abbrev schema : AdmissionSchema
schema = record {
  default_status = "active";
  default_revoked_at = none;
  sha256 = λ bytes. bytes;
  revoke_admission_entitlement = λ t now db. (ok none, db);
  record_admission_receipt = λ row db. (ok (some row.receipt.claims.receipt_id), db);
}

abbrev order : OrderRow
order = record { id = 13; event_id = 5; status = "paid" }

abbrev empty : Registry
empty = record {
  signing_keys = [];
  scanner_keys = [];
  entitlements = [];
  tokens = [];
  ticket_orders = order ∷ [];
}

abbrev with_key : Registry
with_key = (register_signing_key toy descriptor empty).1

key_registered : register_signing_key toy descriptor empty ≡ (ok tt, with_key)
unfolding register_signing_key is_blank decode_verifying_key validate_descriptor
key_registered = refl

-- Another window under the same name.
abbrev longer : AdmissionVerificationKey
longer = record descriptor { retire_at = 7200 }

longer_shape : validate_descriptor toy longer ≡ ok tt
unfolding validate_descriptor is_blank decode_verifying_key
longer_shape = refl

key_bytes : decode_bytes toy 32 descriptor.public_key ≡ ok (7 ∷ zeros 31)
unfolding decode_bytes
key_bytes = refl

register_signing_key_again_example : register_signing_key toy longer with_key ≡ (
  if same_signing_key
        (signing_key_row toy longer (7 ∷ zeros 31))
        (signing_key_row toy descriptor (7 ∷ zeros 31))
      then ok tt
      else err (policy "signing key id is already bound to different key material or epochs"),
  with_key,
)
register_signing_key_again_example =
    register_signing_key_again toy descriptor longer (7 ∷ zeros 31) (7 ∷ zeros 31) empty with_key
      key_bytes key_registered longer_shape key_bytes refl

abbrev with_entitlement : Registry
with_entitlement = (register_entitlement schema 12 13 5 (pos 1) 60 with_key).1

abbrev with_token : Registry
with_token = (register_token schema toy claims with_entitlement).1

token_registered : register_token schema toy claims with_entitlement ≡ (ok tt, with_token)
unfolding register_token register_entitlement register_signing_key is_blank decode_verifying_key
    validate_descriptor
token_registered = refl

register_token-IsEntitled_example :
    ((r : EntitlementRow) × In r with_entitlement.entitlements × IsEntitled claims r)
    × ((k : SigningKeyRow) × In k with_entitlement.signing_keys × IsIssuer claims k)
    × (with_token.entitlements ≡ with_entitlement.entitlements)
    × (with_token.signing_keys ≡ with_entitlement.signing_keys)
    × (with_token.scanner_keys ≡ with_entitlement.scanner_keys)
    × (with_token.ticket_orders ≡ with_entitlement.ticket_orders)
register_token-IsEntitled_example =
    register_token-IsEntitled schema toy claims with_entitlement with_token token_registered

abbrev with_scanner : Registry
with_scanner =
    (register_scanner_key toy 1 "scanner-1" (map (λ b. b + 47) (3 ∷ zeros 31)) 0 3600 with_token).1

recorded : record_receipt schema toy earlier 300 with_scanner ≡ (ok 10, with_scanner)
unfolding record_receipt verify_scan_receipt candidate is_candidate register_scanner_key
    register_token register_entitlement register_signing_key is_blank decode_verifying_key
    validate_descriptor decode_signature
recorded = refl

record_receipt-IsJudged_example :
    (key : ScannerKeyRow) × In key with_scanner.scanner_keys
    × IsScannerKey toy earlier key
    × (row : ReceiptRow) × (row.receipt ≡ earlier)
    × (schema.record_admission_receipt row with_scanner ≡ (ok (some 10), with_scanner))
    × IsJudged schema toy earlier with_scanner row
record_receipt-IsJudged_example =
    record_receipt-IsJudged schema toy earlier 300 10 with_scanner with_scanner recorded

-- The outcomes of the ticket 12, and one of another ticket.
abbrev outcome : ℕ → ℕ → AdmissionOutcome → Option String → AdmissionReceiptOutcome
outcome id ticket o reason = record {
  receipt_id = id;
  ticket_id = ticket;
  outcome = o;
  reason = reason;
  winning_receipt_id = some 7;
}

abbrev repeated : AdmissionReceiptOutcome
repeated = outcome 9 12 duplicate_review (some "duplicate admission receipt")

abbrev recorded_outcomes : List AdmissionReceiptOutcome
recorded_outcomes = repeated ∷ outcome 8 11 accepted none ∷ outcome 7 12 accepted none ∷ []

outcomes-outcome_row_example :
    outcomes 12 (map outcome_row recorded_outcomes)
    ≡ ok (outcome 7 12 accepted none ∷ repeated ∷ [])
outcomes-outcome_row_example = outcomes-outcome_row 12 recorded_outcomes
