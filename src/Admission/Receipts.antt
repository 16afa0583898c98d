-- ===== src/Admission/Receipts.antt =====
-- src/admission.rs: scan receipts, their signatures, and the reconciliation of receipts for the same
-- ticket. `winners`, a BTreeMap, is a function from the ticket to the receipt.
use evgl_api.Base.{
  ℕ, Bool, true, false, ◌||◌, not, ◌==◌, ltb, str_eq, if◌then◌else◌, String, Option, none, some,
  List, [], ◌∷◌, map,
}
use mathlib.Core.Option as Opt
use evgl_api.Base.Int.{ltb_ℤ, eqb_ℤ}
use evgl_api.Rust.{Result, ok, ◌>>=◌, ◌>>◌, ok_or, map_err, fail_if}
use evgl_api.Admission.Wire.{
  AdmissionCrates, ScanReceiptClaims, SignedScanReceipt, AdmissionError, malformed,
  invalid_signature, policy, decode_signature, decode_verifying_key,
}

pub record ScannerReceiptSigner (C : AdmissionCrates) : Type 0 where
  pub scanner_id : ℕ
  pub key_id : String
  pub signing_key : C.SigningKey

module _ (C : AdmissionCrates) where
  unfoldable pub public_key : ScannerReceiptSigner C → List ℕ
  public_key signer = C.encode (C.as_bytes (C.verifying_key signer.signing_key))

  unfoldable pub sign_receipt :
      ScannerReceiptSigner C → ScanReceiptClaims → Result SignedScanReceipt AdmissionError
  sign_receipt signer claims = do
    map_err policy (C.validate_receipt claims)
    fail_if
        (not (claims.scanner_id == signer.scanner_id)
          || not (str_eq claims.scanner_key_id signer.key_id))
        (policy "receipt scanner or key identity does not match signer")
    payload ← ok_or (C.receipt_to_vec claims) malformed
    ok (record { claims = claims; signature = C.encode (C.sign_bytes signer.signing_key payload) })

  unfoldable pub verify_scan_receipt : SignedScanReceipt → List ℕ → Result (Unit {0}) AdmissionError
  verify_scan_receipt receipt public_key_text = do
    map_err (λ _. malformed) (C.validate_receipt receipt.claims)
    verifying_key ← decode_verifying_key C public_key_text
    signature ← decode_signature C receipt.signature
    payload ← ok_or (C.receipt_to_vec receipt.claims) malformed
    fail_if (not (C.verify_bytes verifying_key payload signature)) invalid_signature

pub data AdmissionOutcome : Type 0 where
  accepted duplicate_review rejected : AdmissionOutcome

pub record AdmissionReceiptOutcome : Type 0 where
  pub receipt_id : ℕ
  pub ticket_id : ℕ
  pub outcome : AdmissionOutcome
  pub reason : Option String
  pub winning_receipt_id : Option ℕ

-- The order of the tuples that `receipt_order_key` gives.
unfoldable pub precedes : SignedScanReceipt → SignedScanReceipt → Bool
precedes a b =
    if ltb a.claims.scanned_at b.claims.scanned_at
    then true
    else if not (a.claims.scanned_at == b.claims.scanned_at)
    then false
    else if ltb a.claims.scanner_id b.claims.scanner_id
    then true
    else if not (a.claims.scanner_id == b.claims.scanner_id)
    then false
    else if ltb_ℤ a.claims.scanner_sequence b.claims.scanner_sequence
    then true
    else if not (eqb_ℤ a.claims.scanner_sequence b.claims.scanner_sequence)
    then false
    else ltb a.claims.receipt_id b.claims.receipt_id

abbrev pub Winners : Type 0
Winners = ℕ → Option SignedScanReceipt

-- `and_modify` and `or_insert`
unfoldable pub better : SignedScanReceipt → Option SignedScanReceipt → SignedScanReceipt
better receipt none = receipt
better receipt (some winner) = if precedes receipt winner then receipt else winner

unfoldable pub enter : SignedScanReceipt → Winners → Winners
enter receipt winners ticket =
    if ticket == receipt.claims.ticket_id
    then some (better receipt (winners ticket))
    else winners ticket

unfoldable pub winners_from : Winners → List SignedScanReceipt → Winners
winners_from winners [] = winners
winners_from winners (receipt ∷ receipts) = winners_from (enter receipt winners) receipts

is_some_id : Option ℕ → ℕ → Bool
is_some_id none id = false
is_some_id (some winning) id = winning == id

unfoldable pub outcome_of : Winners → SignedScanReceipt → AdmissionReceiptOutcome
unfolding is_some_id
outcome_of winners receipt =
    let winning_receipt_id =
      Opt.map (λ (w : SignedScanReceipt). w.claims.receipt_id) (winners receipt.claims.ticket_id) in
    let is_winner = is_some_id winning_receipt_id receipt.claims.receipt_id in
    record {
      receipt_id = receipt.claims.receipt_id;
      ticket_id = receipt.claims.ticket_id;
      outcome = if is_winner then accepted else duplicate_review;
      reason = if is_winner then none else some "duplicate admission receipt";
      winning_receipt_id = winning_receipt_id;
    }

unfoldable pub reconcile_verified_receipts : List SignedScanReceipt → List AdmissionReceiptOutcome
reconcile_verified_receipts receipts =
    let winners = winners_from (λ _. none) receipts in map (outcome_of winners) receipts
