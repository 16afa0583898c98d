-- ===== src/Admission/Recording.antt =====
-- src/admission.rs: the revocation of entitlements and the recording of scan receipts.
use evgl_api.Base.{
  ℕ, Bool, true, false, ◌&&◌, ◌==◌, ltb, leb, str_eq, if◌then◌else◌, String, Option, none, some,
  List, find,
}
use evgl_api.Base.Int.{eqb_ℤ}
use evgl_api.Rust.{Result, ok, err, ok_or}
use evgl_api.Admission.Wire.{
  AdmissionCrates, ScanReceiptClaims, SignedScanReceipt, AdmissionError, malformed, unknown_key,
  database, decode_bytes,
}
use evgl_api.Admission.Receipts.{verify_scan_receipt}
use evgl_api.Admission.Registry.{
  ScannerKeyRow, EntitlementRow, TokenRow, ReceiptRow, Registry, AdmissionSchema, Action, checked,
  is_scanner_key, is_entitlement,
}
use evgl_api.Admission.Enrolment.{is_token}

-- `.await?.ok_or_else(..)?`
abbrev pub returned :
    {A B : Type 0}
    → String
    → (A → B)
    → Result (Option A) AdmissionError × Registry
    → Result B AdmissionError × Registry
returned message f (err e, db) = (err e, db)
returned message f (ok none, db) = (err (database message), db)
returned message f (ok (some a), db) = (ok (f a), db)

-- A scanner key that is active at the scan.
abbrev pub is_scanners_key : ScanReceiptClaims → ScannerKeyRow → Bool
is_scanners_key c k =
    is_scanner_key c.scanner_id c.scanner_key_id k
    && leb k.active_from c.scanned_at
    && ltb c.scanned_at k.retire_at

abbrev pub is_null : Option ℕ → Bool
is_null none = true
is_null (some t) = false

-- The column `candidate` of the statement in `record_receipt`.
unfoldable pub is_candidate : ScanReceiptClaims → TokenRow → EntitlementRow → Bool
is_candidate c token entitlement =
    token.ticket_id == c.ticket_id
    && token.order_id == c.order_id
    && token.event_id == c.event_id
    && is_null token.revoked_at
    && leb token.issued_at c.scanned_at
    && ltb c.scanned_at token.expires_at
    && str_eq entitlement.status "active"
    && eqb_ℤ entitlement.issuance_epoch token.issuance_epoch

candidate_at : ScanReceiptClaims → Option TokenRow → List EntitlementRow → Option Bool
candidate_at c none entitlements = none
candidate_at c (some token) entitlements =
    elim (find (is_entitlement token.ticket_id) entitlements) [
      | none ↦ none
      | some entitlement ↦ some (is_candidate c token entitlement)
    ]

-- The row of the join of a token with the entitlement of its ticket.
unfoldable pub candidate : ScanReceiptClaims → Registry → Option Bool
unfolding candidate_at
candidate c db = candidate_at c (find (is_token c.token_id) db.tokens) db.entitlements

module _ (S : AdmissionSchema) where
  unfoldable pub revoke_entitlement : ℕ → ℕ → Action (Unit {0})
  revoke_entitlement ticket_id revoked_at db =
      returned "revocation returned no row" (λ epoch. tt)
        (S.revoke_admission_entitlement ticket_id revoked_at db)

  unfoldable pub receipt_row : SignedScanReceipt → ℕ → List ℕ → List ℕ → Bool → ReceiptRow
  receipt_row receipt received_at payload signature admissible = record {
    receipt = receipt;
    received_at = received_at;
    payload_hash = S.sha256 payload;
    signature = signature;
    outcome = if admissible then "candidate" else "rejected";
    reason = if admissible then none else some "token or entitlement is not currently admissible";
  }

  unfoldable pub record_receipt : AdmissionCrates → SignedScanReceipt → ℕ → Action ℕ
  unfolding receipt_row
  record_receipt C receipt received_at db =
      checked (ok_or (find (is_scanners_key receipt.claims) db.scanner_keys) unknown_key)
        (λ key. checked (verify_scan_receipt C receipt (C.encode key.public_key)) λ _.
          checked (ok_or (candidate receipt.claims db) malformed) λ admissible.
            checked (ok_or (C.receipt_to_vec receipt.claims) malformed) λ payload.
              checked (decode_bytes C 64 receipt.signature) λ signature db.
                returned "receipt insert returned no row" (λ id. id)
                  (S.record_admission_receipt
                    (receipt_row receipt received_at payload signature admissible) db))
        db
