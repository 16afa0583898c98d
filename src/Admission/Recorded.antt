-- ===== src/Admission/Recorded.antt =====
-- What stands behind a receipt that `record_receipt` of src/admission.rs records.
use evgl_api.Base.{
  ℕ, ◌≤◌, ◌<◌, Bool, true, false, ◌≡◌, refl, subst, String, Option, none, some, List, In, find,
  arith, Option-cases, inl, inr, str_eq_iff,
}
use evgl_api.Base.Search.{find-In}
use evgl_api.Rust.{Result, ok, err, Result-cases}
use evgl_api.Admission.Wire.{
  AdmissionCrates, ScanReceiptClaims, SignedScanReceipt, AdmissionError, decode_bytes,
}
use evgl_api.Admission.Receipts.{verify_scan_receipt}
use evgl_api.Admission.Registry.{
  ScannerKeyRow, EntitlementRow, TokenRow, ReceiptRow, Registry, AdmissionSchema, is_entitlement,
}
use evgl_api.Admission.Enrolment.{is_token}
use evgl_api.Admission.Recording.{
  is_scanners_key, returned, candidate, is_candidate, receipt_row, record_receipt,
}

-- A token and an entitlement that admit a scan.
pub record IsAdmissibleScan (c : ScanReceiptClaims) (t : TokenRow) (e : EntitlementRow)
    : Type 0 where
  pub token : t.token_id ≡ c.token_id
  pub ticket : (t.ticket_id ≡ c.ticket_id) × (e.ticket_id ≡ c.ticket_id)
  pub order : t.order_id ≡ c.order_id
  pub event : t.event_id ≡ c.event_id
  pub unrevoked : t.revoked_at ≡ none
  pub active : (t.issued_at ≤ c.scanned_at) × (c.scanned_at < t.expires_at)
  pub entitled : e.status ≡ "active"
  pub epoch : e.issuance_epoch ≡ t.issuance_epoch

candidate-IsAdmissibleScan :
    (c : ScanReceiptClaims) (db : Registry)
    → candidate c db ≡ some true
    → (t : TokenRow) × (e : EntitlementRow) × In t db.tokens
      × In e db.entitlements
      × IsAdmissibleScan c t e
unfolding candidate is_candidate
candidate-IsAdmissibleScan c db h = elim (Option-cases (find (is_token c.token_id) db.tokens)) [
  | inl missing ↦ ground (arith, missing)
  | inr (t, found) ↦ elim (Option-cases (find (is_entitlement t.ticket_id) db.entitlements)) [
    | inl missing ↦ ground (arith, found, missing)
    | inr (e, entitled) ↦
        let a = find-In (is_token c.token_id) db.tokens t found in
        let b = find-In (is_entitlement t.ticket_id) db.entitlements e entitled in
        let passes : is_candidate c t e ≡ true = ground (arith, found, entitled) in
        (
          t,
          e,
          a.0,
          b.0,
          record {
            token = ground (arith, a.1);
            ticket = (ground (arith, passes), ground (arith, passes, b.1));
            order = ground (arith, passes);
            event = ground (arith, passes);
            unrevoked = ground (arith, passes);
            active = ground (arith, passes);
            entitled = ground (arith, passes, str_eq_iff e.status "active");
            epoch = ground (arith, passes);
          },
        )
  ]
]

returned-ok :
    {A B : Type 0} (message : String) (f : A → B) (r : Result (Option A) AdmissionError × Registry)
    (b : B) (db' : Registry)
    → returned message f r ≡ (ok b, db')
    → (a : A) × (r ≡ (ok (some a), db')) × (f a ≡ b)
returned-ok message f (err e, db) b db' h = ground arith
returned-ok message f (ok none, db) b db' h = ground arith
returned-ok message f (ok (some a), db) b db' h = (a, ground arith, ground arith)

-- A receipt was signed by the key of its scanner, registered and active when it scanned.
pub record IsScannerKey (C : AdmissionCrates) (receipt : SignedScanReceipt) (key : ScannerKeyRow)
    : Type 0 where
  pub scanner : key.scanner_id ≡ receipt.claims.scanner_id
  pub name : key.key_id ≡ receipt.claims.scanner_key_id
  pub active :
      (key.active_from ≤ receipt.claims.scanned_at) × (receipt.claims.scanned_at < key.retire_at)
  pub signed : verify_scan_receipt C receipt (C.encode key.public_key) ≡ ok tt

module _ (S : AdmissionSchema) (C : AdmissionCrates) where
  -- What `record_receipt` has found and done where it succeeds.
  pub record IsRecorded (receipt : SignedScanReceipt) (received_at id : ℕ) (db db' : Registry)
      : Type 0 where
    pub key : ScannerKeyRow
    pub listed : In key db.scanner_keys
    pub verified : IsScannerKey C receipt key
    pub admissible : Bool
    pub judged : candidate receipt.claims db ≡ some admissible
    pub payload : List ℕ
    pub signature : List ℕ
    pub stored :
        S.record_admission_receipt
          (receipt_row S receipt received_at payload signature admissible)
          db
        ≡ (ok (some id), db')

  record_receipt-IsRecorded :
      (receipt : SignedScanReceipt) (received_at id : ℕ) (db db' : Registry)
      → record_receipt S C receipt received_at db ≡ (ok id, db')
      → IsRecorded receipt received_at id db db'
  unfolding record_receipt
  record_receipt-IsRecorded receipt received_at id db db' h =
      elim (Option-cases (find (is_scanners_key receipt.claims) db.scanner_keys)) [
        | inl bad ↦ ground (arith, bad)
        | inr (key, found) ↦ elim (Option-cases (candidate receipt.claims db)) [
          | inl bad ↦ ground (arith, found, bad)
          | inr (admissible, judged) ↦ elim (Option-cases (C.receipt_to_vec receipt.claims)) [
            | inl bad ↦ ground (arith, found, judged, bad)
            | inr (payload, written) ↦ elim (Result-cases (decode_bytes C 64 receipt.signature)) [
              | inr (e, bad) ↦ ground (arith, found, judged, written, bad)
              | inl (signature, decoded) ↦
                  let signed : verify_scan_receipt C receipt (C.encode key.public_key) ≡ ok tt =
                    ground arith in
                  let r =
                    returned-ok "receipt insert returned no row" (λ i. i)
                      (S.record_admission_receipt
                        (receipt_row S receipt received_at payload signature admissible) db)
                      id db' (rw (found, signed, judged, written, decoded) at h) in
                  let a = find-In (is_scanners_key receipt.claims) db.scanner_keys key found in
                  record {
                    key = key;
                    listed = a.0;
                    verified = record {
                      scanner = ground (arith, a.1);
                      name =
                          ground (arith, a.1, str_eq_iff key.key_id receipt.claims.scanner_key_id);
                      active = ground (arith, a.1);
                      signed = signed;
                    };
                    admissible = admissible;
                    judged = judged;
                    payload = payload;
                    signature = signature;
                    stored =
                        subst
                          (λ i.
                            S.record_admission_receipt
                              (receipt_row S receipt received_at payload signature admissible) db
                            ≡ (ok (some i), db'))
                          r.2 r.1;
                  }
            ]
          ]
        ]
      ]

  -- How a receipt is passed on: as rejected, or as a candidate that a token and an entitlement admit.
  pub data IsJudged (receipt : SignedScanReceipt) (db : Registry) (row : ReceiptRow) : Type 0 where
    refused : row.outcome ≡ "rejected" → IsJudged receipt db row
    admitted :
        (t : TokenRow) (e : EntitlementRow)
        → row.outcome ≡ "candidate"
        → row.reason ≡ none
        → In t db.tokens
        → In e db.entitlements
        → IsAdmissibleScan receipt.claims t e
        → IsJudged receipt db row

  judge :
      (receipt : SignedScanReceipt) (db : Registry) (received_at : ℕ) (payload signature : List ℕ)
      (admissible : Bool)
      → candidate receipt.claims db ≡ some admissible
      → IsJudged receipt db (receipt_row S receipt received_at payload signature admissible)
  unfolding receipt_row
  judge receipt db received_at payload signature false h = refused refl
  judge receipt db received_at payload signature true h =
      let c = candidate-IsAdmissibleScan receipt.claims db h in
      admitted c.0 c.1 refl refl c.2 c.3 c.4

  -- A receipt is recorded only if its signature verifies under a registered key of its scanner that
  -- was active at the scan. It is recorded as a candidate only if its token, not revoked and active
  -- at the scan, and an active entitlement of the token's ticket and epoch admit it, and as rejected
  -- otherwise; the tables are those that the database's function leaves.
  pub record_receipt-IsJudged :
      (receipt : SignedScanReceipt) (received_at id : ℕ) (db db' : Registry)
      → record_receipt S C receipt received_at db ≡ (ok id, db')
      → (key : ScannerKeyRow) × In key db.scanner_keys
        × IsScannerKey C receipt key
        × (row : ReceiptRow) × (row.receipt ≡ receipt)
        × (S.record_admission_receipt row db ≡ (ok (some id), db'))
        × IsJudged receipt db row
  unfolding receipt_row
  record_receipt-IsJudged receipt received_at id db db' h =
      let r = record_receipt-IsRecorded receipt received_at id db db' h in
      (
        r.key,
        r.listed,
        r.verified,
        receipt_row S receipt received_at r.payload r.signature r.admissible,
        refl,
        r.stored,
        judge receipt db received_at r.payload r.signature r.admissible r.judged,
      )
