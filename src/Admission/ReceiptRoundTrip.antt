-- ===== src/Admission/ReceiptRoundTrip.antt =====
-- A receipt that `ScannerReceiptSigner` of src/admission.rs signs, and its verification.
use evgl_api.Base.{ℕ, ◌≡◌, some, List, ap, ◌∙◌, str_eq_iff, arith, inl, inr, Option-cases}
use evgl_api.Rust.{ok}
use evgl_api.Admission.Wire.{
  AdmissionCrates, ScanReceiptClaims, SignedScanReceipt, decode_signature,
}
use evgl_api.Admission.Laws.{CrateLaws, decode_signature-encode, decode_verifying_key-encode}
use evgl_api.Admission.Receipts.{
  ScannerReceiptSigner, public_key, sign_receipt, verify_scan_receipt,
}

module _ (C : AdmissionCrates) where
  -- What `sign_receipt` has checked and produced where it succeeds.
  record IsReceipted (signer : ScannerReceiptSigner C) (claims : ScanReceiptClaims)
      (receipt : SignedScanReceipt) : Type 0 where
    shape : C.validate_receipt claims ≡ ok tt
    scanner : claims.scanner_id ≡ signer.scanner_id
    key : claims.scanner_key_id ≡ signer.key_id
    payload : List ℕ
    written : C.receipt_to_vec claims ≡ some payload
    kept : receipt.claims ≡ claims
    signature : receipt.signature ≡ C.encode (C.sign_bytes signer.signing_key payload)

  sign_receipt-IsReceipted :
      (signer : ScannerReceiptSigner C) (claims : ScanReceiptClaims) (receipt : SignedScanReceipt)
      → sign_receipt C signer claims ≡ ok receipt
      → IsReceipted signer claims receipt
  unfolding sign_receipt
  sign_receipt-IsReceipted signer claims receipt h = elim (Option-cases (C.receipt_to_vec claims)) [
    | inl bad ↦ ground (arith, bad)
    | inr (payload, written) ↦ record {
      shape = ground arith;
      scanner = ground arith;
      key = ground (arith, str_eq_iff claims.scanner_key_id signer.key_id);
      payload = payload;
      written = written;
      kept = ground arith;
      signature = ground arith;
    }
  ]

  -- A signed receipt carries the claims unchanged, under the id and key of its scanner, and verifies
  -- under the public key of the signer.
  pub sign-verify_receipt :
      (L : CrateLaws C) (signer : ScannerReceiptSigner C) (claims : ScanReceiptClaims)
      (receipt : SignedScanReceipt)
      → sign_receipt C signer claims ≡ ok receipt
      → (receipt.claims ≡ claims)
        × (claims.scanner_id ≡ signer.scanner_id)
        × (claims.scanner_key_id ≡ signer.key_id)
        × (verify_scan_receipt C receipt (public_key C signer) ≡ ok tt)
  unfolding verify_scan_receipt public_key
  sign-verify_receipt L signer claims receipt h =
      let i = sign_receipt-IsReceipted signer claims receipt h in
      let key = C.verifying_key signer.signing_key in
      let signed = C.sign_bytes signer.signing_key i.payload in
      let shape : C.validate_receipt receipt.claims ≡ ok tt =
        ap C.validate_receipt i.kept ∙ i.shape in
      let written : C.receipt_to_vec receipt.claims ≡ some i.payload =
        ap C.receipt_to_vec i.kept ∙ i.written in
      let signature : decode_signature C receipt.signature ≡ ok signed =
        ap (decode_signature C) i.signature
        ∙ decode_signature-encode C L signed (L.length-sign_bytes signer.signing_key i.payload) in
      (
        i.kept,
        i.scanner,
        i.key,
        ground (
          arith,
          shape,
          written,
          signature,
          decode_verifying_key-encode C L key,
          L.verify-sign signer.signing_key i.payload,
        ),
      )
