-- ===== src/Admission/Wire.antt =====
-- src/admission.rs: the values of evgl_interfaces::admission, the crates it calls as parameters,
-- the errors, and the decoders of keys, signatures and compact tokens. A text that carries bytes (a
-- key, a signature, a compact token) is the list of its ASCII bytes.
use Prim.Native.Char.{code}
use evgl_api.Base.{
  ℕ, Bool, true, false, ◌||◌, ◌&&◌, ◌==◌, leb, if◌then◌else◌, String, Option, List, [], ◌∷◌, length,
}
use evgl_api.Base.Int.{ℤ, pos, ltb_ℤ}
use evgl_api.Rust.{Result, ok, err, ◌>>=◌, ◌>>◌, ok_or, fail_if}

pub record AdmissionTokenClaims : Type 0 where
  pub version : ℕ
  pub token_id : ℕ
  pub event_id : ℕ
  pub ticket_id : ℕ
  pub order_id : ℕ
  pub issuance_epoch : ℤ
  pub key_id : String
  pub issued_at : ℕ
  pub expires_at : ℕ

pub record AdmissionVerificationKey : Type 0 where
  pub key_id : String
  pub issuance_epoch : ℤ
  pub public_key : List ℕ
  pub active_from : ℕ
  pub retire_at : ℕ

pub record AdmissionRevocation : Type 0 where
  pub ticket_id : ℕ
  pub issuance_epoch : ℤ
  pub revoked_at : ℕ

pub record AdmissionKeySnapshot : Type 0 where
  pub snapshot_id : ℕ
  pub event_id : ℕ
  pub generated_at : ℕ
  pub valid_until : ℕ
  pub keys : List AdmissionVerificationKey
  pub revocations : List AdmissionRevocation

pub record ScanReceiptClaims : Type 0 where
  pub receipt_id : ℕ
  pub scanner_id : ℕ
  pub scanner_key_id : String
  pub scanner_sequence : ℤ
  pub token_id : ℕ
  pub event_id : ℕ
  pub ticket_id : ℕ
  pub order_id : ℕ
  pub scanned_at : ℕ

pub record SignedScanReceipt : Type 0 where
  pub claims : ScanReceiptClaims
  pub signature : List ℕ

pub data AdmissionError : Type 0 where
  malformed invalid_signature wrong_event expired revoked unknown_key retired_key stale_snapshot :
      AdmissionError
  policy database : String → AdmissionError

-- `Display`
unfoldable pub show_admission_error : AdmissionError → String
show_admission_error malformed = "malformed admission data"
show_admission_error invalid_signature = "invalid admission signature"
show_admission_error wrong_event = "admission token belongs to another event"
show_admission_error expired = "admission token is expired or not yet active"
show_admission_error revoked = "admission entitlement is revoked"
show_admission_error unknown_key = "admission signing key is unknown"
show_admission_error retired_key = "admission signing key is outside its window"
show_admission_error stale_snapshot = "scanner key/revocation snapshot is stale"
show_admission_error (policy message) = message
show_admission_error (database message) = message

-- The functions of ed25519_dalek, base64, serde_json and evgl_interfaces that the code calls. A
-- `Signature` is its 64 bytes: `Signature::from_bytes` takes any, and `to_bytes` gives them back.
pub record AdmissionCrates : Type 1 where
  pub SigningKey : Type 0
  pub VerifyingKey : Type 0
  pub verifying_key : SigningKey → VerifyingKey
  pub as_bytes : VerifyingKey → List ℕ
  pub from_bytes : List ℕ → Option VerifyingKey
  pub sign_bytes : SigningKey → List ℕ → List ℕ
  pub verify_bytes : VerifyingKey → List ℕ → List ℕ → Bool
  -- URL_SAFE_NO_PAD
  pub encode : List ℕ → List ℕ
  pub decode : List ℕ → Option (List ℕ)
  pub claims_to_vec : AdmissionTokenClaims → Option (List ℕ)
  pub claims_from_slice : List ℕ → Option AdmissionTokenClaims
  pub receipt_to_vec : ScanReceiptClaims → Option (List ℕ)
  -- `validate_shape`, with the text of its error
  pub validate_claims : AdmissionTokenClaims → Result (Unit {0}) String
  pub validate_snapshot : AdmissionKeySnapshot → Result (Unit {0}) String
  pub validate_receipt : ScanReceiptClaims → Result (Unit {0}) String

abbrev pub is_empty : List ℕ → Bool
is_empty [] = true
is_empty (x ∷ xs) = false

-- `char::is_whitespace`
unfoldable pub is_whitespace : ℕ → Bool
is_whitespace c =
    (leb 9 c && leb c 13)
    || c == 0x20
    || c == 0x85
    || c == 0xA0
    || c == 0x1680
    || (leb 0x2000 c && leb c 0x200A)
    || c == 0x2028
    || c == 0x2029
    || c == 0x202F
    || c == 0x205F
    || c == 0x3000

-- `trim().is_empty()`
unfoldable pub is_blank : String → Bool
unfolding is_whitespace
is_blank String.[] = true
is_blank (String.◌∷◌ c s) = is_whitespace (code c) && is_blank s

extend : Bool → ℕ → List (List ℕ) → List (List ℕ)
extend true c parts = [] ∷ parts
extend false c [] = (c ∷ []) ∷ []
extend false c (p ∷ parts) = (c ∷ p) ∷ parts

-- `str::split` at one character
unfoldable pub split : ℕ → List ℕ → List (List ℕ)
unfolding extend
split sep [] = [] ∷ []
split sep (c ∷ text) = extend (c == sep) c (split sep text)

module _ (C : AdmissionCrates) where
  unfoldable pub decode_bytes : ℕ → List ℕ → Result (List ℕ) AdmissionError
  decode_bytes n value = do
    bytes ← ok_or (C.decode value) malformed
    if length bytes == n then ok bytes else err malformed

  unfoldable pub decode_signature : List ℕ → Result (List ℕ) AdmissionError
  unfolding decode_bytes
  decode_signature value = decode_bytes 64 value

  unfoldable pub decode_verifying_key : List ℕ → Result C.VerifyingKey AdmissionError
  unfolding decode_bytes
  decode_verifying_key value = do
    bytes ← decode_bytes 32 value
    ok_or (C.from_bytes bytes) malformed

  -- The components of the text, from the first on.
  unfoldable pub decode_components : List (List ℕ) → Result (List ℕ × List ℕ) AdmissionError
  unfolding decode_signature
  decode_components [] = err malformed
  decode_components (payload ∷ []) = err malformed
  decode_components (payload ∷ signature ∷ []) = do
    fail_if (is_empty payload || is_empty signature) malformed
    bytes ← ok_or (C.decode payload) malformed
    signature_bytes ← decode_signature signature
    ok (bytes, signature_bytes)
  decode_components (payload ∷ signature ∷ more ∷ rest) = err malformed

  unfoldable pub decode_compact : List ℕ → Result (List ℕ × List ℕ) AdmissionError
  unfolding split decode_components
  decode_compact compact = decode_components (split b'.' compact)

  unfoldable pub validate_descriptor : AdmissionVerificationKey → Result (Unit {0}) AdmissionError
  unfolding is_blank decode_verifying_key
  validate_descriptor d = do
    fail_if (is_blank d.key_id || ltb_ℤ d.issuance_epoch (pos 0) || leb d.retire_at d.active_from)
        (policy "invalid admission verification key")
    _ ← decode_verifying_key d.public_key
    ok tt
