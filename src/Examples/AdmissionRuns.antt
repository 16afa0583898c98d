-- ===== src/Examples/AdmissionRuns.antt =====
-- A signer, a scanner with a snapshot, and receipts of two scanners for one ticket. The crates are
-- stood for by functions that keep their laws: keys are numbers, a signature names its key.
use evgl_api.Base.{
  ℕ, zero, suc, ◌+◌, ◌-◌, Bool, false, ◌≡◌, refl, ap, none, some, Option, List, [], ◌∷◌, ◌++◌, map,
  any, ◌==◌, ==_refl, In, inl, inr, All, count, if◌then◌else◌, str_eq, str_eq_iff, arith,
  Bool-cases, String,
}
use evgl_api.Base.Int.{ℤ, pos, pos_part, neg_part, sub_ℕ}
use evgl_api.Rust.{ok}
use evgl_api.Admission.Wire.{
  AdmissionCrates, AdmissionTokenClaims, AdmissionVerificationKey, AdmissionKeySnapshot,
  AdmissionRevocation, ScanReceiptClaims, SignedScanReceipt, is_empty, decode_verifying_key,
  is_blank,
}
use evgl_api.Admission.Laws.{CrateLaws}
use evgl_api.Admission.Tokens.{AdmissionTokenSigner, new_signer, sign_token, verify_admission_token}
use evgl_api.Admission.Acceptance.{IsAdmissible, verify-IsAdmissible, verify_of_IsAdmissible}
use evgl_api.Admission.RoundTrip.{sign-verify, IsScannable}
use evgl_api.Admission.Receipts.{
  AdmissionReceiptOutcome, ScannerReceiptSigner, public_key, sign_receipt, verify_scan_receipt,
  reconcile_verified_receipts,
}
use evgl_api.Admission.ReceiptRoundTrip.{sign-verify_receipt}
use evgl_api.Admission.Reconcile.{
  reconcile_order, reconcile_winner, reconcile_one, admits, IsDecided,
}

abbrev pub zeros : ℕ → List ℕ
zeros zero = []
zeros (suc n) = 0 ∷ zeros n

abbrev first : List ℕ → Option ℕ
first [] = none
first (b ∷ bytes) = some b

abbrev names_key : ℕ → List ℕ → Bool
names_key key [] = false
names_key key (b ∷ bytes) = b == key

abbrev write_claims : AdmissionTokenClaims → Option (List ℕ)
write_claims c =
    if str_eq c.key_id "key-1"
    then some (
        c.version
        ∷ c.token_id
        ∷ c.event_id
        ∷ c.ticket_id
        ∷ c.order_id
        ∷ pos_part c.issuance_epoch
        ∷ neg_part c.issuance_epoch
        ∷ c.issued_at
        ∷ c.expires_at
        ∷ [])
    else none

abbrev read_claims : List ℕ → Option AdmissionTokenClaims
read_claims (version ∷ token ∷ event ∷ ticket ∷ order ∷ p ∷ n ∷ issued ∷ expires ∷ []) =
    some (record {
      version = version;
      token_id = token;
      event_id = event;
      ticket_id = ticket;
      order_id = order;
      issuance_epoch = sub_ℕ p n;
      key_id = "key-1";
      issued_at = issued;
      expires_at = expires;
    })
read_claims _ = none

abbrev pub toy : AdmissionCrates
toy = record {
  SigningKey = ℕ;
  VerifyingKey = ℕ;
  verifying_key = λ k. k;
  as_bytes = λ k. k ∷ zeros 31;
  from_bytes = first;
  sign_bytes = λ k m. k ∷ zeros 63;
  verify_bytes = λ k m s. names_key k s;
  encode = map (λ b. b + 47);
  decode = λ t. some (map (λ b. b - 47) t);
  claims_to_vec = write_claims;
  claims_from_slice = read_claims;
  receipt_to_vec = λ c. some (c.receipt_id ∷ []);
  validate_claims = λ c. ok tt;
  validate_snapshot = λ s. ok tt;
  validate_receipt = λ c. ok tt;
}

shift-back : (bytes : List ℕ) → map (λ b. b - 47) (map (λ b. b + 47) bytes) ≡ bytes
shift-back [] = refl
shift-back (b ∷ bytes) = ground (arith, shift-back bytes)

shift-no_dot : (bytes : List ℕ) → any (λ c. c == 46) (map (λ b. b + 47) bytes) ≡ false
shift-no_dot [] = refl
shift-no_dot (b ∷ bytes) = ground (arith, shift-no_dot bytes)

shift-nonempty :
    (bytes : List ℕ) → is_empty bytes ≡ false → is_empty (map (λ b. b + 47) bytes) ≡ false
shift-nonempty [] h = h
shift-nonempty (b ∷ bytes) h = refl

sub_parts : (a : ℤ) → sub_ℕ (pos_part a) (neg_part a) ≡ a
sub_parts a = ground arith

write-nonempty :
    (claims : AdmissionTokenClaims) (payload : List ℕ)
    → write_claims claims ≡ some payload
    → is_empty payload ≡ false
write-nonempty claims payload h = ground arith

read-write :
    (claims : AdmissionTokenClaims) (payload : List ℕ)
    → write_claims claims ≡ some payload
    → read_claims payload ≡ some claims
read-write claims payload h = elim (Bool-cases (str_eq claims.key_id "key-1")) [
  | inl same ↦
      let written = rw same at h in
      let named : claims.key_id ≡ "key-1" = (str_eq_iff claims.key_id "key-1").0 same in
      ground (arith, written, named, sub_parts claims.issuance_epoch)
  | inr other ↦ ground arith
]

toy_laws : CrateLaws toy
toy_laws = record {
  decode-encode = λ b. ap some (shift-back b);
  encode-no_dot = shift-no_dot;
  encode-nonempty = shift-nonempty;
  length-as_bytes = λ k. omega arith;
  from_bytes-as_bytes = λ k. refl;
  length-sign_bytes = λ k m. omega arith;
  verify-sign = λ k m. ==_refl k;
  claims_to_vec-nonempty = write-nonempty;
  claims-from-to = read-write;
}

abbrev pub descriptor : AdmissionVerificationKey
descriptor = record {
  key_id = "key-1";
  issuance_epoch = pos 1;
  public_key = map (λ b. b + 47) (7 ∷ zeros 31);
  active_from = 0;
  retire_at = 3600;
}

abbrev signer : AdmissionTokenSigner toy
signer = record { signing_key = 7; descriptor = descriptor; max_lifetime = pos 600 }

abbrev pub claims : AdmissionTokenClaims
claims = record {
  version = 1;
  token_id = 11;
  event_id = 5;
  ticket_id = 12;
  order_id = 13;
  issuance_epoch = pos 1;
  key_id = "key-1";
  issued_at = 100;
  expires_at = 700;
}

abbrev compact : List ℕ
compact =
    map (λ b. b + 47) (1 ∷ 11 ∷ 5 ∷ 12 ∷ 13 ∷ 1 ∷ 0 ∷ 100 ∷ 700 ∷ [])
    ++ (46 ∷ map (λ b. b + 47) (7 ∷ zeros 63))

abbrev snapshot : AdmissionKeySnapshot
snapshot = record {
  snapshot_id = 1;
  event_id = 5;
  generated_at = 50;
  valid_until = 1800;
  keys = descriptor ∷ [];
  revocations = [];
}

made : new_signer toy 7 "key-1" (pos 1) 0 3600 (pos 600) ≡ ok signer
unfolding new_signer is_blank decode_verifying_key
made = refl

signed : sign_token toy signer claims ≡ ok compact
unfolding sign_token
signed = refl

scannable : IsScannable toy descriptor claims snapshot 5 200
scannable = record {
  snapshot_shape = refl;
  snapshot_event = refl;
  claims_event = refl;
  fresh = omega arith;
  active = omega arith;
  bounded = omega arith;
  listed = refl;
  unrevoked = refl;
}

sign-verify_example : verify_admission_token toy compact snapshot 5 200 ≡ ok claims
sign-verify_example =
    sign-verify toy toy_laws 7 "key-1" (pos 1) 0 3600 (pos 600) signer claims compact snapshot 5 200
      made signed scannable

verify-IsAdmissible_example : IsAdmissible toy snapshot 5 200 compact claims
verify-IsAdmissible_example =
    verify-IsAdmissible toy snapshot 5 200 compact claims sign-verify_example

verify_of_IsAdmissible_example : verify_admission_token toy compact snapshot 5 200 ≡ ok claims
verify_of_IsAdmissible_example =
    verify_of_IsAdmissible toy snapshot 5 200 compact claims verify-IsAdmissible_example

abbrev revocation : AdmissionRevocation
revocation = record { ticket_id = 12; issuance_epoch = pos 1; revoked_at = 150 }

abbrev revoking : AdmissionKeySnapshot
revoking = record snapshot { revocations = revocation ∷ [] }

abbrev scanner : ScannerReceiptSigner toy
scanner = record { scanner_id = 1; key_id = "scanner-1"; signing_key = 3 }

abbrev scan : ℕ → ℕ → ScanReceiptClaims
scan receipt scanner_id = record {
  receipt_id = receipt;
  scanner_id = scanner_id;
  scanner_key_id = "scanner-1";
  scanner_sequence = pos 1;
  token_id = 11;
  event_id = 5;
  ticket_id = 12;
  order_id = 13;
  scanned_at = 200;
}

abbrev pub earlier : SignedScanReceipt
earlier = record { claims = scan 10 1; signature = map (λ b. b + 47) (3 ∷ zeros 63) }

abbrev later : SignedScanReceipt
later = record { claims = scan 20 2; signature = [] }

receipted : sign_receipt toy scanner (scan 10 1) ≡ ok earlier
unfolding sign_receipt
receipted = refl

sign-verify_receipt_example :
    (earlier.claims ≡ scan 10 1)
    × (◌≡◌ {A = ℕ} 1 1)
    × (◌≡◌ {A = String} "scanner-1" "scanner-1")
    × (verify_scan_receipt toy earlier (public_key toy scanner) ≡ ok tt)
sign-verify_receipt_example = sign-verify_receipt toy toy_laws scanner (scan 10 1) earlier receipted

-- Delivered in either order, and the later one twice.
reconcile_order_example :
    All
      (λ o. In o (reconcile_verified_receipts (later ∷ earlier ∷ [])))
      (reconcile_verified_receipts (earlier ∷ later ∷ later ∷ []))
reconcile_order_example =
    reconcile_order (earlier ∷ later ∷ later ∷ []) (later ∷ earlier ∷ [])
      (inr (inl refl), (inl refl, (inl refl, tt))) (inr (inl refl), (inl refl, tt))

reconcile_winner_example :
    (map {B = ℕ × ℕ}
        (λ (o : AdmissionReceiptOutcome). (o.receipt_id, o.ticket_id))
        (reconcile_verified_receipts (later ∷ earlier ∷ []))
      ≡ map {B = ℕ × ℕ}
          (λ (r : SignedScanReceipt). (r.claims.receipt_id, r.claims.ticket_id))
          (later ∷ earlier ∷ []))
    × All (IsDecided (later ∷ earlier ∷ [])) (reconcile_verified_receipts (later ∷ earlier ∷ []))
reconcile_winner_example = reconcile_winner (later ∷ earlier ∷ [])

reconcile_one_example : count (admits 12) (reconcile_verified_receipts (later ∷ earlier ∷ [])) ≡ 1
reconcile_one_example =
    reconcile_one (later ∷ earlier ∷ []) earlier (refl, (refl, tt)) (inr (inl refl))
