-- ===== src/Admission/Laws.antt =====
-- What src/admission.rs relies on in its crates: base64 without padding reads what it writes and
-- writes no dot, Ed25519 keys have 32 bytes and signatures 64, a signature verifies under the key of
-- its signer, and serde reads the claims that it writes. Then the decoders at encoded values.
use evgl_api.Base.{ℕ, true, false, ◌≡◌, refl, some, List, [], ◌∷◌, ◌++◌, ◌==◌, any, length, arith}
use evgl_api.Rust.{ok}
use evgl_api.Admission.Wire.{
  AdmissionCrates, AdmissionTokenClaims, is_empty, split, decode_signature, decode_compact,
  decode_verifying_key,
}

pub record CrateLaws (C : AdmissionCrates) : Type 0 where
  pub decode-encode : (bytes : List ℕ) → C.decode (C.encode bytes) ≡ some bytes
  pub encode-no_dot : (bytes : List ℕ) → any (λ c. c == b'.') (C.encode bytes) ≡ false
  pub encode-nonempty :
      (bytes : List ℕ) → is_empty bytes ≡ false → is_empty (C.encode bytes) ≡ false
  pub length-as_bytes : (key : C.VerifyingKey) → length (C.as_bytes key) ≡ 32
  pub from_bytes-as_bytes : (key : C.VerifyingKey) → C.from_bytes (C.as_bytes key) ≡ some key
  pub length-sign_bytes :
      (key : C.SigningKey) (message : List ℕ) → length (C.sign_bytes key message) ≡ 64
  pub verify-sign :
      (key : C.SigningKey) (message : List ℕ)
      → C.verify_bytes (C.verifying_key key) message (C.sign_bytes key message) ≡ true
  pub claims_to_vec-nonempty :
      (claims : AdmissionTokenClaims) (payload : List ℕ)
      → C.claims_to_vec claims ≡ some payload
      → is_empty payload ≡ false
  pub claims-from-to :
      (claims : AdmissionTokenClaims) (payload : List ℕ)
      → C.claims_to_vec claims ≡ some payload
      → C.claims_from_slice payload ≡ some claims

split-no_sep :
    (sep : ℕ) (text : List ℕ) → any (λ c. c == sep) text ≡ false → split sep text ≡ text ∷ []
unfolding split
split-no_sep sep [] h = refl
split-no_sep sep (c ∷ text) h = ground (arith, split-no_sep sep text)

-- A text is cut at its first separator.
split-append :
    (sep : ℕ) (left right : List ℕ)
    → any (λ c. c == sep) left ≡ false
    → split sep (left ++ (sep ∷ right)) ≡ left ∷ split sep right
unfolding split
split-append sep [] right h = ground arith
split-append sep (c ∷ left) right h = ground (arith, split-append sep left right)

module _ (C : AdmissionCrates) (L : CrateLaws C) where
  nonempty_of_length : (bytes : List ℕ) → length bytes ≡ 64 → is_empty bytes ≡ false
  nonempty_of_length [] h = absurd (omega arith)
  nonempty_of_length (b ∷ bytes) h = refl

  pub decode_signature-encode :
      (signature : List ℕ)
      → length signature ≡ 64
      → decode_signature C (C.encode signature) ≡ ok signature
  unfolding decode_signature
  decode_signature-encode signature h = ground (arith, L.decode-encode signature)

  pub decode_verifying_key-encode :
      (key : C.VerifyingKey) → decode_verifying_key C (C.encode (C.as_bytes key)) ≡ ok key
  unfolding decode_verifying_key
  decode_verifying_key-encode key =
      ground
        (arith, L.decode-encode (C.as_bytes key), L.length-as_bytes key, L.from_bytes-as_bytes key)

  -- The compact form of a payload and a signature is taken apart into the two.
  pub decode_compact-encode :
      (payload signature : List ℕ)
      → is_empty payload ≡ false
      → length signature ≡ 64
      → decode_compact C (C.encode payload ++ (b'.' ∷ C.encode signature)) ≡ ok (payload, signature)
  unfolding decode_compact
  decode_compact-encode payload signature h k =
      rw
        (
          split-append b'.' (C.encode payload) (C.encode signature) (L.encode-no_dot payload),
          split-no_sep b'.' (C.encode signature) (L.encode-no_dot signature),
          L.encode-nonempty payload h,
          L.encode-nonempty signature (nonempty_of_length signature k),
          L.decode-encode payload,
          decode_signature-encode signature k,
        )
        refl
