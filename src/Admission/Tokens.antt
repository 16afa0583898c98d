-- ===== src/Admission/Tokens.antt =====
-- src/admission.rs: admission tokens, signed by the issuer and verified by a scanner at a snapshot
-- of keys and revocations. Points in time are nanoseconds, a `Duration` is their signed difference.
use evgl_api.Base.{
  ℕ, ◌*◌, Bool, ◌||◌, ◌&&◌, not, ◌==◌, ltb, leb, str_eq, String, List, ◌∷◌, ◌++◌, any, find,
}
use evgl_api.Base.Int.{ℤ, pos, sub_ℕ, ltb_ℤ, leb_ℤ, eqb_ℤ}
use evgl_api.Rust.{Result, ok, ◌>>=◌, ◌>>◌, ok_or, map_err, fail_if}
use evgl_api.Admission.Wire.{
  AdmissionCrates, AdmissionTokenClaims, AdmissionVerificationKey, AdmissionKeySnapshot,
  AdmissionRevocation, AdmissionError, malformed, invalid_signature, wrong_event, expired, revoked,
  unknown_key, retired_key, stale_snapshot, policy, decode_verifying_key, decode_compact,
  validate_descriptor,
}

abbrev pub default_max_token_lifetime : ℤ
default_max_token_lifetime = pos (12 * 3600 * 1000000000)

pub record AdmissionTokenSigner (C : AdmissionCrates) : Type 0 where
  pub signing_key : C.SigningKey
  pub descriptor : AdmissionVerificationKey
  pub max_lifetime : ℤ

-- `iter().find` over the keys of a snapshot
abbrev pub is_key_of : AdmissionTokenClaims → AdmissionVerificationKey → Bool
is_key_of claims key =
    str_eq key.key_id claims.key_id && eqb_ℤ key.issuance_epoch claims.issuance_epoch

abbrev pub revokes : AdmissionTokenClaims → ℕ → AdmissionRevocation → Bool
revokes claims now r =
    r.ticket_id == claims.ticket_id
    && leb_ℤ claims.issuance_epoch r.issuance_epoch
    && leb r.revoked_at now

module _ (C : AdmissionCrates) where
  unfoldable pub new_signer :
      C.SigningKey → String → ℤ → ℕ → ℕ → ℤ → Result (AdmissionTokenSigner C) AdmissionError
  unfolding validate_descriptor
  new_signer signing_key key_id issuance_epoch active_from retire_at max_lifetime = do
    let descriptor : AdmissionVerificationKey = record {
      key_id = key_id;
      issuance_epoch = issuance_epoch;
      public_key = C.encode (C.as_bytes (C.verifying_key signing_key));
      active_from = active_from;
      retire_at = retire_at;
    }
    validate_descriptor C descriptor
    fail_if (leb_ℤ max_lifetime (pos 0)) (policy "maximum token lifetime must be positive")
    ok (record { signing_key = signing_key; descriptor = descriptor; max_lifetime = max_lifetime })

  unfoldable pub sign_token :
      AdmissionTokenSigner C → AdmissionTokenClaims → Result (List ℕ) AdmissionError
  sign_token signer claims = do
    map_err policy (C.validate_claims claims)
    fail_if (not (is_key_of claims signer.descriptor))
        (policy "token key identity does not match signer")
    fail_if
        (ltb claims.issued_at signer.descriptor.active_from
          || ltb signer.descriptor.retire_at claims.expires_at
          || ltb_ℤ signer.max_lifetime (sub_ℕ claims.expires_at claims.issued_at))
        (policy "token falls outside the signer or offline lifetime window")
    payload ← ok_or (C.claims_to_vec claims) malformed
    ok (C.encode payload ++ (b'.' ∷ C.encode (C.sign_bytes signer.signing_key payload)))

  -- The checks against the key of the snapshot that the claims name.
  unfoldable pub verify_with_key :
      AdmissionKeySnapshot
      → ℕ
      → List ℕ
      → List ℕ
      → AdmissionTokenClaims
      → AdmissionVerificationKey
      → Result AdmissionTokenClaims AdmissionError
  verify_with_key snapshot now payload signature claims descriptor = do
    validate_descriptor C descriptor
    fail_if
        (ltb claims.issued_at descriptor.active_from || ltb descriptor.retire_at claims.expires_at)
        retired_key
    verifying_key ← decode_verifying_key C descriptor.public_key
    fail_if (not (C.verify_bytes verifying_key payload signature)) invalid_signature
    fail_if (any (revokes claims now) snapshot.revocations) revoked
    ok claims

  -- The checks of the claims that a payload carries.
  unfoldable pub verify_claims :
      AdmissionKeySnapshot
      → ℕ
      → ℕ
      → List ℕ
      → List ℕ
      → AdmissionTokenClaims
      → Result AdmissionTokenClaims AdmissionError
  verify_claims snapshot expected_event_id now payload signature claims = do
    map_err (λ _. malformed) (C.validate_claims claims)
    fail_if
        (not (claims.event_id == expected_event_id) || not (claims.event_id == snapshot.event_id))
        wrong_event
    fail_if (ltb now claims.issued_at || leb claims.expires_at now) expired
    fail_if (ltb snapshot.valid_until claims.expires_at)
        (policy "token outlives the scanner snapshot")
    descriptor ← ok_or (find (is_key_of claims) snapshot.keys) unknown_key
    verify_with_key snapshot now payload signature claims descriptor

  unfoldable pub verify_admission_token :
      List ℕ → AdmissionKeySnapshot → ℕ → ℕ → Result AdmissionTokenClaims AdmissionError
  verify_admission_token compact snapshot expected_event_id now = do
    map_err policy (C.validate_snapshot snapshot)
    fail_if (not (snapshot.event_id == expected_event_id)) wrong_event
    fail_if (ltb now snapshot.generated_at || leb snapshot.valid_until now) stale_snapshot
    (payload, signature) ← decode_compact C compact
    claims ← ok_or (C.claims_from_slice payload) malformed
    verify_claims snapshot expected_event_id now payload signature claims
