-- ===== src/Admission/Acceptance.antt =====
-- What `verify_admission_token` of src/admission.rs accepts.
use evgl_api.Base.{
  ℕ, ◌≤◌, ◌<◌, true, false, ◌≡◌, some, List, any, find, arith, ap, subst, ◌∙◌, inl, inr,
  Option-cases,
}
use evgl_api.Rust.{ok, Result-cases}
use evgl_api.Admission.Wire.{
  AdmissionCrates, AdmissionTokenClaims, AdmissionVerificationKey, AdmissionKeySnapshot,
  decode_verifying_key, decode_compact, validate_descriptor,
}
use evgl_api.Admission.Tokens.{
  is_key_of, revokes, verify_with_key, verify_claims, verify_admission_token,
}

module _ (C : AdmissionCrates) (snapshot : AdmissionKeySnapshot) (event now : ℕ) where
  -- The token was signed, over this payload, under a key whose window contains it, and no revocation
  -- has reached it.
  pub record IsSigned (payload signature : List ℕ) (claims : AdmissionTokenClaims)
      (descriptor : AdmissionVerificationKey) : Type 0 where
    pub descriptor_shape : validate_descriptor C descriptor ≡ ok tt
    pub window :
        (descriptor.active_from ≤ claims.issued_at) × (claims.expires_at ≤ descriptor.retire_at)
    pub key : C.VerifyingKey
    pub decoded_key : decode_verifying_key C descriptor.public_key ≡ ok key
    pub signed : C.verify_bytes key payload signature ≡ true
    pub unrevoked : any (revokes claims now) snapshot.revocations ≡ false

  -- The claims are those of a token for this event that is active now and does not outlive the
  -- snapshot.
  pub record IsCurrent (claims : AdmissionTokenClaims) : Type 0 where
    pub claims_shape : C.validate_claims claims ≡ ok tt
    pub claims_event : (claims.event_id ≡ event) × (claims.event_id ≡ snapshot.event_id)
    pub active : (claims.issued_at ≤ now) × (now < claims.expires_at)
    pub bounded : claims.expires_at ≤ snapshot.valid_until

  -- All that admits a token with these claims.
  pub record IsAdmissible (compact : List ℕ) (claims : AdmissionTokenClaims) : Type 0 where
    pub snapshot_shape : C.validate_snapshot snapshot ≡ ok tt
    pub snapshot_event : snapshot.event_id ≡ event
    pub fresh : (snapshot.generated_at ≤ now) × (now < snapshot.valid_until)
    pub payload : List ℕ
    pub signature : List ℕ
    pub decoded : decode_compact C compact ≡ ok (payload, signature)
    pub read : C.claims_from_slice payload ≡ some claims
    pub current : IsCurrent claims
    pub descriptor : AdmissionVerificationKey
    pub listed : find (is_key_of claims) snapshot.keys ≡ some descriptor
    pub signed : IsSigned payload signature claims descriptor

  module _ (payload signature : List ℕ) (claims : AdmissionTokenClaims) where
    verify_with_key-IsSigned :
        (descriptor : AdmissionVerificationKey) (claims' : AdmissionTokenClaims)
        → verify_with_key C snapshot now payload signature claims descriptor ≡ ok claims'
        → IsSigned payload signature claims descriptor × (claims ≡ claims')
    unfolding verify_with_key
    verify_with_key-IsSigned descriptor claims' h =
        elim (Result-cases (decode_verifying_key C descriptor.public_key)) [
          | inr (e, bad) ↦ ground (arith, bad)
          | inl (key, decoded_key) ↦ (
            record {
              descriptor_shape = ground arith;
              window = ground arith;
              key = key;
              decoded_key = decoded_key;
              signed = ground arith;
              unrevoked = ground arith;
            },
            ground arith,
          )
        ]

    verify_claims_inv :
        (claims' : AdmissionTokenClaims)
        → verify_claims C snapshot event now payload signature claims ≡ ok claims'
        → IsCurrent claims
          × (descriptor : AdmissionVerificationKey) × (find (is_key_of claims) snapshot.keys
              ≡ some descriptor)
          × (verify_with_key C snapshot now payload signature claims descriptor ≡ ok claims')
    unfolding verify_claims
    verify_claims_inv claims' h = elim (Option-cases (find (is_key_of claims) snapshot.keys)) [
      | inl bad ↦ ground (arith, bad)
      | inr (descriptor, listed) ↦ (ground arith, descriptor, listed, ground arith)
    ]

    verify_with_key_of :
        (descriptor : AdmissionVerificationKey)
        → IsSigned payload signature claims descriptor
        → verify_with_key C snapshot now payload signature claims descriptor ≡ ok claims
    unfolding verify_with_key
    verify_with_key_of descriptor s =
        ground (arith, s.descriptor_shape, s.window, s.decoded_key, s.signed, s.unrevoked)

    verify_claims_of :
        (descriptor : AdmissionVerificationKey)
        → IsCurrent claims
        → find (is_key_of claims) snapshot.keys ≡ some descriptor
        → IsSigned payload signature claims descriptor
        → verify_claims C snapshot event now payload signature claims ≡ ok claims
    unfolding verify_claims
    verify_claims_of descriptor c listed s = ground (
      arith,
      c.claims_shape,
      c.claims_event,
      c.active,
      c.bounded,
      verify_with_key_of descriptor s,
    )

  -- A token is accepted only if all of the conditions hold, and the claims returned are the signed
  -- ones.
  pub verify-IsAdmissible :
      (compact : List ℕ) (claims : AdmissionTokenClaims)
      → verify_admission_token C compact snapshot event now ≡ ok claims
      → IsAdmissible compact claims
  unfolding verify_admission_token
  verify-IsAdmissible compact claims h = elim (Result-cases (decode_compact C compact)) [
    | inr (e, bad) ↦ ground (arith, bad)
    | inl ((payload, signature), decoded) ↦ elim (Option-cases (C.claims_from_slice payload)) [
      | inl bad ↦ ground (arith, decoded, bad)
      | inr (seen, read) ↦
          let checked : verify_claims C snapshot event now payload signature seen ≡ ok claims =
            ground arith in
          let c = verify_claims_inv payload signature seen claims checked in
          let k = verify_with_key-IsSigned payload signature seen c.1 claims c.3 in
          record {
            snapshot_shape = ground arith;
            snapshot_event = ground arith;
            fresh = ground arith;
            payload = payload;
            signature = signature;
            decoded = decoded;
            read = read ∙ ap some k.1;
            current = subst IsCurrent (k.1) c.0;
            descriptor = c.1;
            listed = subst (λ s. find (is_key_of s) snapshot.keys ≡ some c.1) (k.1) c.2;
            signed = subst (λ s. IsSigned payload signature s c.1) (k.1) k.0;
          }
    ]
  ]

  -- A token is accepted, and its claims returned, where all of the conditions hold.
  pub verify_of_IsAdmissible :
      (compact : List ℕ) (claims : AdmissionTokenClaims)
      → IsAdmissible compact claims
      → verify_admission_token C compact snapshot event now ≡ ok claims
  unfolding verify_admission_token
  verify_of_IsAdmissible compact claims a = ground (
    arith,
    a.snapshot_shape,
    a.snapshot_event,
    a.fresh,
    a.decoded,
    a.read,
    verify_claims_of a.payload a.signature claims a.descriptor a.current a.listed a.signed,
  )
