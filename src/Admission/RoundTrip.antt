-- ===== src/Admission/RoundTrip.antt =====
-- A token that `AdmissionTokenSigner` of src/admission.rs signs, and the scanner that verifies it.
use evgl_api.Base.{
  ℕ, ◌+◌, ◌≤◌, ◌<◌, true, false, ◌≡◌, ◌≢◌, some, String, List, ◌∷◌, ◌++◌, In, any, find, arith, inl,
  inr, Option-cases, ap, sym, ◌∙◌,
}
use evgl_api.Base.Int.{ℤ, pos, ◌≤ℤ◌, sub_ℕ, sub_ℕ-le}
use evgl_api.Base.Tables.{any_of_member}
use evgl_api.Rust.{ok}
use evgl_api.Admission.Wire.{
  AdmissionCrates, AdmissionTokenClaims, AdmissionVerificationKey, AdmissionKeySnapshot,
  AdmissionRevocation, validate_descriptor, decode_verifying_key, decode_compact,
}
use evgl_api.Admission.Laws.{CrateLaws, decode_compact-encode, decode_verifying_key-encode}
use evgl_api.Admission.Tokens.{
  AdmissionTokenSigner, is_key_of, revokes, new_signer, sign_token, verify_admission_token,
}
use evgl_api.Admission.Acceptance.{verify-IsAdmissible, verify_of_IsAdmissible}

module _ (C : AdmissionCrates) where
  -- What `sign_token` has checked and produced where it succeeds.
  record IsIssued (signer : AdmissionTokenSigner C) (claims : AdmissionTokenClaims)
      (compact : List ℕ) : Type 0 where
    claims_shape : C.validate_claims claims ≡ ok tt
    named : is_key_of claims signer.descriptor ≡ true
    window :
        (signer.descriptor.active_from ≤ claims.issued_at)
        × (claims.expires_at ≤ signer.descriptor.retire_at)
    lifetime : sub_ℕ claims.expires_at claims.issued_at ≤ℤ signer.max_lifetime
    payload : List ℕ
    written : C.claims_to_vec claims ≡ some payload
    compact_form :
        compact ≡ C.encode payload ++ (b'.' ∷ C.encode (C.sign_bytes signer.signing_key payload))

  sign-IsIssued :
      (signer : AdmissionTokenSigner C) (claims : AdmissionTokenClaims) (compact : List ℕ)
      → sign_token C signer claims ≡ ok compact
      → IsIssued signer claims compact
  unfolding sign_token
  sign-IsIssued signer claims compact h = elim (Option-cases (C.claims_to_vec claims)) [
    | inl bad ↦ ground (arith, bad)
    | inr (payload, written) ↦ record {
      claims_shape = ground arith;
      named = ground arith;
      window = ground arith;
      lifetime = ground arith;
      payload = payload;
      written = written;
      compact_form = ground arith;
    }
  ]

  -- The descriptor that a new signer publishes carries the verifying key of its signing key.
  new_signer_inv :
      (signing_key : C.SigningKey) (key_id : String) (epoch : ℤ) (from until : ℕ) (max : ℤ)
      (signer : AdmissionTokenSigner C)
      → new_signer C signing_key key_id epoch from until max ≡ ok signer
      → (signer.signing_key ≡ signing_key)
        × (signer.descriptor.public_key ≡ C.encode (C.as_bytes (C.verifying_key signing_key)))
        × (validate_descriptor C signer.descriptor ≡ ok tt)
        × (signer.max_lifetime ≡ max)
        × (signer.descriptor.active_from ≡ from)
        × (signer.descriptor.retire_at ≡ until)
  unfolding new_signer
  new_signer_inv signing_key key_id epoch from until max signer h = ground arith

  -- A token that a signer signs starts and ends within the signer's window and lives no longer than
  -- the lifetime that the signer was made with.
  pub sign-lifetime :
      (signing_key : C.SigningKey) (key_id : String) (epoch : ℤ) (from until max : ℕ)
      (signer : AdmissionTokenSigner C) (claims : AdmissionTokenClaims) (compact : List ℕ)
      → new_signer C signing_key key_id epoch from until (pos max) ≡ ok signer
      → sign_token C signer claims ≡ ok compact
      → (from ≤ claims.issued_at)
        × (claims.expires_at ≤ until)
        × (claims.expires_at ≤ claims.issued_at + max)
  sign-lifetime signing_key key_id epoch from until max signer claims compact made signed =
      let n = new_signer_inv signing_key key_id epoch from until (pos max) signer made in
      let i = sign-IsIssued signer claims compact signed in
      let short : sub_ℕ claims.expires_at claims.issued_at ≤ℤ pos max = rw n.3 at i.lifetime in
      (
        omega (arith, i.window, n.4),
        omega (arith, i.window, n.5),
        sub_ℕ-le claims.expires_at claims.issued_at max short,
      )

  -- A scanner can admit the claims: its snapshot is for their event, current, and lists the
  -- signer's key first under the key's name; the token is active and ends with the snapshot at the
  -- latest; and no revocation has reached it.
  pub record IsScannable (descriptor : AdmissionVerificationKey) (claims : AdmissionTokenClaims)
      (snapshot : AdmissionKeySnapshot) (event now : ℕ) : Type 0 where
    pub snapshot_shape : C.validate_snapshot snapshot ≡ ok tt
    pub snapshot_event : snapshot.event_id ≡ event
    pub claims_event : claims.event_id ≡ event
    pub fresh : (snapshot.generated_at ≤ now) × (now < snapshot.valid_until)
    pub active : (claims.issued_at ≤ now) × (now < claims.expires_at)
    pub bounded : claims.expires_at ≤ snapshot.valid_until
    pub listed : find (is_key_of claims) snapshot.keys ≡ some descriptor
    pub unrevoked : any (revokes claims now) snapshot.revocations ≡ false

  -- What a signer signs, a scanner with a fitting snapshot verifies, and it gets the same claims.
  pub sign-verify :
      (L : CrateLaws C) (signing_key : C.SigningKey) (key_id : String) (epoch : ℤ) (from until : ℕ)
      (max : ℤ) (signer : AdmissionTokenSigner C) (claims : AdmissionTokenClaims) (compact : List ℕ)
      (snapshot : AdmissionKeySnapshot) (event now : ℕ)
      → new_signer C signing_key key_id epoch from until max ≡ ok signer
      → sign_token C signer claims ≡ ok compact
      → IsScannable signer.descriptor claims snapshot event now
      → verify_admission_token C compact snapshot event now ≡ ok claims
  sign-verify L signing_key key_id epoch from until max signer claims compact snapshot event now
        made signed s =
      let n = new_signer_inv signing_key key_id epoch from until max signer made in
      let i = sign-IsIssued signer claims compact signed in
      let key = C.verifying_key signer.signing_key in
      let signature = C.sign_bytes signer.signing_key i.payload in
      verify_of_IsAdmissible C snapshot event now compact claims (record {
        snapshot_shape = s.snapshot_shape;
        snapshot_event = s.snapshot_event;
        fresh = s.fresh;
        payload = i.payload;
        signature = signature;
        decoded =
            ap (decode_compact C) i.compact_form
            ∙ decode_compact-encode C L i.payload signature
                (L.claims_to_vec-nonempty claims i.payload i.written)
                (L.length-sign_bytes signer.signing_key i.payload);
        read = L.claims-from-to claims i.payload i.written;
        current = record {
          claims_shape = i.claims_shape;
          claims_event = (s.claims_event, s.claims_event ∙ sym s.snapshot_event);
          active = s.active;
          bounded = s.bounded;
        };
        descriptor = signer.descriptor;
        listed = s.listed;
        signed = record {
          descriptor_shape = n.2;
          window = i.window;
          key = key;
          decoded_key =
              ap (decode_verifying_key C)
                (n.1 ∙ ap (λ k. C.encode (C.as_bytes (C.verifying_key k))) (sym n.0))
              ∙ decode_verifying_key-encode C L key;
          signed = L.verify-sign signer.signing_key i.payload;
          unrevoked = s.unrevoked;
        };
      })

  -- A token whose ticket the snapshot revokes, for its epoch or a later one, is admitted at no time
  -- from the revocation on, whatever its signature.
  pub verify-rejects_revoked :
      (compact : List ℕ) (snapshot : AdmissionKeySnapshot) (event now : ℕ)
      (claims : AdmissionTokenClaims) (r : AdmissionRevocation)
      → In r snapshot.revocations
      → r.ticket_id ≡ claims.ticket_id
      → claims.issuance_epoch ≤ℤ r.issuance_epoch
      → r.revoked_at ≤ now
      → verify_admission_token C compact snapshot event now ≢ ok claims
  verify-rejects_revoked compact snapshot event now claims r member ticket epoch past accepted =
      let a = verify-IsAdmissible C snapshot event now compact claims accepted in
      let hit = any_of_member (revokes claims now) r snapshot.revocations member (ground arith) in
      cc (hit, a.signed.unrevoked)
