-- ===== src/Admission/Binding.antt =====
-- Registration in `AdmissionService` of src/admission.rs binds a key once: a repetition changes
-- nothing, and other values under the same key are refused.
use evgl_api.Base.{
  ℕ, Bool, true, ◌≡◌, refl, sym, ap, ◌∙◌, str_eq_iff, if◌then◌else◌, String, Option, none, some,
  List, [], ◌∷◌, find, arith, Bool-cases, Option-cases, inl, inr,
}
use evgl_api.Rust.{ok, err, Result-cases}
use evgl_api.Admission.Wire.{
  AdmissionCrates, AdmissionVerificationKey, policy, decode_bytes, validate_descriptor,
}
use evgl_api.Admission.Registry.{
  SigningKeyRow, TokenRow, Registry, bytes_eq, insert_or_agree, returning, is_signing_key,
  same_signing_key, signing_key_row, register_signing_key,
}
use evgl_api.Admission.Enrolment.{same_token}

pub bytes_eq_refl : (bs : List ℕ) → bytes_eq bs bs ≡ true
bytes_eq_refl [] = refl
bytes_eq_refl (b ∷ bs) = ground (arith, bytes_eq_refl bs)

pub eq_of_bytes_eq : (bs cs : List ℕ) → bytes_eq bs cs ≡ true → bs ≡ cs
eq_of_bytes_eq [] [] h = refl
eq_of_bytes_eq [] (c ∷ cs) h = cc
eq_of_bytes_eq (b ∷ bs) [] h = cc
eq_of_bytes_eq (b ∷ bs) (c ∷ cs) h = ground (arith, eq_of_bytes_eq bs cs)

module _ {Row : Type 0} (has_key agrees : Row → Bool) (row : Row) (rows : List Row) where
  -- After an insertion that returned a row, the key names a row that agrees.
  insert_or_agree-find :
      {rows' : List Row}
      → insert_or_agree has_key agrees row rows ≡ some rows'
      → has_key row ≡ true
      → agrees row ≡ true
      → (old : Row) × (find has_key rows' ≡ some old) × (agrees old ≡ true)
  insert_or_agree-find h k a = elim (Option-cases (find has_key rows)) [
    | inl missing ↦ (row, ground (arith, missing), a)
    | inr (old, found) ↦ elim (Bool-cases (agrees old)) [
      | inl same ↦ (old, ground (arith, found, same), same)
      | inr other ↦ ground (arith, found, other)
    ]
  ]

  -- Where the key names a row, an insertion returns a row exactly if that one agrees.
  insert_or_agree_found :
      {old : Row}
      → find has_key rows ≡ some old
      → insert_or_agree has_key agrees row rows ≡ (if agrees old then some rows else none)
  insert_or_agree_found found = rw (insert_or_agree, found) refl

returning-ok :
    {Row : Type 0} (message : String) (store : List Row → Registry → Registry)
    (o : Option (List Row)) (db db' : Registry)
    → returning message store o db ≡ (ok tt, db')
    → (rows : List Row) × (o ≡ some rows) × (db' ≡ store rows db)
returning-ok message store none db db' h = ground arith
returning-ok message store (some rows) db db' h = (rows, refl, ground arith)

-- What agrees with a row compares with any other row as that row does.
same_signing_key_agree :
    (row row' old : SigningKeyRow)
    → same_signing_key row old ≡ true
    → same_signing_key row' old ≡ same_signing_key row' row
same_signing_key_agree row row' old h = ground (arith, eq_of_bytes_eq old.public_key row.public_key)

same_signing_key_refl : (row : SigningKeyRow) → same_signing_key row row ≡ true
same_signing_key_refl row = ground (arith, bytes_eq_refl row.public_key)

same_token_agree :
    (row row' old : TokenRow)
    → same_token row old ≡ true
    → same_token row' old ≡ same_token row' row
same_token_agree row row' old h = ground (arith, str_eq_iff old.key_id row.key_id)

module _ (C : AdmissionCrates) (d d' : AdmissionVerificationKey) (bytes bytes' : List ℕ)
    (db db' : Registry) where
  signing_key_stored :
      decode_bytes C 32 d.public_key ≡ ok bytes
      → register_signing_key C d db ≡ (ok tt, db')
      → insert_or_agree
          (is_signing_key d.key_id)
          (same_signing_key (signing_key_row C d bytes))
          (signing_key_row C d bytes)
          db.signing_keys
        ≡ some db'.signing_keys
  unfolding register_signing_key
  signing_key_stored decoded h = elim (Result-cases (validate_descriptor C d)) [
    | inr (e, bad) ↦ ground (arith, bad)
    | inl (u, good) ↦
        let row = signing_key_row C d bytes in
        let r =
          returning-ok "signing key id is already bound to different key material or epochs"
            (λ rows db. record db { signing_keys = rows })
            (insert_or_agree (is_signing_key d.key_id) (same_signing_key row) row db.signing_keys)
            db db' (rw (good, decoded) at h) in
        r.1 ∙ ap some (sym (ap (λ (b : Registry). b.signing_keys) r.2))
  ]

  -- Once a signing key is registered, a registration under its name succeeds exactly if epoch, key
  -- material and window are the same, and either way changes nothing.
  pub register_signing_key_again :
      decode_bytes C 32 d.public_key ≡ ok bytes
      → register_signing_key C d db ≡ (ok tt, db')
      → validate_descriptor C d' ≡ ok tt
      → decode_bytes C 32 d'.public_key ≡ ok bytes'
      → d'.key_id ≡ d.key_id
      → register_signing_key C d' db' ≡ (
        if same_signing_key (signing_key_row C d' bytes') (signing_key_row C d bytes)
            then ok tt
            else err (policy "signing key id is already bound to different key material or epochs"),
        db',
      )
  unfolding register_signing_key
  register_signing_key_again decoded h valid' decoded' named =
      let row = signing_key_row C d bytes in
      let row' = signing_key_row C d' bytes' in
      let f =
        insert_or_agree-find (is_signing_key d.key_id) (same_signing_key row) row db.signing_keys
          (signing_key_stored decoded h) ((str_eq_iff d.key_id d.key_id).1 refl)
          (same_signing_key_refl row) in
      let found : find (is_signing_key d'.key_id) db'.signing_keys ≡ some f.0 =
        ap (λ k. find (is_signing_key k) db'.signing_keys) named ∙ f.1 in
      let same = same_signing_key_agree row row' f.0 f.2 in
      let answer =
        insert_or_agree_found (is_signing_key d'.key_id) (same_signing_key row') row'
          db'.signing_keys found in
      elim (Bool-cases (same_signing_key row' row)) [
        | inl e ↦ rw (valid', decoded', answer, same, e) refl
        | inr e ↦ rw (valid', decoded', answer, same, e) refl
      ]
