-- ===== src/Admission/Enrolment.antt =====
-- src/admission.rs: the entitlements of paid orders and the tokens issued for them. Orders are found
-- by their id, entitlements by their ticket and signing keys by their name, each at most one.
use evgl_api.Base.{ℕ, Bool, ◌&&◌, ◌==◌, leb, str_eq, if◌then◌else◌, none, any}
use evgl_api.Base.Int.{ℤ, eqb_ℤ}
use evgl_api.Rust.{map_err}
use evgl_api.Admission.Wire.{AdmissionCrates, AdmissionTokenClaims, policy}
use evgl_api.Admission.Registry.{
  SigningKeyRow, EntitlementRow, TokenRow, AdmissionSchema, Action, checked, insert_or_agree,
  returning, is_paid, is_entitlement, same_entitlement,
}

abbrev pub is_active_entitlement : AdmissionTokenClaims → EntitlementRow → Bool
is_active_entitlement c r =
    r.ticket_id == c.ticket_id
    && r.order_id == c.order_id
    && r.event_id == c.event_id
    && eqb_ℤ r.issuance_epoch c.issuance_epoch
    && str_eq r.status "active"

abbrev pub is_issuing_key : AdmissionTokenClaims → SigningKeyRow → Bool
is_issuing_key c k =
    str_eq k.key_id c.key_id
    && eqb_ℤ k.issuance_epoch c.issuance_epoch
    && leb k.active_from c.issued_at
    && leb c.expires_at k.retire_at

abbrev pub is_token : ℕ → TokenRow → Bool
is_token token_id t = t.token_id == token_id

abbrev pub same_token : TokenRow → TokenRow → Bool
same_token row old =
    old.ticket_id == row.ticket_id
    && old.order_id == row.order_id
    && old.event_id == row.event_id
    && eqb_ℤ old.issuance_epoch row.issuance_epoch
    && str_eq old.key_id row.key_id
    && old.issued_at == row.issued_at
    && old.expires_at == row.expires_at

module _ (S : AdmissionSchema) where
  unfoldable pub entitlement_row : ℕ → ℕ → ℕ → ℤ → ℕ → EntitlementRow
  entitlement_row ticket_id order_id event_id issuance_epoch now = record {
    ticket_id = ticket_id;
    order_id = order_id;
    event_id = event_id;
    issuance_epoch = issuance_epoch;
    status = S.default_status;
    created_at = now;
    updated_at = now;
  }

  unfoldable pub register_entitlement : ℕ → ℕ → ℕ → ℤ → ℕ → Action (Unit {0})
  unfolding entitlement_row
  register_entitlement ticket_id order_id event_id issuance_epoch now db =
      let row = entitlement_row ticket_id order_id event_id issuance_epoch now in
      returning "admission entitlement requires a paid order for the same event"
        (λ rows db. record db { entitlements = rows })
        (if any (is_paid order_id event_id) db.ticket_orders
          then insert_or_agree (is_entitlement ticket_id) (same_entitlement row) row db.entitlements
          else none)
        db

  unfoldable pub token_row : AdmissionTokenClaims → TokenRow
  token_row c = record {
    token_id = c.token_id;
    ticket_id = c.ticket_id;
    order_id = c.order_id;
    event_id = c.event_id;
    issuance_epoch = c.issuance_epoch;
    key_id = c.key_id;
    issued_at = c.issued_at;
    expires_at = c.expires_at;
    revoked_at = S.default_revoked_at;
  }

  unfoldable pub register_token : AdmissionCrates → AdmissionTokenClaims → Action (Unit {0})
  unfolding token_row
  register_token C claims = checked (map_err policy (C.validate_claims claims)) λ _ db.
      returning "token does not match an active entitlement and signing-key epoch"
        (λ rows db. record db { tokens = rows })
        (if any (is_active_entitlement claims) db.entitlements
            && any (is_issuing_key claims) db.signing_keys
          then insert_or_agree (is_token claims.token_id) (same_token (token_row claims))
              (token_row claims) db.tokens
          else none)
        db
