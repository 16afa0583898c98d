-- ===== src/Admission/Entitled.antt =====
-- What stands behind a token that `register_token` of src/admission.rs registers.
use evgl_api.Base.{◌≤◌, true, ◌≡◌, In, any, arith, str_eq_iff}
use evgl_api.Base.Search.{any-In}
use evgl_api.Rust.{ok}
use evgl_api.Admission.Wire.{AdmissionCrates, AdmissionTokenClaims}
use evgl_api.Admission.Registry.{SigningKeyRow, EntitlementRow, Registry, AdmissionSchema}
use evgl_api.Admission.Enrolment.{register_token, is_active_entitlement, is_issuing_key}

-- The ticket of the claims is entitled, now, by their order, for their event and epoch.
pub record IsEntitled (claims : AdmissionTokenClaims) (r : EntitlementRow) : Type 0 where
  pub ticket : r.ticket_id ≡ claims.ticket_id
  pub order : r.order_id ≡ claims.order_id
  pub event : r.event_id ≡ claims.event_id
  pub epoch : r.issuance_epoch ≡ claims.issuance_epoch
  pub active : r.status ≡ "active"

-- The key that the claims name is of their epoch, and its window contains the token.
pub record IsIssuer (claims : AdmissionTokenClaims) (k : SigningKeyRow) : Type 0 where
  pub name : k.key_id ≡ claims.key_id
  pub epoch : k.issuance_epoch ≡ claims.issuance_epoch
  pub window : (k.active_from ≤ claims.issued_at) × (claims.expires_at ≤ k.retire_at)

module _ (S : AdmissionSchema) (C : AdmissionCrates) where
  -- A token is registered only for a ticket that is entitled, by an active entitlement for the same
  -- order, event and epoch, and under a registered signing key of that epoch whose window contains
  -- it. No other table changes.
  pub register_token-IsEntitled :
      (claims : AdmissionTokenClaims) (db db' : Registry)
      → register_token S C claims db ≡ (ok tt, db')
      → ((r : EntitlementRow) × In r db.entitlements × IsEntitled claims r)
        × ((k : SigningKeyRow) × In k db.signing_keys × IsIssuer claims k)
        × (db'.entitlements ≡ db.entitlements)
        × (db'.signing_keys ≡ db.signing_keys)
        × (db'.scanner_keys ≡ db.scanner_keys)
        × (db'.ticket_orders ≡ db.ticket_orders)
  unfolding register_token
  register_token-IsEntitled claims db db' h =
      let entitled : any (is_active_entitlement claims) db.entitlements ≡ true = ground arith in
      let issued : any (is_issuing_key claims) db.signing_keys ≡ true = ground arith in
      let r = any-In (is_active_entitlement claims) db.entitlements entitled in
      let k = any-In (is_issuing_key claims) db.signing_keys issued in
      (
        (
          r.0,
          r.1,
          record {
            ticket = ground (arith, r.2);
            order = ground (arith, r.2);
            event = ground (arith, r.2);
            epoch = ground (arith, r.2);
            active = ground (arith, r.2, str_eq_iff r.0.status "active");
          },
        ),
        (
          k.0,
          k.1,
          record {
            name = ground (arith, k.2, str_eq_iff k.0.key_id claims.key_id);
            epoch = ground (arith, k.2);
            window = ground (arith, k.2);
          },
        ),
        ground arith,
        ground arith,
        ground arith,
        ground arith,
      )
