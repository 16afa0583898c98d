-- ===== src/Ticketing/Configured.antt =====
-- What `configure_event` and `create_ticket_class` of src/ticketing.rs do, however they end.
use evgl_api.Base.{
  ℕ, ◌≡◌, refl, ◌⊎◌, inl, inr, some, In, ◌∷◌, find, arith, Bool-cases, Option-cases, subst,
  update_where,
}
use evgl_api.Base.Int.{◌≤ℤ◌, leb_ℤ, leb_ℤ→le}
use evgl_api.Base.Search.{find-In}
use evgl_api.Rust.{Result, ok, err, Result-cases}
use evgl_api.Ticketing.Tables.{
  DbErr, custom, record_not_found, InventoryRow, Stock, ConfigureEventInventory, CreateTicketClass,
  TicketInterfaces, uuid_column,
}
use evgl_api.Ticketing.Inventory.{
  allocated, is_inventory, is_roomy, upsert_inventory, configure_event, insert_class,
  create_ticket_class, class_row, trim,
}
use evgl_api.Ticketing.Covered.{
  IsCovered, Validates, capacity_of, insert-IsCovered, resize-IsCovered, resize-find, new_row,
  resize,
}

module _ (I : TicketInterfaces) where
  -- How `configure_event` ends: with the tables as they were, or with the event's new capacity.
  abbrev pub IsConfigured : ConfigureEventInventory → ℕ → Stock → Result ℕ DbErr × Stock → Type 0
  IsConfigured input now t (r, t') =
      IsCovered now t'
      × (((e : DbErr) × (r ≡ err e) × (t' ≡ t))
          ⊎ ((r ≡ ok input.event_id) × (capacity_of input.event_id t' ≡ some input.capacity)))

  configure-IsConfigured :
      Validates I
      → (input : ConfigureEventInventory) (now : ℕ) (t : Stock) → IsCovered now t
      → IsConfigured input now t (configure_event I input now t)
  unfolding configure_event upsert_inventory uuid_column
  configure-IsConfigured law input now t h = elim (Result-cases (I.validate_configure input)) [
    | inr (e, invalid) ↦ rw invalid (h, inl (custom e, refl, refl))
    | inl (_, valid) ↦ elim (Option-cases (find (is_inventory input.event_id) t.event_inventory)) [
      | inl new ↦
          let t₁ = record t {
            event_inventory = new_row input.event_id input.capacity now t ∷ t.event_inventory;
          } in
          elim (Result-cases (I.constraints t₁)) [
            | inr (e, refused) ↦ rw (valid, new, refused) (h, inl (e, refl, refl))
            | inl (_, accepted) ↦
                rw (valid, new, accepted)
                  (
                    insert-IsCovered input.event_id input.capacity now t new (law input valid) h,
                    inr (refl, ground arith),
                  )
          ]
      | inr (old, found) ↦
          elim (Bool-cases (leb_ℤ (allocated input.event_id now t) input.capacity)) [
            | inr short ↦
                rw (valid, found, short)
                  (
                    h,
                    inl (
                      record_not_found "event capacity cannot be reduced below allocated stock",
                      refl,
                      refl,
                    ),
                  )
            | inl enough ↦
                let t₁ = record t {
                  event_inventory =
                      update_where (is_inventory input.event_id)
                        (resize input.event_id input.capacity now t) t.event_inventory;
                } in
                elim (Result-cases (I.constraints t₁)) [
                  | inr (e, refused) ↦ rw (valid, found, enough, refused) (h, inl (e, refl, refl))
                  | inl (_, accepted) ↦
                      rw (valid, found, enough, accepted)
                        (
                          resize-IsCovered input.event_id input.capacity now t
                              (leb_ℤ→le (allocated input.event_id now t) input.capacity enough) h,
                          inr (
                            refl,
                            rw
                                (resize-find input.event_id input.capacity now t t.event_inventory
                                  old found)
                                refl,
                          ),
                        )
                ]
          ]
    ]
  ]

  -- A call of `configure_event` keeps every event's capacity at or above its tickets held and sold,
  -- and either fails and changes nothing, or returns the event, which then has the capacity asked
  -- for.
  pub configure_event_lem :
      Validates I
      → (input : ConfigureEventInventory) (now : ℕ) (t t' : Stock) (r : Result ℕ DbErr)
      → IsCovered now t
      → configure_event I input now t ≡ (r, t')
      → IsCovered now t'
        × (((e : DbErr) × (r ≡ err e) × (t' ≡ t))
            ⊎ ((r ≡ ok input.event_id) × (capacity_of input.event_id t' ≡ some input.capacity)))
  configure_event_lem law input now t t' r h e =
      subst (IsConfigured input now t) e (configure-IsConfigured law input now t h)

  abbrev IsClassed : ℕ → CreateTicketClass → ℕ → Stock → Result ℕ DbErr × Stock → Type 0
  IsClassed id input now t (r, t') =
      ((e : DbErr) × (r ≡ err e) × (t' ≡ t))
      ⊎ ((row : InventoryRow) × (r ≡ ok id)
          × In row t.event_inventory
          × (row.event_id ≡ input.event_id)
          × (input.capacity ≤ℤ row.capacity)
          × (t' ≡ record t {
            ticket_classes =
                record {
                  id = id;
                  event_id = input.event_id;
                  name = trim input.name;
                  capacity = input.capacity;
                  sale_starts_at = input.sale_starts_at;
                  sale_ends_at = input.sale_ends_at;
                  created_at = now;
                }
                ∷ t.ticket_classes;
          }))

  class-IsClassed :
      (id : ℕ) (input : CreateTicketClass) (now : ℕ) (t : Stock)
      → IsClassed id input now t (create_ticket_class I id input now t)
  unfolding create_ticket_class insert_class uuid_column
  class-IsClassed id input now t = elim (Result-cases (I.validate_class input)) [
    | inr (e, invalid) ↦ rw invalid (inl (custom e, refl, refl))
    | inl (_, valid) ↦
        let test = is_roomy input.event_id input.capacity in
        elim (Option-cases (find test t.event_inventory)) [
          | inl missing ↦
              rw (valid, missing)
                (inl (
                  record_not_found
                      "event inventory is missing or class capacity exceeds event capacity",
                  refl,
                  refl,
                ))
          | inr (row, found) ↦
              let t₁ = record t { ticket_classes = class_row id input now ∷ t.ticket_classes } in
              let (member, roomy) = find-In test t.event_inventory row found in
              elim (Result-cases (I.constraints t₁)) [
                | inr (e, refused) ↦ rw (valid, found, refused) (inl (e, refl, refl))
                | inl (_, accepted) ↦
                    rw (valid, found, accepted)
                      (inr (row, refl, member, ground (arith, roomy), ground (arith, roomy), refl))
              ]
        ]
  ]

  -- A call of `create_ticket_class` either fails and changes nothing, or adds one class to an event
  -- that is configured with at least the class's capacity: the class has the returned id, the capacity
  -- and the times asked for, and the name asked for without the white space at its ends.
  pub create_ticket_class_lem :
      (id : ℕ) (input : CreateTicketClass) (now : ℕ) (t t' : Stock) (r : Result ℕ DbErr)
      → create_ticket_class I id input now t ≡ (r, t')
      → ((e : DbErr) × (r ≡ err e) × (t' ≡ t))
        ⊎ ((row : InventoryRow) × (r ≡ ok id)
            × In row t.event_inventory
            × (row.event_id ≡ input.event_id)
            × (input.capacity ≤ℤ row.capacity)
            × (t' ≡ record t {
              ticket_classes =
                  record {
                    id = id;
                    event_id = input.event_id;
                    name = trim input.name;
                    capacity = input.capacity;
                    sale_starts_at = input.sale_starts_at;
                    sale_ends_at = input.sale_ends_at;
                    created_at = now;
                  }
                  ∷ t.ticket_classes;
            }))
  create_ticket_class_lem id input now t t' r e =
      subst (IsClassed id input now t) e (class-IsClassed id input now t)
