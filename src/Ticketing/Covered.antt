-- ===== src/Ticketing/Covered.antt =====
-- What src/ticketing.rs keeps of an event's stock: its capacity covers the tickets held and sold.
use evgl_api.Base.{
  ℕ, true, false, ◌≡◌, refl, sym, ap, ◌∙◌, inl, inr, ◌==◌, Option, none, some, List, [], ◌∷◌, All,
  any, find, filter, update_where, arith, Bool-cases, subst,
}
use evgl_api.Base.Int.{ℤ, pos, ◌≤ℤ◌}
use evgl_api.Base.Tables.{All-mono, find-none, any-update}
use evgl_api.Rust.{ok}
use evgl_api.Ticketing.Tables.{
  InventoryRow, HoldRow, TicketOrderRow, Stock, ConfigureEventInventory, TicketInterfaces,
}
use evgl_api.Ticketing.Inventory.{allocated, is_held, is_sold, is_inventory}

-- Tickets are held and sold for events that are configured, and of every one of those at most its
-- capacity at this time.
pub record IsCovered (now : ℕ) (t : Stock) : Type 0 where
  pub covers : All (λ r. allocated r.event_id now t ≤ℤ r.capacity) t.event_inventory
  pub holds : All (λ h. any (is_inventory h.event_id) t.event_inventory ≡ true) t.ticket_holds
  pub orders : All (λ o. any (is_inventory o.event_id) t.event_inventory ≡ true) t.ticket_orders

-- The capacity that an event has.
abbrev pub capacity_of : ℕ → Stock → Option ℤ
capacity_of event_id t = elim (find (is_inventory event_id) t.event_inventory) [
  | none ↦ none
  | some r ↦ some r.capacity
]

-- evgl_interfaces: a capacity that validation accepts is not negative.
abbrev pub Validates : TicketInterfaces → Type 0
Validates I =
    (input : ConfigureEventInventory) → I.validate_configure input ≡ ok tt → pos 0 ≤ℤ input.capacity

no_holds :
    (event_id now : ℕ) (inventory : List InventoryRow) (hs : List HoldRow)
    → any (is_inventory event_id) inventory ≡ false
    → All (λ h. any (is_inventory h.event_id) inventory ≡ true) hs
    → filter (is_held event_id now) hs ≡ []
no_holds event_id now inventory [] missing h = refl
no_holds event_id now inventory (x ∷ hs) missing h = elim (Bool-cases (x.event_id == event_id)) [
  | inr differs ↦ rw differs (no_holds event_id now inventory hs missing h.1)
  | inl same ↦
      let e : x.event_id ≡ event_id = ground (arith, same) in
      let clash : true ≡ false = sym h.0 ∙ ap (λ n. any (is_inventory n) inventory) e ∙ missing in
      cc
]

no_orders :
    (event_id : ℕ) (inventory : List InventoryRow) (os : List TicketOrderRow)
    → any (is_inventory event_id) inventory ≡ false
    → All (λ o. any (is_inventory o.event_id) inventory ≡ true) os
    → filter (is_sold event_id) os ≡ []
no_orders event_id inventory [] missing h = refl
no_orders event_id inventory (x ∷ os) missing h = elim (Bool-cases (x.event_id == event_id)) [
  | inr differs ↦ rw differs (no_orders event_id inventory os missing h.1)
  | inl same ↦
      let e : x.event_id ≡ event_id = ground (arith, same) in
      let clash : true ≡ false = sym h.0 ∙ ap (λ n. any (is_inventory n) inventory) e ∙ missing in
      cc
]

module _ (event_id : ℕ) (capacity : ℤ) (now : ℕ) (t : Stock) where
  abbrev pub new_row : InventoryRow
  new_row = record { event_id = event_id; capacity = capacity; created_at = now; updated_at = now }

  pub insert-IsCovered :
      find (is_inventory event_id) t.event_inventory ≡ none
      → pos 0 ≤ℤ capacity
      → IsCovered now t
      → IsCovered now (record t { event_inventory = new_row ∷ t.event_inventory })
  insert-IsCovered new positive h =
      let missing = find-none (is_inventory event_id) t.event_inventory new in
      let unused : allocated event_id now t ≡ pos 0 =
        rw
          (
            no_holds event_id now t.event_inventory t.ticket_holds missing h.holds,
            no_orders event_id t.event_inventory t.ticket_orders missing h.orders,
          )
          refl in
      record {
        covers = (subst (λ a. a ≤ℤ capacity) (sym unused) positive, h.covers);
        holds =
            All-mono (λ (x : HoldRow). any (is_inventory x.event_id) t.event_inventory ≡ true) _
              t.ticket_holds (λ x k. ground (arith, k)) h.holds;
        orders =
            All-mono
              (λ (x : TicketOrderRow). any (is_inventory x.event_id) t.event_inventory ≡ true) _
              t.ticket_orders (λ x k. ground (arith, k)) h.orders;
      }

  abbrev pub resize : InventoryRow → InventoryRow
  resize r = record r { capacity = capacity; updated_at = now }

  resize-covers :
      (rows : List InventoryRow)
      → allocated event_id now t ≤ℤ capacity
      → All (λ r. allocated r.event_id now t ≤ℤ r.capacity) rows
      → All
          (λ r. allocated r.event_id now t ≤ℤ r.capacity)
          (update_where (is_inventory event_id) resize rows)
  resize-covers [] enough h = tt
  resize-covers (r ∷ rows) enough h = elim (Bool-cases (r.event_id == event_id)) [
    | inr differs ↦ rw differs (h.0, resize-covers rows enough h.1)
    | inl same ↦
        let e : event_id ≡ r.event_id = ground (arith, same) in
        rw same (subst (λ n. allocated n now t ≤ℤ capacity) e enough, resize-covers rows enough h.1)
  ]

  pub resize-IsCovered :
      allocated event_id now t ≤ℤ capacity
      → IsCovered now t
      → IsCovered now (record t {
        event_inventory = update_where (is_inventory event_id) resize t.event_inventory;
      })
  resize-IsCovered enough h = record {
    covers = resize-covers t.event_inventory enough h.covers;
    holds =
        All-mono _ _ t.ticket_holds
          (λ (x : HoldRow) k.
            any-update (is_inventory x.event_id) (is_inventory event_id) resize t.event_inventory
              (λ r. refl)
            ∙ k)
          h.holds;
    orders =
        All-mono _ _ t.ticket_orders
          (λ (x : TicketOrderRow) k.
            any-update (is_inventory x.event_id) (is_inventory event_id) resize t.event_inventory
              (λ r. refl)
            ∙ k)
          h.orders;
  }

  pub resize-find :
      (rows : List InventoryRow) (old : InventoryRow)
      → find (is_inventory event_id) rows ≡ some old
      → find (is_inventory event_id) (update_where (is_inventory event_id) resize rows)
        ≡ some (resize old)
  resize-find [] old h = cc
  resize-find (r ∷ rows) old h = ground (arith, resize-find rows old)
