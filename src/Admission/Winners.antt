-- ===== src/Admission/Winners.antt =====
-- The winner of a ticket in `reconcile_verified_receipts` of src/admission.rs is a least receipt of
-- the ticket, by `receipt_order_key`.
use evgl_api.Base.{
  ℕ, true, false, ◌≡◌, refl, sym, ◌∙◌, ◌⊎◌, inl, inr, ◌==◌, if◌then◌else◌, Option, none, some, List,
  [], ◌∷◌, In, arith, Bool-cases, ◌≢◌,
}
use evgl_api.Admission.Wire.{SignedScanReceipt}
use evgl_api.Admission.Receipts.{precedes, better, enter, winners_from, Winners}

pub precedes_trans :
    (a b c : SignedScanReceipt) → precedes a b ≡ false → precedes b c ≡ false → precedes a c ≡ false
unfolding precedes
precedes_trans a b c h k = ground arith

pub precedes_asymm : (a b : SignedScanReceipt) → precedes a b ≡ true → precedes b a ≡ false
unfolding precedes
precedes_asymm a b h = ground arith

pub precedes_irrefl : (a : SignedScanReceipt) → precedes a a ≡ false
unfolding precedes
precedes_irrefl a = ground arith

-- Two receipts of which neither precedes the other have the same id.
pub precedes_antisymm :
    (a b : SignedScanReceipt)
    → precedes a b ≡ false
    → precedes b a ≡ false
    → a.claims.receipt_id ≡ b.claims.receipt_id
unfolding precedes
precedes_antisymm a b h k = ground arith

-- The entry of one ticket as the receipts pass.
fold_ticket : ℕ → Option SignedScanReceipt → List SignedScanReceipt → Option SignedScanReceipt
fold_ticket t o [] = o
fold_ticket t o (r ∷ rs) =
    fold_ticket t (if t == r.claims.ticket_id then some (better r o) else o) rs

winners_from-at :
    (t : ℕ) (w : Winners) (rs : List SignedScanReceipt)
    → winners_from w rs t ≡ fold_ticket t (w t) rs
unfolding winners_from fold_ticket enter
winners_from-at t w [] = refl
winners_from-at t w (r ∷ rs) = winners_from-at t (enter r w) rs

record IsLeast (t : ℕ) (o : Option SignedScanReceipt) (rs : List SignedScanReceipt)
    (w : SignedScanReceipt) : Type 0 where
  source : (o ≡ some w) ⊎ (In w rs × (w.claims.ticket_id ≡ t))
  old : (v : SignedScanReceipt) → o ≡ some v → precedes v w ≡ false
  new : (r : SignedScanReceipt) → In r rs → r.claims.ticket_id ≡ t → precedes r w ≡ false

better_source :
    (r : SignedScanReceipt) (o : Option SignedScanReceipt)
    → (better r o ≡ r) ⊎ (o ≡ some (better r o))
unfolding better
better_source r none = inl refl
better_source r (some v) = elim (Bool-cases (precedes r v)) [
  | inl e ↦ inl (rw e)
  | inr e ↦ inr (rw e)
]

precedes-better_new :
    (r : SignedScanReceipt) (o : Option SignedScanReceipt) → precedes r (better r o) ≡ false
unfolding better
precedes-better_new r none = precedes_irrefl r
precedes-better_new r (some v) = ground (arith, precedes_irrefl r)

precedes-better_old :
    (r v : SignedScanReceipt) (o : Option SignedScanReceipt)
    → o ≡ some v
    → precedes v (better r o) ≡ false
unfolding better
precedes-better_old r v none h = cc
precedes-better_old r v (some u) h = ground (arith, precedes_irrefl v, precedes_asymm r v)

step-IsLeast :
    (t : ℕ) (o : Option SignedScanReceipt) (r : SignedScanReceipt) (rs : List SignedScanReceipt)
    (w : SignedScanReceipt)
    → r.claims.ticket_id ≡ t
    → IsLeast t (some (better r o)) rs w
    → IsLeast t o (r ∷ rs) w
step-IsLeast t o r rs w ticket ih =
    let least = ih.old (better r o) refl in
    record {
      source = elim (ih.source) [
        | inr later ↦ inr (inr later.0, later.1)
        | inl e ↦ elim (better_source r o) [ inl taken ↦ inr (inl (cc), cc) | inr kept ↦ inl (cc) ]
      ];
      old = λ v e. precedes_trans v (better r o) w (precedes-better_old r v o e) least;
      new = λ s m same. elim m [
        | inl e ↦ rw e (precedes_trans r (better r o) w (precedes-better_new r o) least)
        | inr later ↦ ih.new s later same
      ];
    }

fold_ticket-IsLeast :
    (t : ℕ) (o : Option SignedScanReceipt) (rs : List SignedScanReceipt) (w : SignedScanReceipt)
    → fold_ticket t o rs ≡ some w
    → IsLeast t o rs w
unfolding fold_ticket
fold_ticket-IsLeast t o [] w h = record {
  source = inl h;
  old = λ v e. ground (arith, precedes_irrefl w);
  new = λ r m. absurd m;
}
fold_ticket-IsLeast t o (r ∷ rs) w h = elim (Bool-cases (t == r.claims.ticket_id)) [
  | inl same ↦
      step-IsLeast t o r rs w (ground arith)
        (fold_ticket-IsLeast t (some (better r o)) rs w (rw same at h))
  | inr differ ↦
      let ih = fold_ticket-IsLeast t o rs w (rw differ at h) in
      record {
        source = elim (ih.source) [ inl e ↦ inl e | inr later ↦ inr (inr later.0, later.1) ];
        old = ih.old;
        new =
            λ s m same. elim m [ inl e ↦ ground (arith, differ) | inr later ↦ ih.new s later same ];
      }
]

fold_ticket-none :
    (t : ℕ) (o : Option SignedScanReceipt) (rs : List SignedScanReceipt)
    → fold_ticket t o rs ≡ none
    → (o ≡ none) × ((r : SignedScanReceipt) → In r rs → r.claims.ticket_id ≢ t)
unfolding fold_ticket
fold_ticket-none t o [] h = (h, λ r m. absurd m)
fold_ticket-none t o (r ∷ rs) h = elim (Bool-cases (t == r.claims.ticket_id)) [
  | inl same ↦
      let ih = fold_ticket-none t (some (better r o)) rs (rw same at h) in absurd (cc (ih.0))
  | inr differ ↦
      let ih = fold_ticket-none t o rs (rw differ at h) in
      (ih.0, λ s m same. elim m [ inl e ↦ ground (arith, differ) | inr later ↦ ih.1 s later same ])
]

-- The winner of a ticket is a receipt of the ticket that no receipt of the ticket precedes.
pub record IsWinner (t : ℕ) (rs : List SignedScanReceipt) (w : SignedScanReceipt) : Type 0 where
  pub member : In w rs
  pub ticket : w.claims.ticket_id ≡ t
  pub least : (r : SignedScanReceipt) → In r rs → r.claims.ticket_id ≡ t → precedes r w ≡ false

pub winners_from-IsWinner :
    (t : ℕ) (rs : List SignedScanReceipt) (w : SignedScanReceipt)
    → winners_from (λ _. none) rs t ≡ some w
    → IsWinner t rs w
winners_from-IsWinner t rs w h =
    let l = fold_ticket-IsLeast t none rs w (sym (winners_from-at t (λ _. none) rs) ∙ h) in
    elim (l.source) [
      | inl e ↦ absurd (cc e)
      | inr found ↦ record { member = found.0; ticket = found.1; least = l.new }
    ]

pub winners_from-none :
    (t : ℕ) (rs : List SignedScanReceipt)
    → winners_from (λ _. none) rs t ≡ none
    → (r : SignedScanReceipt) → In r rs
    → r.claims.ticket_id ≢ t
winners_from-none t rs h =
    (fold_ticket-none t none rs (sym (winners_from-at t (λ _. none) rs) ∙ h)).1
