-- ===== src/Admission/Reconcile.antt =====
-- What `reconcile_verified_receipts` of src/admission.rs decides.
use evgl_api.Base.{
  ℕ, ◌≤◌, Bool, true, false, ◌≡◌, refl, ap, ◌∙◌, inl, inr, ◌&&◌, ◌==◌, if◌then◌else◌, Option, none,
  some, List, [], ◌∷◌, map, In, All, count, filter, any, arith, Bool-cases, Option-cases,
}
use mathlib.Core.Option as Opt
use evgl_api.Base.Tables.{Distinct, All-In_mono, any_of_member}
use evgl_api.Admission.Wire.{SignedScanReceipt}
use evgl_api.Admission.Receipts.{
  AdmissionReceiptOutcome, AdmissionOutcome, accepted, duplicate_review, rejected, precedes,
  Winners, winners_from, outcome_of, reconcile_verified_receipts,
}
use evgl_api.Admission.Winners.{
  IsWinner, winners_from-IsWinner, winners_from-none, precedes_antisymm,
}

abbrev id_of : Option SignedScanReceipt → Option ℕ
id_of o = Opt.map (λ (w : SignedScanReceipt). w.claims.receipt_id) o

abbrev pub winner : List SignedScanReceipt → Winners
winner rs = winners_from (λ _. none) rs

In-All : {A : Type 0} (P : A → Type 0) (x : A) (xs : List A) → All P xs → In x xs → P x
In-All P x [] h m = absurd m
In-All P x (y ∷ ys) h (inl e) = rw e h.0
In-All P x (y ∷ ys) h (inr m) = In-All P x ys h.1 m

In-map : {A B : Type 0} (f : A → B) (x : A) (xs : List A) → In x xs → In (f x) (map f xs)
In-map f x [] m = absurd m
In-map f x (y ∷ ys) (inl e) = inl (ap f e)
In-map f x (y ∷ ys) (inr m) = inr (In-map f x ys m)

All-map_of :
    {A B : Type 0} (P : B → Type 0) (f : A → B) (xs : List A)
    → All (λ x. P (f x)) xs
    → All P (map f xs)
All-map_of P f [] h = tt
All-map_of P f (x ∷ xs) h = (h.0, All-map_of P f xs h.1)

-- The same receipts, in another order and number, have the same winners.
winner_same :
    (xs ys : List SignedScanReceipt)
    → ((r : SignedScanReceipt) → In r xs → In r ys)
    → ((r : SignedScanReceipt) → In r ys → In r xs)
    → (t : ℕ) → id_of (winner xs t) ≡ id_of (winner ys t)
winner_same xs ys into back t = elim (Option-cases (winner xs t)) [
  | inl none_x ↦ elim (Option-cases (winner ys t)) [
    | inl none_y ↦ rw (none_x, none_y)
    | inr (v, some_y) ↦
        let b = winners_from-IsWinner t ys v some_y in
        absurd (winners_from-none t xs none_x v (back v b.member) b.ticket)
  ]
  | inr (w, some_x) ↦
      let a = winners_from-IsWinner t xs w some_x in
      elim (Option-cases (winner ys t)) [
        | inl none_y ↦ absurd (winners_from-none t ys none_y w (into w a.member) a.ticket)
        | inr (v, some_y) ↦
            let b = winners_from-IsWinner t ys v some_y in
            rw (some_x, some_y)
              (ap some (
                precedes_antisymm w v (b.least w (into w a.member) a.ticket)
                  (a.least v (back v b.member) b.ticket)))
      ]
]

outcome_of_same :
    (w v : Winners) (r : SignedScanReceipt)
    → id_of (w r.claims.ticket_id) ≡ id_of (v r.claims.ticket_id)
    → outcome_of w r ≡ outcome_of v r
unfolding outcome_of
outcome_of_same w v r h = rw h

-- The outcomes depend neither on the order of the receipts nor on repeated deliveries: two lists
-- with the same receipts give the same outcomes.
pub reconcile_order :
    (xs ys : List SignedScanReceipt)
    → All (λ r. In r ys) xs
    → All (λ r. In r xs) ys
    → All (λ o. In o (reconcile_verified_receipts ys)) (reconcile_verified_receipts xs)
unfolding reconcile_verified_receipts
reconcile_order xs ys into back =
    All-map_of (λ o. In o (map (outcome_of (winner ys)) ys)) (outcome_of (winner xs)) xs
      (All-In_mono (λ r. In (outcome_of (winner xs) r) (map (outcome_of (winner ys)) ys)) xs
        (λ r m.
          rw
            (outcome_of_same (winner xs) (winner ys) r (
              winner_same xs ys (λ s k. In-All (λ q. In q ys) s xs into k)
                (λ s k. In-All (λ q. In q xs) s ys back k) r.claims.ticket_id))
            (In-map (outcome_of (winner ys)) r ys (In-All (λ q. In q ys) r xs into m))))

abbrev pub verdict : ℕ → ℕ → AdmissionOutcome
verdict winning id = if winning == id then accepted else duplicate_review

outcome_of-winner :
    (rs : List SignedScanReceipt) (r : SignedScanReceipt)
    → In r rs
    → (w : SignedScanReceipt) × IsWinner r.claims.ticket_id rs w
      × ((outcome_of (winner rs) r).winning_receipt_id ≡ some w.claims.receipt_id)
      × ((outcome_of (winner rs) r).outcome ≡ verdict w.claims.receipt_id r.claims.receipt_id)
unfolding outcome_of
outcome_of-winner rs r m = elim (Option-cases (winner rs r.claims.ticket_id)) [
  | inl nobody ↦ absurd (winners_from-none r.claims.ticket_id rs nobody r m refl)
  | inr (w, found) ↦ (w, winners_from-IsWinner r.claims.ticket_id rs w found, rw found, rw found)
]

In-filter :
    (q : SignedScanReceipt → Bool) (x : SignedScanReceipt) (xs : List SignedScanReceipt)
    → In x (filter q xs)
    → In x xs × (q x ≡ true)
In-filter q x [] m = absurd m
In-filter q x (y ∷ ys) m = elim (Bool-cases (q y)) [
  | inl e ↦ elim (rw e at m) [
    | inl here ↦ (inl here, ap q here ∙ e)
    | inr there ↦ let ih = In-filter q x ys there in (inr ih.0, ih.1)
  ]
  | inr e ↦ let ih = In-filter q x ys (rw e at m) in (inr ih.0, ih.1)
]

abbrev pub of_ticket : ℕ → List SignedScanReceipt → List SignedScanReceipt
of_ticket t rs = filter (λ r. r.claims.ticket_id == t) rs

-- A receipt of the ticket that was scanned no later than any receipt of the ticket.
pub record IsFirst (t : ℕ) (rs : List SignedScanReceipt) (w : SignedScanReceipt) : Type 0 where
  pub member : In w rs
  pub ticket : w.claims.ticket_id ≡ t
  pub least : All (λ r. w.claims.scanned_at ≤ r.claims.scanned_at) (of_ticket t rs)

precedes-scanned_at :
    (r w : SignedScanReceipt) → precedes r w ≡ false → w.claims.scanned_at ≤ r.claims.scanned_at
unfolding precedes
precedes-scanned_at r w h = ground arith

IsWinner-IsFirst :
    (t : ℕ) (rs : List SignedScanReceipt) (w : SignedScanReceipt) → IsWinner t rs w → IsFirst t rs w
IsWinner-IsFirst t rs w a = record {
  member = a.member;
  ticket = a.ticket;
  least =
      All-In_mono (λ r. w.claims.scanned_at ≤ r.claims.scanned_at) (of_ticket t rs)
        (λ r m.
          let k = In-filter (λ s. s.claims.ticket_id == t) r rs m in
          precedes-scanned_at r w (a.least r k.0 (ground arith)));
}

-- Of each receipt: its outcome, beside the first receipt of its ticket.
abbrev pub IsDecided : List SignedScanReceipt → AdmissionReceiptOutcome → Type 0
IsDecided rs o =
    (w : SignedScanReceipt) × IsFirst o.ticket_id rs w
    × (o.winning_receipt_id ≡ some w.claims.receipt_id)
    × (o.outcome ≡ verdict w.claims.receipt_id o.receipt_id)

map-outcome_of :
    (w : Winners) (rs : List SignedScanReceipt)
    → map {B = ℕ × ℕ}
        (λ (o : AdmissionReceiptOutcome). (o.receipt_id, o.ticket_id))
        (map (outcome_of w) rs)
      ≡ map {B = ℕ × ℕ} (λ (r : SignedScanReceipt). (r.claims.receipt_id, r.claims.ticket_id)) rs
unfolding outcome_of
map-outcome_of w [] = refl
map-outcome_of w (r ∷ rs) = ap (◌∷◌ (r.claims.receipt_id, r.claims.ticket_id)) (map-outcome_of w rs)

-- There is one outcome for each receipt, in the order of the receipts, with its id and its ticket.
-- Every outcome names as its winner the id of a receipt of the same ticket that was scanned no later
-- than any receipt of the ticket, and is `accepted` if that is its own receipt's id and
-- `duplicate_review` if not.
pub reconcile_winner :
    (rs : List SignedScanReceipt)
    → (map {B = ℕ × ℕ}
          (λ (o : AdmissionReceiptOutcome). (o.receipt_id, o.ticket_id))
          (reconcile_verified_receipts rs)
        ≡ map {B = ℕ × ℕ} (λ (r : SignedScanReceipt). (r.claims.receipt_id, r.claims.ticket_id)) rs)
      × All (IsDecided rs) (reconcile_verified_receipts rs)
unfolding reconcile_verified_receipts outcome_of
reconcile_winner rs = (
  map-outcome_of (winner rs) rs,
  All-map_of (IsDecided rs) (outcome_of (winner rs)) rs (
      All-In_mono (λ r. IsDecided rs (outcome_of (winner rs) r)) rs
        (λ r m.
          let d = outcome_of-winner rs r m in
          (d.0, IsWinner-IsFirst r.claims.ticket_id rs d.0 d.1, d.2, d.3))),
)

abbrev pub same_receipt : SignedScanReceipt → SignedScanReceipt → Bool
same_receipt a b = a.claims.receipt_id == b.claims.receipt_id

abbrev pub is_accepted : AdmissionOutcome → Bool
is_accepted accepted = true
is_accepted duplicate_review = false
is_accepted rejected = false

-- An outcome that admits on the ticket.
abbrev pub admits : ℕ → AdmissionReceiptOutcome → Bool
admits t o = is_accepted o.outcome && o.ticket_id == t

count-map :
    {A B : Type 0} (p : B → Bool) (f : A → B) (xs : List A)
    → count p (map f xs) ≡ count (λ x. p (f x)) xs
count-map p f [] = refl
count-map p f (x ∷ xs) = ground (arith, count-map p f xs)

count-none :
    (p q : SignedScanReceipt → Bool) (xs : List SignedScanReceipt)
    → any q xs ≡ false
    → ((x : SignedScanReceipt) → In x xs → p x ≡ true → q x ≡ true)
    → count p xs ≡ 0
count-none p q [] h k = refl
count-none p q (x ∷ xs) h k =
    ground (arith, k x (inl refl), count-none p q xs (ground arith) (λ y m. k y (inr m)))

-- Of rows with distinct ids exactly one passes a test that one of them passes and that fixes the id.
count-one :
    (p : SignedScanReceipt → Bool) (w : SignedScanReceipt) (xs : List SignedScanReceipt)
    → Distinct same_receipt xs
    → In w xs
    → p w ≡ true
    → ((x : SignedScanReceipt) → In x xs → p x ≡ true → same_receipt w x ≡ true)
    → count p xs ≡ 1
count-one p w [] d m h k = absurd m
count-one p w (x ∷ xs) d (inl e) h k =
    let none_left = count-none p (same_receipt x) xs d.0 (λ y m e'. rw e at (k y (inr m) e')) in
    let first : p x ≡ true = rw e at h in rw first (omega (arith, none_left))
count-one p w (x ∷ xs) d (inr m) h k = elim (Bool-cases (p x)) [
  | inl passes ↦
      let again : same_receipt x w ≡ true = ground (arith, k x (inl refl)) in
      absurd (cc (any_of_member (same_receipt x) w xs m again, d.0))
  | inr fails ↦ rw fails (count-one p w xs d.1 m h (λ y n. k y (inr n)))
]

admits-outcome_of :
    (rs : List SignedScanReceipt) (t : ℕ) (w r : SignedScanReceipt)
    → winner rs t ≡ some w
    → admits t (outcome_of (winner rs) r) ≡ (same_receipt w r && r.claims.ticket_id == t)
unfolding outcome_of
admits-outcome_of rs t w r found = elim (Bool-cases (r.claims.ticket_id == t)) [
  | inl here ↦
      let same : r.claims.ticket_id ≡ t = ground arith in
      elim (Bool-cases (same_receipt w r)) [
        | inl a ↦ rw (same, found, a) refl
        | inr b ↦ rw (same, found, b) refl
      ]
  | inr elsewhere ↦ ground arith
]

-- Where the receipts have distinct ids, exactly one receipt of each ticket among them is accepted.
pub reconcile_one :
    (rs : List SignedScanReceipt) (r : SignedScanReceipt)
    → Distinct same_receipt rs
    → In r rs
    → count (admits r.claims.ticket_id) (reconcile_verified_receipts rs) ≡ 1
unfolding reconcile_verified_receipts
reconcile_one rs r d m = elim (Option-cases (winner rs r.claims.ticket_id)) [
  | inl nobody ↦ absurd (winners_from-none r.claims.ticket_id rs nobody r m refl)
  | inr (w, found) ↦
      let t = r.claims.ticket_id in
      let a = winners_from-IsWinner t rs w found in
      count-map (admits t) (outcome_of (winner rs)) rs
      ∙ count-one (λ x. admits t (outcome_of (winner rs) x)) w rs d a.member
          (rw (admits-outcome_of rs t w w found) (ground (arith, a.ticket)))
          (λ x n h. ground (arith, admits-outcome_of rs t w x found))
]
