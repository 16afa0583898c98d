-- ===== src/Admission/Outcomes.antt =====
-- src/admission.rs: AdmissionService::outcomes, over the rows of admission_receipt_outcomes that
-- the functions of the database write.
use evgl_api.Base.{
  ℕ, Bool, String, Option, List, [], ◌∷◌, ◌≡◌, refl, ap, ◌∙◌, ◌==◌, leb, str_eq, map, filter,
  sort_by, if◌then◌else◌,
}
use evgl_api.Base.Maps.{map-filter, map-sort_by}
use evgl_api.Rust.{Result, ok}
use evgl_api.Admission.Wire.{AdmissionError}
use evgl_api.Admission.Receipts.{
  AdmissionOutcome, accepted, duplicate_review, rejected, AdmissionReceiptOutcome,
}

-- The columns that the statement selects.
pub record OutcomeRow : Type 0 where
  pub receipt_id : ℕ
  pub ticket_id : ℕ
  pub outcome : String
  pub reason : Option String
  pub winning_receipt_id : Option ℕ

-- `match outcome.as_str()`
unfoldable pub parse_outcome : String → AdmissionOutcome
parse_outcome text =
    if str_eq text "accepted"
    then accepted
    else if str_eq text "duplicate_review"
    then duplicate_review
    else rejected

unfoldable pub read_outcome : OutcomeRow → AdmissionReceiptOutcome
unfolding parse_outcome
read_outcome row = record {
  receipt_id = row.receipt_id;
  ticket_id = row.ticket_id;
  outcome = parse_outcome row.outcome;
  reason = row.reason;
  winning_receipt_id = row.winning_receipt_id;
}

-- `order by receipt_id`
abbrev pub row_before : OutcomeRow → OutcomeRow → Bool
row_before a b = leb a.receipt_id b.receipt_id

-- The columns have the types that `try_get` asks for.
unfoldable pub outcomes : ℕ → List OutcomeRow → Result (List AdmissionReceiptOutcome) AdmissionError
unfolding read_outcome
outcomes ticket_id rows =
    ok (map read_outcome (sort_by row_before (filter (λ row. row.ticket_id == ticket_id) rows)))

-- The text of an outcome in its column.
abbrev pub outcome_text : AdmissionOutcome → String
outcome_text accepted = "accepted"
outcome_text duplicate_review = "duplicate_review"
outcome_text rejected = "rejected"

abbrev pub outcome_row : AdmissionReceiptOutcome → OutcomeRow
outcome_row o = record {
  receipt_id = o.receipt_id;
  ticket_id = o.ticket_id;
  outcome = outcome_text o.outcome;
  reason = o.reason;
  winning_receipt_id = o.winning_receipt_id;
}

abbrev pub outcome_before : AdmissionReceiptOutcome → AdmissionReceiptOutcome → Bool
outcome_before a b = leb a.receipt_id b.receipt_id

parse_outcome-outcome_text : (o : AdmissionOutcome) → parse_outcome (outcome_text o) ≡ o
unfolding parse_outcome
parse_outcome-outcome_text accepted = refl
parse_outcome-outcome_text duplicate_review = refl
parse_outcome-outcome_text rejected = refl

read_outcome-outcome_row : (o : AdmissionReceiptOutcome) → read_outcome (outcome_row o) ≡ o
unfolding read_outcome
read_outcome-outcome_row o = λ i. record o { outcome = parse_outcome-outcome_text o.outcome i }

read_all : (os : List AdmissionReceiptOutcome) → map read_outcome (map outcome_row os) ≡ os
read_all [] = refl
read_all (o ∷ os) = λ i. read_outcome-outcome_row o i ∷ read_all os i

-- From rows that hold outcomes with their texts, `outcomes` reads back the outcomes of the ticket as
-- they were, by their receipts' ids, and no outcome of another ticket.
pub outcomes-outcome_row :
    (ticket_id : ℕ) (os : List AdmissionReceiptOutcome)
    → outcomes ticket_id (map outcome_row os)
      ≡ ok (sort_by outcome_before (filter (λ o. o.ticket_id == ticket_id) os))
unfolding outcomes
outcomes-outcome_row ticket_id os =
    let of_ticket : AdmissionReceiptOutcome → Bool = λ o. o.ticket_id == ticket_id in
    ap ok (
      ap (λ rows. map read_outcome (sort_by row_before rows))
        (map-filter outcome_row of_ticket (λ row. row.ticket_id == ticket_id) os (λ o. refl))
      ∙ ap (map read_outcome)
          (map-sort_by outcome_row outcome_before row_before (filter of_ticket os) (λ a b. refl))
      ∙ read_all (sort_by outcome_before (filter of_ticket os)))
