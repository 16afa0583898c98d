-- ===== src/Admission.antt =====
-- src/admission.rs: offline admission.
pub mod Wire
pub mod Tokens
pub mod Acceptance
pub mod Laws
pub mod RoundTrip
pub mod Receipts
pub mod Registry
pub mod Enrolment
pub mod Recording
pub mod Binding
pub mod Entitled
pub mod Recorded
pub mod ReceiptRoundTrip
pub mod Winners
pub mod Reconcile
pub mod Outcomes
