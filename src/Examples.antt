-- ===== src/Examples.antt =====
-- The theorems at concrete inputs, over concrete stand-ins for the crates.
mod Setup
mod StoreRuns
mod WorkerRuns
mod AdmissionRuns
mod RegistryRuns
mod OAuthRuns
mod ServiceRuns
mod UserRuns
mod TicketRuns
mod DeploymentRuns
