-- ===== src/Scenarios.antt =====
-- Concrete runs of the theorems.
pub mod Lifecycle
pub mod Policy
pub mod Claims
pub mod Sweep
pub mod Dependencies
pub mod Queue
pub mod Intake
pub mod Contract
pub mod Proposals
pub mod Runs
pub mod Peers
pub mod Coordinator
pub mod Handoffs
pub mod Access
pub mod Groups
pub mod Broadcast
