-- ===== src/Workflow.antt =====
-- The review workflow: its pure policy, the store of the board's runs, and their coordinator.
pub mod Policy
pub mod RunStore
pub mod Coordinator
