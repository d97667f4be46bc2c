-- ===== src/Workflow/Coordinator.antt =====
-- packages/server/src/services/board-workflow.ts: the state machine of a board workflow run.
pub mod Session
pub mod Messages
pub mod Dispatching
pub mod Projecting
pub mod Settling
pub mod Operations
pub mod Ticking
pub mod Runs
pub mod Soundness
