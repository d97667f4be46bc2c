-- ===== src/Contract.antt =====
-- shared/execution.ts: the execution contract between the board and its endpoints.
pub mod Json
pub mod Text
pub mod Check
pub mod Assignment
pub mod Result
pub mod Binding
