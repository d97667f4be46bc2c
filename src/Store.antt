-- ===== src/Store.antt =====
-- The relational store behind the board: tables of rows, and the SQL statements of
-- packages/server/src/repositories as functions on them.
pub mod Table
pub mod Rows
pub mod Tasks
pub mod Claims
pub mod Workers
pub mod Events
pub mod Enrollment
pub mod Agents
