-- ===== src/Groups.antt =====
-- Task groups: packages/server/src/routes/groups.ts.
pub mod Dependencies
pub mod Queue
