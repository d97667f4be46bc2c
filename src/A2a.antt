-- ===== src/A2a.antt =====
-- The board as a peer of the A2A protocol: states, subscribers and cancellations.
pub mod State
pub mod Assignments
pub mod Events
pub mod EventHub
pub mod Cancellations
