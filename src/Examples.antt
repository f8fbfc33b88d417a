-- ===== src/Examples.antt =====
-- Tests of the definitions at concrete inputs, and for each theorem with conditions an instance at
-- which they hold.
pub mod Batches
pub mod Frontiers
pub mod Times
pub mod Transport
pub mod Permits
pub mod Inputs
pub mod Scheduling
pub mod Graphs
pub mod Builders
pub mod Notifications
