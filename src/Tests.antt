-- ===== src/Tests.antt =====
-- Each property at a concrete input, on the database in memory of Rocks/Reference.
pub mod Samples
pub mod Buffers
pub mod Databases
pub mod Data
pub mod Logs
pub mod Nodes
pub mod Control
pub mod Balance
pub mod Cluster
pub mod Interfaces
pub mod Sessions
