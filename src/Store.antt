-- ===== src/Store.antt =====
-- internal/store/sqlite.go
pub mod Tables
pub mod Intake
pub mod Claims
pub mod Settlement
pub mod Records
pub mod Runs
pub mod Moves
pub mod Keeps
pub mod Invariant
pub mod Marking
pub mod Repeats
pub mod Holds
pub mod Progress
pub mod Carding
pub mod Requeue
pub mod Closing
pub mod Opens
pub mod Migration
pub mod Opened
pub mod Upgrades
pub mod Recovery
pub mod Leases
