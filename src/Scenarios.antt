-- ===== src/Scenarios.antt =====
-- Concrete runs of the store, and the theorems at them.
mod Leases
mod Worker
mod Completion
mod Gateway
mod Checks
mod Stored
mod Opened
mod Orders
mod Files
mod Recovery
mod Cloud
mod Cards
mod Callbacks
mod Commands
mod Sync
mod Routes
