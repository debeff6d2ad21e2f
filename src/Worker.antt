-- ===== src/Worker.antt =====
-- internal/worker/worker.go
pub mod Env
pub mod Run
pub mod Safety
pub mod Begins
pub mod Investigates
pub mod Starts
pub mod Completes
pub mod Breaks
pub mod Strands
pub mod Loop
pub mod Prompts
pub mod Retries
