-- ===== src/Estim/Session.antt =====
-- internal/estim/session.go: the companion protocol of one live session.
pub mod Outbox
pub mod Trimmed
pub mod State
pub mod Handle
pub mod Tasks
pub mod Flush
pub mod Steps
pub mod Keeping
pub mod Orderly
pub mod Handling
pub mod Single
pub mod Quiet
pub mod Stale
pub mod Gone
pub mod Batches
pub mod Driving
pub mod Driven
