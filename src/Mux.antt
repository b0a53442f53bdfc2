-- ===== src/Mux.antt =====
-- internal/mux/mux.go: one session over the tunnel's connection.
pub mod Stream
pub mod Session
pub mod ReadLoop
pub mod Calls
pub mod Buffer
pub mod Table
pub mod Invariant
pub mod Steps
pub mod Runs
pub mod Transfer
pub mod Endings
