-- ===== src/Gateway.antt =====
-- internal/gateway: the enclave's end of a tunnel.
pub mod Server
pub mod Steps
pub mod Invariant
pub mod Owner
