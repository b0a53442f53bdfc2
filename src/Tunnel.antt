-- ===== src/Tunnel.antt =====
-- internal/tunnel: the connector's end of a tunnel to an enclave.
pub mod Policy
pub mod Single
