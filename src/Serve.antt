-- ===== src/Serve.antt =====
-- internal/serve: the connector's own streams. Modelled are the gate of gate.go and the
-- writer of timed.go.
pub mod Gate
pub mod Timed
