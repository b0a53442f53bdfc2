-- ===== src/Rendezvous.antt =====
-- internal/rendezvous/rendezvous.go: the client of the service. It asks for a stream, reads its events,
-- tells its handler, and comes back after a delay whenever the stream ends.
pub mod Backoff
pub mod Events
pub mod Client
pub mod Calls
