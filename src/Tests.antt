-- ===== src/Tests.antt =====
-- The theorems at concrete inputs, and runs of the definitions.
pub mod Frames
pub mod Sessions
pub mod Gates
pub mod Devices
pub mod Enclaves
pub mod Links
pub mod Tunnels
pub mod Units
pub mod Services
pub mod Gateways
pub mod Handshakes
