-- ===== src/Attest.antt =====
-- internal/attest: whether an origin is an enclave that a camera may be relayed to.
pub mod Json
pub mod Release
pub mod Policy
pub mod Floors
pub mod Claims
pub mod Token
pub mod Hosts
pub mod Order
pub mod Tighten
pub mod Passes
pub mod Verified
pub mod Vouched
pub mod Accepted
pub mod Meets
pub mod Bound
