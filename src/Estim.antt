-- ===== src/Estim.antt =====
-- internal/estim: the link to an electrical stimulation device.
pub mod Caps
pub mod Within
pub mod Finders
pub mod Preference
pub mod Runtime
pub mod Session
pub mod Mastago
