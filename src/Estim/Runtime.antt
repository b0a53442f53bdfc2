-- ===== src/Estim/Runtime.antt =====
-- internal/estim/runtime.go, `Runtime`: one device, held fail-closed.
pub mod State
pub mod Release
pub mod Actuation
pub mod Telemetry
pub mod Select
pub mod Events
pub mod Unarmed
pub mod Safety
pub mod Latch
pub mod Window
pub mod Given
pub mod Recent
