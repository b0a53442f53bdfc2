-- ===== src/Estim/Mastago.antt =====
-- internal/estim/mastago: the AT protocol of the reference unit, over Bluetooth Low Energy. Decoded
-- lines, the framing of what arrives, one exchange at a time, and the operations built on it.
pub mod Codec
pub mod Countdown
pub mod Reply
pub mod Framing
pub mod Device
pub mod Exchange
pub mod Commands
pub mod Ramp
pub mod Driver
pub mod Readings
pub mod Writes
pub mod Limits
pub mod Capped
pub mod Executes
pub mod Answers
pub mod Arrives
pub mod Climbs
pub mod Works
pub mod Reaches
pub mod Turns
pub mod Paused
pub mod Confirmed
