-- ===== src/Soniox.antt =====
-- src/asr/soniox: the Soniox streaming backend.
pub mod Protocol
pub mod Accumulator
pub mod Client
pub mod Backend
mod Tests
