-- ===== src/Engine.antt =====
-- src/audio_engine.rs: the engine's thread, of which the frames for the resampler are here.
pub mod Frames
pub mod Gating
pub mod Meter
pub mod Loop
pub mod Commands
mod Tests
