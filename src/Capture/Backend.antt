-- ===== src/Capture/Backend.antt =====
-- src/audio_capture/mod.rs: the trait `AudioCapture`, over the state `C` of a backend.
use larmindon_core.Base.{ℕ, List, Result}
use larmindon_core.Text.{Text}
use larmindon_core.Capture.Devices.{AudioDevice}

-- A capture is started with the id of a device and the places of the buffer and of the stop flag, and
-- tells its sample rate.
pub record AudioCapture (C Str : Type 0) : Type 0 where
  pub enumerate_devices : C → Result {0, 0} (List AudioDevice) Text × C
  pub start : Text → ℕ → ℕ → C → Result {0, 0} (Str × ℕ) Text × C
