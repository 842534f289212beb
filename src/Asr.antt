-- ===== src/Asr.antt =====
-- src/asr/mod.rs: the transcript updates that every backend emits, its errors and its capabilities.
-- `SegmentIds` is the shared id counter; `Store` is the frontend's view of the updates.
pub mod SegmentIds
pub mod Store
pub mod Backend
use larmindon_core.Base.{ℕ, Bool, Option}
use larmindon_core.Text.{Text}

-- `SpeakerId(String)`.
pub data SpeakerId : Type 0 where
  speaker_id : Text → SpeakerId

pub record TranscriptUpdate : Type 0 where
  pub segment_id : ℕ
  pub is_final : Bool
  pub text : Text
  pub speaker : Option SpeakerId

pub data AsrError : Type 0 where
  fatal transient : Text → AsrError

pub data AudioGating : Type 0 where
  vad_gated continuous : AudioGating

-- `hold` is a `Duration` in milliseconds.
pub data ActivitySource : Type 0 where
  vad : ActivitySource
  backend : ℕ → ActivitySource

pub record AsrCapabilities : Type 0 where
  pub revises_output : Bool
  pub diarization : Bool
  pub audio_gating : AudioGating
  pub activity_source : ActivitySource
