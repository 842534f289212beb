-- ===== src/Diag/Rows.antt =====
-- src/diag.rs: what the methods of the sink are given to write. `F` is f64.
use larmindon_core.Base.{ℕ, Bool}
use larmindon_core.Text.{Text}

pub record TranscribeRow (F : Type 0) : Type 0 where
  pub uptime_ms : ℕ
  pub chunk_num : ℕ
  pub inference_ms : ℕ
  pub drain_samples : ℕ
  pub drain_audio_ms : F
  pub asr_buf_len : ℕ
  pub is_empty : Bool
  pub preview : Text
  pub vad_state : Text
  pub vad_ms : ℕ
  pub resample_ms : ℕ
  pub iteration_ms : ℕ
  pub chunk_source : Text

pub record AsrErrorRow : Type 0 where
  pub uptime_ms : ℕ
  pub chunk_num : ℕ
  pub inference_ms : ℕ
  pub error_msg : Text
  pub vad_state : Text
  pub chunk_source : Text

pub record PunctuationResetRow : Type 0 where
  pub uptime_ms : ℕ
  pub consecutive_empty : ℕ
  pub chunks_since_decoder_reset : ℕ

pub record MidSpeechResetRow : Type 0 where
  pub uptime_ms : ℕ
  pub consecutive_empty : ℕ
  pub chunks_since_decoder_reset : ℕ
  pub replay_chunks : ℕ
  pub replay_nonempty_chunks : ℕ
  pub replay_inference_ms : ℕ

pub record SpeechEndRow (F : Type 0) : Type 0 where
  pub uptime_ms : ℕ
  pub speech_duration_ms : F
  pub consecutive_empty : ℕ
  pub chunks_since_decoder_reset : ℕ

-- The methods that write a row.
pub data Write (F : Type 0) : Type 0 where
  transcribe : TranscribeRow F → Write F
  asr_error : AsrErrorRow → Write F
  resample_error vad_error : ℕ → Text → Write F
  backend_error : ℕ → Text → Text → Write F
  shutdown speech_start : ℕ → ℕ → Write F
  punctuation_reset : PunctuationResetRow → Write F
  mid_speech_reset : MidSpeechResetRow → Write F
  speech_end : SpeechEndRow F → Write F
