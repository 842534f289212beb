-- ===== src/Settings.antt =====
-- src/settings.rs: the settings, their checks, the overrides by environment variables and the file.
-- `Host` is what the code gets from outside: f32 and its order, the file system, the environment
-- and paths. JSON is a parameter too (serde derives it). Release build: `usize` is 64 bits and wraps.
pub mod Checks
pub mod Overrides
pub mod File
pub mod Valid
pub mod Stored
pub mod Hidden
mod Tests
use larmindon_core.Base.{
  ℕ, Bool, true, false, Option, List, [], ◌∷◌, not, ◌*◌, ◌/◌, ◌%◌, ◌^◌, is_empty,
}
use larmindon_core.Text.{Text, codes}

abbrev pub usize_mod : ℕ
usize_mod = 2 ^ 64

-- `tenths n` is the f32 literal n / 10. `le` and `lt` are false where an operand is NaN. `exists`,
-- `create_dir_all` and so on are those of std::fs and std::path, an error being its message.
pub record Host : Type 1 where
  pub F32 : Type 0
  pub lt : F32 → F32 → Bool
  pub le : F32 → F32 → Bool
  pub tenths : ℕ → F32
  pub neg : F32 → F32
  pub Disk : Type 0
  pub path_exists : Disk → Text → Bool
  pub create_dir_all : Disk → Text → Disk × Option Text
  pub read_to_string : Disk → Text → Option Text
  pub write : Disk → Text → Text → Disk × Option Text
  pub var : Text → Option Text
  pub join : Text → Text → Text
  pub parent : Text → Option Text

pub record Settings (F : Type 0) : Type 0 where
  pub asr_provider : Text
  pub model_path : Text
  pub chunk_ms : ℕ
  pub intra_threads : ℕ
  pub inter_threads : ℕ
  pub punctuation_reset : Bool
  pub empty_reset_threshold : ℕ
  pub font_family : Text
  pub font_size_px : ℕ
  pub theme_mode : Text
  pub vad_threshold_start : F
  pub vad_threshold_end : F
  pub diagnostics_enabled : Bool
  pub diagnostics_db_path : Text
  pub agc_enabled : Bool
  pub agc_target_rms_dbfs : F
  pub agc_max_gain_db : F
  pub agc_attack_ms : F
  pub agc_release_ms : F
  pub soniox_api_key : Text
  pub soniox_model : Text
  pub soniox_language_hints : Text
  pub soniox_diarization : Bool
  pub soniox_endpoint_detection : Bool

-- What `Debug` shows in the place of the key.
unfoldable pub debug_key : Text → Text
debug_key [] = codes "<unset>"
debug_key (_ ∷ _) = codes "<redacted>"

module _ {F : Type 0} where
  unfoldable pub redacted : Settings F → Settings F
  redacted s = record s { soniox_api_key = [] }

  unfoldable pub has_soniox_api_key : Settings F → Bool
  has_soniox_api_key s = not (is_empty s.soniox_api_key)

  -- The fields that `Debug` shows.
  unfoldable pub debug_fields : Settings F → Settings F
  unfolding debug_key
  debug_fields s = record s { soniox_api_key = debug_key s.soniox_api_key }

unfoldable pub chunk_ms_to_samples : ℕ → ℕ
chunk_ms_to_samples ms = 16000 * ms % usize_mod / 1000
