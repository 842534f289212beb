-- ===== src/Asr/Backend.antt =====
-- src/asr/mod.rs: the trait `AsrBackend` as a record of its methods over the backend's state `B`, and
-- `create_backend`. Of the contexts that the methods get, the settings and the state of the VAD are
-- passed; the id counter is part of `B`, and the times and the diagnostics are left out.
use larmindon_core.Base.{
  ℕ, Bool, ◌&&◌, Option, none, some, List, ◌++◌, if◌then◌else◌, Result, ok, err,
}
use larmindon_core.Text.{Text, codes, text_eq}
use larmindon_core.Asr.{TranscriptUpdate, AsrError, fatal, transient, AsrCapabilities}
use larmindon_core.Vad.{VadState}
use larmindon_core.Settings.{Settings}

abbrev pub Answer : Type 0 → Type 0
Answer B = Result (List TranscriptUpdate) AsrError × B

-- The instants are in ms.
pub record AsrBackend (F B : Type 0) : Type 0 where
  pub id : B → Text
  pub capabilities : B → AsrCapabilities
  pub is_cacheable : B → Bool
  pub begin_session : Settings F → B → Result {0, 0} Unit AsrError × B
  pub push_audio : List F → B → B
  pub mark_speech_start : B → B
  pub mark_speech_end : ℕ → ℕ → B → B
  pub process : VadState → B → Answer B
  pub poll : B → Answer B
  pub last_speech_at : B → Option ℕ
  pub chunks_processed : B → ℕ
  pub update_settings : Settings F → B → B
  pub end_session : B → Answer B

-- The message of either error, as `Display` shows it.
unfoldable pub message : AsrError → Text
message (fatal m) = m
message (transient m) = m

module _ {F B : Type 0} (api : AsrBackend F B) where
  -- `cached.filter(..)`.
  unfoldable pub reusable : Text → Option B → Option B
  unfolding text_eq
  reusable provider none = none
  reusable provider (some b) =
      if api.is_cacheable b && text_eq (api.id b) provider then some b else none

  abbrev or_new : Option B → B → B
  or_new none new = new
  or_new (some b) new = b

  -- With the feature asr-soniox; `new_nemotron` and `new_soniox` are the two constructors.
  unfoldable pub create_backend : B → B → Text → Option B → Result B AsrError
  unfolding reusable
  create_backend new_nemotron new_soniox provider cached =
      if text_eq provider (codes "nemotron")
      then ok (or_new (reusable provider cached) new_nemotron)
      else (if text_eq provider (codes "soniox")
          then ok new_soniox
          else err (fatal (codes "Unknown transcription provider '" ++ (provider ++ codes "'"))))
