-- ===== src/Nemotron.antt =====
-- src/asr/nemotron.rs: the on-device backend. The model is a parameter, with its `reset` and its
-- `transcribe_chunk`; samples are of any type, with `silence` for 0.0. The diagnostics rows and the
-- clock are left out.
pub mod Punctuation
pub mod Decoding
pub mod Padding
pub mod Resets
pub mod Feeding
pub mod Transcribing
pub mod Chunks
mod Tests
use larmindon_core.Base.{
  ℕ, zero, suc, ◌+◌, ◌-◌, ◌%◌, Bool, true, false, not, ◌||◌, ◌&&◌, Option, none, some, List, [],
  ◌∷◌, ◌++◌, is_empty, length, take, drop, replicate, leb, ltb, ◌==◌, if◌then◌else◌,
}
use larmindon_core.Text.{Text, codes, trim_end, is_ascii_digit}
use larmindon_core.Asr.{TranscriptUpdate, AsrError, fatal, AsrCapabilities, vad_gated, vad}
use larmindon_core.Asr.SegmentIds

unfoldable pub capabilities : AsrCapabilities
capabilities = record {
  revises_output = false;
  diarization = false;
  audio_gating = vad_gated;
  activity_source = vad;
}

-- Recent chunks, kept so that they can be run again through a decoder just reset.
pub record ReplayBuffer {ℓ} (A : Type ℓ) : Type ℓ where
  pub chunks : List (List A)
  pub max_chunks : ℕ

-- `truncate_to_capacity`: what the loop leaves is the last `max_chunks`.
unfoldable pub truncate_to_capacity {ℓ} : {A : Type ℓ} → List A → ℕ → List A
truncate_to_capacity [] capacity = []
truncate_to_capacity (c ∷ cs) capacity =
    let rest = truncate_to_capacity cs capacity in
    if ltb capacity (length (c ∷ cs)) then rest else c ∷ cs

unfoldable pub update_capacity {ℓ} : {A : Type ℓ} → ℕ → ReplayBuffer A → ReplayBuffer A
unfolding truncate_to_capacity
update_capacity capacity b = record {
  chunks = truncate_to_capacity b.chunks capacity;
  max_chunks = capacity;
}

unfoldable pub push {ℓ} : {A : Type ℓ} → List A → ReplayBuffer A → ReplayBuffer A
unfolding truncate_to_capacity
push chunk b =
    if b.max_chunks == 0
    then b
    else record b { chunks = truncate_to_capacity (b.chunks ++ (chunk ∷ [])) b.max_chunks }

unfoldable pub clear {ℓ} : {A : Type ℓ} → ReplayBuffer A → ReplayBuffer A
clear b = record b { chunks = [] }

-- `PendingSpeechEndReset`, as its `reset_after_samples`: its other fields are for the diagnostics.
abbrev pub PendingSpeechEndReset : Type 0
PendingSpeechEndReset = ℕ

pub record NemotronBackend (M A : Type 0) : Type 0 where
  pub model : Option M
  pub asr_buffer : List A
  pub chunk_size : ℕ
  pub chunk_num : ℕ
  pub consecutive_empty : ℕ
  pub chunks_since_decoder_reset : ℕ
  pub punctuation_reset_enabled : Bool
  pub empty_reset_threshold : ℕ
  pub replay_buffer : ReplayBuffer A
  pub pending_speech_end_resets : List PendingSpeechEndReset

unfoldable pub new : {M A : Type 0} → NemotronBackend M A
new = record {
  model = none;
  asr_buffer = [];
  chunk_size = 0;
  chunk_num = 0;
  consecutive_empty = 0;
  chunks_since_decoder_reset = 0;
  punctuation_reset_enabled = true;
  empty_reset_threshold = 1;
  replay_buffer = record { chunks = []; max_chunks = 0 };
  pending_speech_end_resets = [];
}

-- What `transcribe_chunk` gives.
pub data Transcript : Type 0 where
  ok : Text → Transcript
  err : Text → Transcript

-- The model read from disk, or why it could not be.
pub data Loaded (M : Type 0) : Type 0 where
  loaded : M → Loaded M
  unloadable : Text → Loaded M

-- The settings that the backend reads, with `chunk_ms_to_samples` done.
pub record NemotronSettings : Type 0 where
  pub chunk_samples : ℕ
  pub punctuation_reset : Bool
  pub empty_reset_threshold : ℕ

unfoldable pub pad_to_chunk_boundary {ℓ} : {A : Type ℓ} → A → List A → ℕ → List A
pad_to_chunk_boundary silence buffer chunk_size =
    if is_empty buffer || chunk_size == 0
    then buffer
    else if length buffer % chunk_size == 0
    then buffer
    else buffer ++ replicate (chunk_size - length buffer % chunk_size) silence

module _ {M A : Type 0} where
  unfoldable pub begin_session :
      (M → M)
      → Loaded M
      → NemotronSettings
      → NemotronBackend M A
      → Option AsrError × NemotronBackend M A
  begin_session reset load settings self =
      let started : M → NemotronBackend M A = λ m. record {
        model = some m;
        asr_buffer = [];
        chunk_size = settings.chunk_samples;
        chunk_num = 0;
        consecutive_empty = 0;
        chunks_since_decoder_reset = 0;
        punctuation_reset_enabled = settings.punctuation_reset;
        empty_reset_threshold = settings.empty_reset_threshold;
        replay_buffer = record { chunks = []; max_chunks = settings.empty_reset_threshold };
        pending_speech_end_resets = [];
      } in
      elim self.model [
        | some m ↦ (none, started (reset m))
        | none ↦ elim load [
          | loaded m ↦ (none, started m)
          | unloadable e ↦ (some (fatal (codes "Failed to load Nemotron model: " ++ e)), self)
        ]
      ]

  unfoldable pub push_audio : List A → NemotronBackend M A → NemotronBackend M A
  push_audio samples self = record self { asr_buffer = self.asr_buffer ++ samples }

  unfoldable pub mark_speech_start : NemotronBackend M A → NemotronBackend M A
  unfolding clear
  mark_speech_start self = record self {
    consecutive_empty = 0;
    replay_buffer = clear self.replay_buffer;
  }

  unfoldable pub mark_speech_end : A → NemotronBackend M A → NemotronBackend M A
  unfolding pad_to_chunk_boundary
  mark_speech_end silence self =
      let padded = pad_to_chunk_boundary silence self.asr_buffer self.chunk_size in
      record self {
        asr_buffer = padded;
        pending_speech_end_resets = self.pending_speech_end_resets ++ (length padded ∷ []);
      }

  unfoldable pub update_settings : NemotronSettings → NemotronBackend M A → NemotronBackend M A
  unfolding update_capacity
  update_settings settings self = record self {
    punctuation_reset_enabled = settings.punctuation_reset;
    empty_reset_threshold = settings.empty_reset_threshold;
    replay_buffer = update_capacity settings.empty_reset_threshold self.replay_buffer;
  }
