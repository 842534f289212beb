-- ===== src/Nemotron/Tests.antt =====
-- The on-device backend at concrete input: the model counts its chunks and hears their first samples.
use larmindon_core.Base.{
  ℕ, suc, ◌%◌, ◌≤◌, ◌≡◌, refl, true, some, List, [], ◌∷◌, ◌++◌, ◌<◌, replicate, arith, length,
}
use larmindon_core.Asr.{TranscriptUpdate}
use larmindon_core.Nemotron.{NemotronBackend, Transcript, ok, mark_speech_end}
use larmindon_core.Nemotron.Decoding.{updates, process}
use larmindon_core.Nemotron.Transcribing.{Hears}
use larmindon_core.Nemotron.Chunks.{process-leaves, speech_end-transcribes}

abbrev reset : ℕ → ℕ
reset model = 0

abbrev transcribe : ℕ → List ℕ → Transcript × ℕ
transcribe model [] = (ok [], suc model)
transcribe model (x ∷ xs) = (ok (x ∷ b'.' ∷ []), suc model)

abbrev loaded : NemotronBackend ℕ ℕ
loaded = record {
  model = some 0;
  asr_buffer = 1 ∷ 2 ∷ 3 ∷ [];
  chunk_size = 2;
  chunk_num = 0;
  consecutive_empty = 0;
  chunks_since_decoder_reset = 0;
  punctuation_reset_enabled = true;
  empty_reset_threshold = 4;
  replay_buffer = record { chunks = []; max_chunks = 4 };
  pending_speech_end_resets = 2 ∷ [];
}

process-leaves_example :
    (us : List TranscriptUpdate) × (ids' : ℕ) × (self' : NemotronBackend ℕ ℕ) × (process reset
        transcribe true 1 loaded
      ≡ some (updates us, ids', self'))
    × (length self'.asr_buffer ≡ 3 % 2)
    × (2 ≤ 3 → length self'.asr_buffer ≡ 0 → self'.pending_speech_end_resets ≡ [])
    × Hears reset transcribe true 2 (1 ∷ 2 ∷ 3 ∷ []) self'.asr_buffer 0 us self'.model
process-leaves_example =
    process-leaves reset transcribe true 1 loaded 0 refl (omega arith) (omega arith, tt)

speech_end-transcribes_example :
    (us : List TranscriptUpdate) × (ids' : ℕ) × (self' : NemotronBackend ℕ ℕ) × (process reset
        transcribe true 1
        (mark_speech_end 0 loaded)
      ≡ some (updates us, ids', self'))
    × (self'.asr_buffer ≡ [])
    × (self'.pending_speech_end_resets ≡ [])
    × (n : ℕ) × (n < 2)
    × Hears reset transcribe true 2 ((1 ∷ 2 ∷ 3 ∷ []) ++ replicate n 0) [] 0 us self'.model
speech_end-transcribes_example =
    speech_end-transcribes reset transcribe true 1 0 loaded 0 refl (omega arith) (omega arith, tt)
      (omega arith)
