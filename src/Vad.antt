-- ===== src/Vad.antt =====
-- src/vad.rs: voice activity detection. `P` is the type of probabilities and thresholds (f32), `ge`
-- its test `>=`, and `A` the type of samples, which are only moved. `Option` is a panic of the ring
-- buffer. The u32 counters wrap, as in a release build.
pub mod Ring
pub mod Timing
pub mod Onset
pub mod Processor
pub mod Steps
mod Tests
use larmindon_core.Base.{
  ℕ, ◌+◌, ◌-◌, ◌*◌, ◌/◌, ◌%◌, ◌^◌, Bool, true, false, Option, none, some, List, [], ◌∷◌, leb,
  if◌then◌else◌, ◌>>=◌,
}
use larmindon_core.Vad.Ring
use larmindon_core.Vad.Ring.{RingBuffer}

abbrev pub vad_sample_rate : ℕ
vad_sample_rate = 16000

abbrev pub vad_chunk_size : ℕ
vad_chunk_size = 512

abbrev pub u32_mod : ℕ
u32_mod = 2 ^ 32

-- `(512 / 16000 * 1000) as u32`.
abbrev pub frame_ms : ℕ
frame_ms = vad_chunk_size * 1000 / vad_sample_rate

pub data VadState : Type 0 where
  silence speech : VadState

pub data VadDecision {ℓ} (A : Type ℓ) : Type ℓ where
  is_silence : VadDecision A
  speech_started : List A → VadDecision A
  speech_continues speech_ended : VadDecision A

pub record VadStateMachine (P A : Type 0) : Type 0 where
  pub ring_buffer : RingBuffer A
  pub state : VadState
  pub threshold_start : P
  pub threshold_end : P
  pub min_silence_frames : ℕ
  pub min_speech_frames : ℕ
  pub speech_frame_count : ℕ
  pub silence_frame_count : ℕ

abbrev pub Outcome : Type 0 → Type 0 → Type 0
Outcome P A = Option (VadDecision A × VadStateMachine P A)

module _ {P A : Type 0} where
  -- `zero_sample` is `0.0`.
  unfoldable pub new : A → P → P → ℕ → ℕ → ℕ → VadStateMachine P A
  unfolding Ring.new
  new zero_sample start end_ min_silence_ms min_speech_ms pre_speech_ms = record {
    ring_buffer = Ring.new zero_sample (vad_sample_rate * pre_speech_ms / 1000);
    state = silence;
    threshold_start = start;
    threshold_end = end_;
    min_silence_frames = min_silence_ms / frame_ms;
    min_speech_frames = min_speech_ms / frame_ms;
    speech_frame_count = 0;
    silence_frame_count = 0;
  }

  unfoldable pub reset : A → VadStateMachine P A → VadStateMachine P A
  unfolding Ring.new
  reset zero_sample m = record m {
    ring_buffer = Ring.new zero_sample m.ring_buffer.capacity;
    state = silence;
    speech_frame_count = 0;
    silence_frame_count = 0;
  }

  unfoldable pub update_params : P → P → ℕ → ℕ → VadStateMachine P A → VadStateMachine P A
  update_params start end_ min_silence_ms min_speech_ms m = record m {
    threshold_start = start;
    threshold_end = end_;
    min_silence_frames = min_silence_ms / frame_ms;
    min_speech_frames = min_speech_ms / frame_ms;
  }

  -- The frame goes to the ring buffer, and the decision is silence.
  unfoldable pub buffer_frame : List A → VadStateMachine P A → Outcome P A
  buffer_frame frame m = do
    ring ← Ring.push_slice frame m.ring_buffer
    some (is_silence, record m { ring_buffer = ring })

  unfoldable pub start_speech : VadStateMachine P A → Outcome P A
  start_speech m = do
    (pre_speech, ring) ← Ring.drain_all m.ring_buffer
    some (speech_started pre_speech, record m { ring_buffer = ring; state = speech })

  -- A frame in silence, by its test.
  unfoldable pub in_silence : Bool → List A → VadStateMachine P A → Outcome P A
  unfolding buffer_frame start_speech
  in_silence true frame m =
      let m' : VadStateMachine P A = record m {
        speech_frame_count = (m.speech_frame_count + 1) % u32_mod;
        silence_frame_count = 0;
      } in
      if leb m'.min_speech_frames m'.speech_frame_count
      then start_speech m'
      else buffer_frame frame m'
  in_silence false frame m = buffer_frame frame (record m {
    speech_frame_count = m.speech_frame_count - 1;
    silence_frame_count = (m.silence_frame_count + 1) % u32_mod;
  })

  -- A frame in speech.
  unfoldable pub in_speech : Bool → VadStateMachine P A → VadDecision A × VadStateMachine P A
  in_speech true m = (
    speech_continues,
    record m { speech_frame_count = (m.speech_frame_count + 1) % u32_mod; silence_frame_count = 0 },
  )
  in_speech false m =
      let m' : VadStateMachine P A = record m {
        silence_frame_count = (m.silence_frame_count + 1) % u32_mod;
        speech_frame_count = 0;
      } in
      if leb m'.min_silence_frames m'.silence_frame_count
      then (speech_ended, record m' { state = silence })
      else (speech_continues, m')

  abbrev pub active_threshold : VadState → VadStateMachine P A → P
  active_threshold silence m = m.threshold_start
  active_threshold speech m = m.threshold_end

  abbrev pub dispatch : VadState → Bool → List A → VadStateMachine P A → Outcome P A
  dispatch silence is_speech frame m = in_silence is_speech frame m
  dispatch speech is_speech frame m = some (in_speech is_speech m)

  unfoldable pub process : (P → P → Bool) → P → List A → VadStateMachine P A → Outcome P A
  unfolding in_silence in_speech
  process ge prob frame m = dispatch m.state (ge prob (active_threshold m.state m)) frame m

  -- The decisions over a list of frames, each with its probability.
  unfoldable pub process_all :
      (P → P → Bool)
      → List (P × List A)
      → VadStateMachine P A
      → Option (List (VadDecision A) × VadStateMachine P A)
  process_all ge [] m = some ([], m)
  process_all ge ((prob, frame) ∷ frames) m = do
    (d, m') ← process ge prob frame m
    (ds, m'') ← process_all ge frames m'
    some (d ∷ ds, m'')
