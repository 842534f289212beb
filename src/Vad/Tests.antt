-- ===== src/Vad/Tests.antt =====
-- The detector and its ring buffer at concrete input, and the theorems at them. Probabilities are
-- percentages.
use larmindon_core.Base.{ℕ, ◌≡◌, refl, Bool, some, List, [], ◌∷◌, ◌++◌, arith, leb, replicate}
use larmindon_core.Vad.{
  VadState, silence, speech, is_silence, speech_started, speech_continues, speech_ended,
  VadStateMachine, process, process_all,
}
use larmindon_core.Vad.Ring
use larmindon_core.Vad.Ring.Window.{window, Buffers, new-Buffers}
use larmindon_core.Vad.Ring.Refines.{Op, pushes, drains, run, run_spec, run_refines}
use larmindon_core.Vad.Timing.{pause_ends}
use larmindon_core.Vad.Onset.{audio, count_above, onset_needs_speech, onset_opens}

-- `ge`.
abbrev at_least : ℕ → ℕ → Bool
at_least p t = leb t p

abbrev calls : List (Op ℕ)
calls = pushes (1 ∷ 2 ∷ 3 ∷ []) ∷ drains ∷ pushes (4 ∷ []) ∷ pushes (5 ∷ 6 ∷ 7 ∷ []) ∷ drains ∷ []

run_refines_example : run calls (Ring.new 0 2) ≡ some (run_spec 2 calls [])
run_refines_example = run_refines 0 2 calls (omega arith)

-- A detector of 3 frames each way, in the given state.
abbrev detector : VadState → VadStateMachine ℕ ℕ
detector state = record {
  ring_buffer = Ring.new 0 2;
  state = state;
  threshold_start = 50;
  threshold_end = 30;
  min_silence_frames = 3;
  min_speech_frames = 3;
  speech_frame_count = 0;
  silence_frame_count = 0;
}

abbrev quiet : List (ℕ × List ℕ)
quiet = (10, 1 ∷ []) ∷ (29, 2 ∷ []) ∷ []

abbrev loud : List (ℕ × List ℕ)
loud = (50, 1 ∷ 2 ∷ []) ∷ (90, 3 ∷ []) ∷ []

pause_ends_example :
    (m' m'' : VadStateMachine ℕ ℕ) × (process_all at_least quiet (detector speech)
      ≡ some (replicate 2 speech_continues, m'))
    × (m'.state ≡ speech)
    × (process at_least 5 (3 ∷ []) m' ≡ some (speech_ended, m''))
    × (m''.state ≡ silence)
pause_ends_example =
    pause_ends at_least quiet (detector speech) 5 (3 ∷ []) refl (omega arith) (refl, (refl, tt))
      refl refl

onset_needs_speech_example :
    (m' : VadStateMachine ℕ ℕ) × (process_all at_least loud (detector silence)
      ≡ some (replicate 2 is_silence, m'))
    × (m'.state ≡ silence)
    × Buffers m'.ring_buffer ([] ++ audio loud)
unfolding count_above
onset_needs_speech_example =
    onset_needs_speech at_least loud (detector silence) [] refl (omega arith)
      (new-Buffers 0 2 (omega arith)) (omega arith)

onset_opens_example :
    (m' m'' : VadStateMachine ℕ ℕ) × (process_all at_least loud (detector silence)
      ≡ some (replicate 2 is_silence, m'))
    × (process at_least 70 (4 ∷ []) m' ≡ some (speech_started (window 2 ([] ++ audio loud)), m''))
    × (m''.state ≡ speech)
    × Buffers m''.ring_buffer []
unfolding Ring.new
onset_opens_example =
    onset_opens at_least loud (detector silence) [] 70 (4 ∷ []) refl (omega arith)
      (new-Buffers 0 2 (omega arith)) (refl, (refl, tt)) refl refl
