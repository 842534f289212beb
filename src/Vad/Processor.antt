-- ===== src/Vad/Processor.antt =====
-- src/vad.rs: `SileroModel` and `VadProcessor`. `run` is the ONNX session: from the input and its
-- state an error, or the new state and then the probability or an error on reading it. `Option` is
-- a panic: the assertion on the frame's length, or one of the state machine.
use larmindon_core.Base.{
  ℕ, ◌-◌, Bool, Option, none, some, List, ◌++◌, ◌==◌, if◌then◌else◌, ◌>>=◌, length, replicate, drop,
  Result, ok, err,
}
use larmindon_core.Text.{Text}
use larmindon_core.Vad
use larmindon_core.Vad.{VadDecision, VadState, VadStateMachine, vad_chunk_size}

abbrev pub vad_context_size : ℕ
vad_context_size = 64

pub record SileroModel (S A : Type 0) : Type 0 where
  pub state : S
  pub context : List A

pub record VadProcessor (P S A : Type 0) : Type 0 where
  pub model : SileroModel S A
  pub state_machine : VadStateMachine P A

abbrev pub Run : Type 0 → Type 0 → Type 0 → Type 0
Run P S A = List A → S → Result (S × Result P Text) Text

-- `zero_state` and `zero_sample` are the zeros of the two tensors.
unfoldable pub reset_model : {S A : Type 0} → S → A → SileroModel S A
reset_model zero_state zero_sample = record {
  state = zero_state;
  context = replicate vad_context_size zero_sample;
}

module _ {P S A : Type 0} where
  -- The outcome of the session. The context is the end of the frame.
  unfoldable pub after_run :
      SileroModel S A → List A → Result (S × Result P Text) Text → Result P Text × SileroModel S A
  after_run m frame (err e) = (err e, m)
  after_run m frame (ok (state, prob)) =
      (prob, record { state = state; context = drop (vad_chunk_size - vad_context_size) frame })

  unfoldable pub model_frame :
      Run P S A → List A → SileroModel S A → Option (Result P Text × SileroModel S A)
  unfolding after_run
  model_frame run frame m =
      if length frame == vad_chunk_size
      then some (after_run m frame (run (m.context ++ frame) m.state))
      else none

  unfoldable pub new : S → A → P → P → ℕ → ℕ → ℕ → VadProcessor P S A
  unfolding reset_model Vad.new
  new zero_state zero_sample start end_ min_silence_ms min_speech_ms pre_speech_ms = record {
    model = reset_model zero_state zero_sample;
    state_machine = Vad.new zero_sample start end_ min_silence_ms min_speech_ms pre_speech_ms;
  }

  unfoldable pub reset : S → A → VadProcessor P S A → VadProcessor P S A
  unfolding reset_model Vad.reset
  reset zero_state zero_sample v = record {
    model = reset_model zero_state zero_sample;
    state_machine = Vad.reset zero_sample v.state_machine;
  }

  unfoldable pub update_params : P → P → ℕ → ℕ → VadProcessor P S A → VadProcessor P S A
  unfolding Vad.update_params
  update_params start end_ min_silence_ms min_speech_ms v = record v {
    state_machine = Vad.update_params start end_ min_silence_ms min_speech_ms v.state_machine;
  }

  -- `?` on the model's result, then the state machine.
  unfoldable pub decide :
      (P → P → Bool)
      → List A
      → VadStateMachine P A
      → Result P Text × SileroModel S A
      → Option (Result (VadDecision A × P) Text × VadProcessor P S A)
  unfolding Vad.process
  decide ge frame m (err e, model) = some (err e, record { model = model; state_machine = m })
  decide ge frame m (ok prob, model) = do
    (decision, m') ← Vad.process ge prob frame m
    some (ok (decision, prob), record { model = model; state_machine = m' })

  unfoldable pub process_frame :
      (P → P → Bool)
      → Run P S A
      → List A
      → VadProcessor P S A
      → Option (Result (VadDecision A × P) Text × VadProcessor P S A)
  unfolding model_frame decide
  process_frame ge run frame v = model_frame run frame v.model >>= decide ge frame v.state_machine
