-- ===== src/Vad/Steps.antt =====
-- src/vad.rs: one frame of the state machine as a step, with what the ring buffer stands for.
use larmindon_core.Base.{
  ℕ, ◌+◌, ◌%◌, ◌≡◌, refl, sym, subst, Bool, true, false, some, List, [], ◌++◌, leb, if_holds,
}
use larmindon_core.Vad.Ring.Drain.{drain_all-Buffers}
use larmindon_core.Vad.Ring.Window.{window, Buffers, push_slice-Buffers}
use larmindon_core.Vad.{
  VadState, silence, speech, VadDecision, is_silence, speech_started, speech_continues,
  speech_ended, VadStateMachine, Outcome, u32_mod, process, in_silence, in_speech, buffer_frame,
  start_speech, dispatch, active_threshold,
}

-- A frame moves the state, takes a decision and changes the samples that wait for an onset, of which
-- the newest `cap` are delivered at one.
pub data Step {A : Type 0} (cap : ℕ) (xs frame : List A)
    : VadState → VadDecision A → VadState → List A → Type 0 where
  waits : Step cap xs frame silence is_silence silence (xs ++ frame)
  opens : Step cap xs frame silence (speech_started (window cap xs)) speech []
  goes_on : Step cap xs frame speech speech_continues speech xs
  ends : Step cap xs frame speech speech_ended silence xs

module _ {P A : Type 0} where
  -- A step that has been taken: the decision, the new machine and the samples that wait.
  pub record Stepped (cap : ℕ) (s : VadState) (xs frame : List A) (o : Outcome P A) : Type 0 where
    pub decision : VadDecision A
    pub machine : VadStateMachine P A
    pub waiting : List A
    pub outcome : o ≡ some (decision, machine)
    pub buffers : Buffers machine.ring_buffer waiting
    pub capacity : machine.ring_buffer.capacity ≡ cap
    pub step : Step cap xs frame s decision machine.state waiting

  buffer_frame-Stepped :
      (frame : List A) (m : VadStateMachine P A) (xs : List A)
      → m.state ≡ silence
      → Buffers m.ring_buffer xs
      → Stepped m.ring_buffer.capacity silence xs frame (buffer_frame frame m)
  unfolding buffer_frame
  buffer_frame-Stepped frame m xs st v =
      let (ring, ok, v', cap) = push_slice-Buffers frame m.ring_buffer xs v in
      record {
        decision = is_silence;
        machine = record m { ring_buffer = ring };
        waiting = xs ++ frame;
        outcome = rw ok;
        buffers = v';
        capacity = cap;
        step =
            subst (λ t. Step m.ring_buffer.capacity xs frame silence is_silence t (xs ++ frame))
              (sym st) waits;
      }

  start_speech-Stepped :
      (frame : List A) (m : VadStateMachine P A) (xs : List A)
      → Buffers m.ring_buffer xs
      → Stepped m.ring_buffer.capacity silence xs frame (start_speech m)
  unfolding start_speech
  start_speech-Stepped frame m xs v =
      let (ring, ok, v', cap) = drain_all-Buffers m.ring_buffer xs v in
      record {
        decision = speech_started (window m.ring_buffer.capacity xs);
        machine = record m { ring_buffer = ring; state = speech };
        waiting = [];
        outcome = rw ok;
        buffers = v';
        capacity = cap;
        step = opens;
      }

  goes_on-Stepped :
      (frame : List A) (m : VadStateMachine P A) (xs : List A)
      → m.state ≡ speech
      → Buffers m.ring_buffer xs
      → Stepped m.ring_buffer.capacity speech xs frame (some (speech_continues, m))
  goes_on-Stepped frame m xs st v = record {
    decision = speech_continues;
    machine = m;
    waiting = xs;
    outcome = refl;
    buffers = v;
    capacity = refl;
    step =
        subst (λ t. Step m.ring_buffer.capacity xs frame speech speech_continues t xs) (sym st)
          goes_on;
  }

  ends-Stepped :
      (frame : List A) (m : VadStateMachine P A) (xs : List A)
      → Buffers m.ring_buffer xs
      → Stepped m.ring_buffer.capacity speech xs frame
          (some (speech_ended, record m { state = silence }))
  ends-Stepped frame m xs v = record {
    decision = speech_ended;
    machine = record m { state = silence };
    waiting = xs;
    outcome = refl;
    buffers = v;
    capacity = refl;
    step = ends;
  }

  dispatch-Stepped :
      (s : VadState) (b : Bool) (frame : List A) (m : VadStateMachine P A) (xs : List A)
      → m.state ≡ s
      → Buffers m.ring_buffer xs
      → Stepped m.ring_buffer.capacity s xs frame (dispatch s b frame m)
  unfolding in_silence in_speech
  dispatch-Stepped silence true frame m xs st v =
      let m₁ : VadStateMachine P A = record m {
        speech_frame_count = (m.speech_frame_count + 1) % u32_mod;
        silence_frame_count = 0;
      } in
      if_holds (Stepped m.ring_buffer.capacity silence xs frame)
        (leb m₁.min_speech_frames m₁.speech_frame_count) (start_speech m₁) (buffer_frame frame m₁)
        (λ _. start_speech-Stepped frame m₁ xs v) (λ _. buffer_frame-Stepped frame m₁ xs st v)
  dispatch-Stepped silence false frame m xs st v = buffer_frame-Stepped frame _ xs st v
  dispatch-Stepped speech true frame m xs st v = goes_on-Stepped frame _ xs st v
  dispatch-Stepped speech false frame m xs st v =
      let m₁ : VadStateMachine P A = record m {
        silence_frame_count = (m.silence_frame_count + 1) % u32_mod;
        speech_frame_count = 0;
      } in
      if_holds (λ r. Stepped m.ring_buffer.capacity speech xs frame (some r))
        (leb m₁.min_silence_frames m₁.silence_frame_count)
        (speech_ended, record m₁ { state = silence }) (speech_continues, m₁)
        (λ _. ends-Stepped frame m₁ xs v) (λ _. goes_on-Stepped frame m₁ xs st v)

  -- A frame never panics, in either state.
  pub process-Stepped :
      (ge : P → P → Bool) (prob : P) (frame : List A) (m : VadStateMachine P A) (xs : List A)
      → Buffers m.ring_buffer xs
      → Stepped m.ring_buffer.capacity m.state xs frame (process ge prob frame m)
  unfolding process
  process-Stepped ge prob frame m xs v =
      dispatch-Stepped m.state (ge prob (active_threshold m.state m)) frame m xs refl v
