-- ===== src/Vad/Onset.antt =====
-- src/vad.rs: how much speech it takes to open a segment, and what the segment begins with.
use larmindon_core.Base.{
  ℕ, suc, ◌+◌, ◌-◌, ◌%◌, ◌≤◌, ◌<◌, ◌≡◌, refl, ◌∙◌, ap, ap₂, Bool, true, false, inl, inr, some, List,
  [], ◌∷◌, ◌++◌, append-nil, append_assoc, arith, Bool-cases, All, length, replicate, leb,
  if◌then◌else◌, if_true, if_false,
}
use larmindon_core.Vad.Ring.{RingBuffer}
use larmindon_core.Vad.Ring.Drain.{drain_all-Buffers}
use larmindon_core.Vad.Ring.Window.{window, Buffers, push_slice-Buffers}
use larmindon_core.Vad.{
  silence, speech, is_silence, speech_started, VadStateMachine, u32_mod, process, process_all,
  in_silence, buffer_frame, start_speech, dispatch, active_threshold,
}

module _ {P A : Type 0} where
  abbrev pub audio : List (P × List A) → List A
  audio [] = []
  audio ((p, frame) ∷ fs) = frame ++ audio fs

module _ {P A : Type 0} (ge : P → P → Bool) where
  -- Every frame reaches the threshold.
  abbrev pub IsLoud : P → List (P × List A) → Type 0
  IsLoud t = All (λ f. ge f.0 t ≡ true)

  -- The number of frames that reach the threshold.
  unfoldable pub count_above : P → List (P × List A) → ℕ
  count_above t [] = 0
  count_above t ((p, frame) ∷ fs) = let n = count_above t fs in if ge p t then suc n else n

  -- What the ring buffer stands for after a silent frame.
  buffer_frame-Buffers :
      (frame : List A) (m : VadStateMachine P A) (xs : List A)
      → Buffers m.ring_buffer xs
      → (ring : RingBuffer A) × (buffer_frame frame m
          ≡ some (is_silence, record m { ring_buffer = ring }))
        × Buffers ring (xs ++ frame)
        × (ring.capacity ≡ m.ring_buffer.capacity)
  unfolding buffer_frame
  buffer_frame-Buffers frame m xs v =
      let (ring, ok, v', cap) = push_slice-Buffers frame m.ring_buffer xs v in
      (ring, rw ok, v', cap)

  process_silent :
      (p : P) (frame : List A) (m : VadStateMachine P A) (b : Bool)
      → m.state ≡ silence
      → ge p m.threshold_start ≡ b
      → process ge p frame m ≡ in_silence b frame m
  unfolding process
  process_silent p frame m b st e =
      ap (λ s. dispatch s (ge p (active_threshold s m)) frame m) st
      ∙ ap (λ t. in_silence t frame m) e

  -- A frame in silence that does not bring the count to the minimum is buffered.
  silent_step :
      (p : P) (frame : List A) (m : VadStateMachine P A) (xs : List A) (n : ℕ)
      → m.state ≡ silence
      → m.min_speech_frames < u32_mod
      → Buffers m.ring_buffer xs
      → m.speech_frame_count + (if ge p m.threshold_start then 1 else 0) ≤ n
      → n < m.min_speech_frames
      → (m' : VadStateMachine P A) × (process ge p frame m ≡ some (is_silence, m'))
        × (m'.state ≡ silence)
        × Buffers m'.ring_buffer (xs ++ frame)
        × (m'.ring_buffer.capacity ≡ m.ring_buffer.capacity)
        × (m'.speech_frame_count ≤ n)
        × (m'.min_speech_frames ≡ m.min_speech_frames)
        × (m'.threshold_start ≡ m.threshold_start)
        × (ge p m.threshold_start ≡ true → m'.speech_frame_count ≡ m.speech_frame_count + 1)
  unfolding process in_silence
  silent_step p frame m xs n st small v count few = elim (Bool-cases (ge p m.threshold_start)) [
    | inl loud ↦
        let m₁ : VadStateMachine P A = record m {
          speech_frame_count = (m.speech_frame_count + 1) % u32_mod;
          silence_frame_count = 0;
        } in
        let (ring, ok, v', cap) = buffer_frame-Buffers frame m₁ xs v in
        let at_most : m.speech_frame_count + 1 ≤ n = ground (arith, count) in
        (
          record m₁ { ring_buffer = ring },
          process_silent p frame m true st loud
              ∙ (if_false (leb m₁.min_speech_frames m₁.speech_frame_count) _ _ (ground arith) ∙ ok),
          st,
          v',
          cap,
          omega arith,
          refl,
          refl,
          λ _. omega arith,
        )
    | inr quiet ↦
        let m₁ : VadStateMachine P A = record m {
          speech_frame_count = m.speech_frame_count - 1;
          silence_frame_count = (m.silence_frame_count + 1) % u32_mod;
        } in
        let (ring, ok, v', cap) = buffer_frame-Buffers frame m₁ xs v in
        let at_most : m.speech_frame_count ≤ n = ground (arith, count) in
        (
          record m₁ { ring_buffer = ring },
          process_silent p frame m false st quiet ∙ ok,
          st,
          v',
          cap,
          omega arith,
          refl,
          refl,
          λ loud. absurd (ground arith),
        )
  ]

  -- The frame that brings the count to the minimum opens a segment, and hands over the window.
  opening_step :
      (p : P) (frame : List A) (m : VadStateMachine P A) (xs : List A)
      → m.state ≡ silence
      → m.speech_frame_count + 1 < u32_mod
      → Buffers m.ring_buffer xs
      → ge p m.threshold_start ≡ true
      → m.min_speech_frames ≤ m.speech_frame_count + 1
      → (m' : VadStateMachine P A) × (process ge p frame m
          ≡ some (speech_started (window m.ring_buffer.capacity xs), m'))
        × (m'.state ≡ speech)
        × Buffers m'.ring_buffer []
  unfolding process in_silence start_speech
  opening_step p frame m xs st small v loud enough =
      let m₁ : VadStateMachine P A = record m {
        speech_frame_count = (m.speech_frame_count + 1) % u32_mod;
        silence_frame_count = 0;
      } in
      let (ring, ok, v', cap) = drain_all-Buffers m.ring_buffer xs v in
      (
        record m₁ { ring_buffer = ring; state = speech },
        process_silent p frame m true st loud
            ∙ (if_true (leb m₁.min_speech_frames m₁.speech_frame_count) _ _ (ground arith) ∙ rw ok),
        refl,
        v',
      )

  -- In silence, frames of which fewer than the minimum reach the start threshold, with the count so
  -- far, never open a segment: each decision is silence, and the ring buffer stands for all of them.
  pub onset_needs_speech :
      (fs : List (P × List A)) (m : VadStateMachine P A) (xs : List A)
      → m.state ≡ silence
      → m.min_speech_frames < u32_mod
      → Buffers m.ring_buffer xs
      → m.speech_frame_count + count_above m.threshold_start fs < m.min_speech_frames
      → (m' : VadStateMachine P A) × (process_all ge fs m
          ≡ some (replicate (length fs) is_silence, m'))
        × (m'.state ≡ silence)
        × Buffers m'.ring_buffer (xs ++ audio fs)
  unfolding process_all count_above
  onset_needs_speech [] m xs st small v few = (m, refl, st, rw append-nil v)
  onset_needs_speech ((p, frame) ∷ fs) m xs st small v few =
      let loud = if ge p m.threshold_start then 1 else 0 in
      let (m₁, ok, st₁, v₁, _, count, min_same, t_same, _) =
        silent_step p frame m xs (m.speech_frame_count + loud) st small v (omega arith)
          (ground arith) in
      let (m', ok', st', v') =
        onset_needs_speech fs m₁ (xs ++ frame) st₁ (omega (arith, min_same)) v₁
          (rw t_same (ground arith)) in
      (m', rw (ok, ok'), st', rw append_assoc at v')

  -- In silence, the run of loud frames that brings the count to the minimum opens a segment at its
  -- last frame, with the last samples heard before that frame as many as the ring buffer holds.
  pub onset_opens :
      (fs : List (P × List A)) (m : VadStateMachine P A) (xs : List A) (p : P) (frame : List A)
      → m.state ≡ silence
      → m.min_speech_frames < u32_mod
      → Buffers m.ring_buffer xs
      → IsLoud m.threshold_start fs
      → ge p m.threshold_start ≡ true
      → m.speech_frame_count + length fs + 1 ≡ m.min_speech_frames
      → (m' m'' : VadStateMachine P A) × (process_all ge fs m
          ≡ some (replicate (length fs) is_silence, m'))
        × (process ge p frame m'
            ≡ some (speech_started (window m.ring_buffer.capacity (xs ++ audio fs)), m''))
        × (m''.state ≡ speech)
        × Buffers m''.ring_buffer []
  unfolding process_all
  onset_opens [] m xs p frame st small v all_loud loud e =
      let (m'', ok, st'', v'') = opening_step p frame m xs st (omega arith) v loud (omega arith) in
      (m, m'', refl, rw append-nil ok, st'', v'')
  onset_opens ((p₁, frame₁) ∷ fs) m xs p frame st small v all_loud loud e =
      let (m₁, ok, st₁, v₁, cap, _, min_same, t_same, count) =
        silent_step p₁ frame₁ m xs (m.speech_frame_count + 1) st small v
          (ground (arith, all_loud.0)) (omega arith) in
      let (m', m'', ok', ok'', st'', v'') =
        onset_opens fs m₁ (xs ++ frame₁) p frame st₁ (omega (arith, min_same)) v₁
          (rw t_same all_loud.1) (rw t_same loud) (omega (arith, count all_loud.0, min_same)) in
      (
        m',
        m'',
        rw (ok, ok'),
        ok''
            ∙ ap₂ (λ c ys. some (speech_started (window c ys), m'')) cap
                (append_assoc xs frame₁ (audio fs)),
        st'',
        v'',
      )
