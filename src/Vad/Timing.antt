-- ===== src/Vad/Timing.antt =====
-- src/vad.rs: how long silence must last to close a segment.
use larmindon_core.Base.{
  ◌+◌, ◌≤◌, ◌<◌, ◌≡◌, refl, Bool, false, some, List, [], ◌∷◌, arith, All, length, replicate,
}
use larmindon_core.Vad.{
  silence, speech, speech_continues, speech_ended, VadStateMachine, u32_mod, process, process_all,
  in_speech,
}

module _ {P A : Type 0} where
  -- The state after one more quiet frame in speech.
  abbrev quieter : VadStateMachine P A → VadStateMachine P A
  quieter m = record m { silence_frame_count = m.silence_frame_count + 1; speech_frame_count = 0 }

module _ {P A : Type 0} (ge : P → P → Bool) where
  -- No frame reaches the threshold.
  abbrev pub IsQuiet : P → List (P × List A) → Type 0
  IsQuiet t = All (λ f. ge f.0 t ≡ false)

  quiet_step :
      (p : P) (frame : List A) (m : VadStateMachine P A)
      → m.state ≡ speech
      → ge p m.threshold_end ≡ false
      → m.min_silence_frames < u32_mod
      → m.silence_frame_count + 1 < m.min_silence_frames
      → process ge p frame m ≡ some (speech_continues, quieter m)
  unfolding process in_speech
  quiet_step p frame m st q small short = rw (st, q) (ground arith)

  closing_step :
      (p : P) (frame : List A) (m : VadStateMachine P A)
      → m.state ≡ speech
      → ge p m.threshold_end ≡ false
      → m.silence_frame_count + 1 < u32_mod
      → m.min_silence_frames ≤ m.silence_frame_count + 1
      → process ge p frame m ≡ some (speech_ended, record (quieter m) { state = silence })
  unfolding process in_speech
  closing_step p frame m st q small long = rw (st, q) (ground arith)

  -- In speech, a run of quiet frames below the minimum is a pause: every decision is that speech
  -- goes on. The frame that brings the run to the minimum, and no earlier one, ends the segment.
  pub pause_ends :
      (fs : List (P × List A)) (m : VadStateMachine P A) (p : P) (frame : List A)
      → m.state ≡ speech
      → m.min_silence_frames < u32_mod
      → IsQuiet m.threshold_end fs
      → ge p m.threshold_end ≡ false
      → m.silence_frame_count + length fs + 1 ≡ m.min_silence_frames
      → (m' m'' : VadStateMachine P A) × (process_all ge fs m
          ≡ some (replicate (length fs) speech_continues, m'))
        × (m'.state ≡ speech)
        × (process ge p frame m' ≡ some (speech_ended, m''))
        × (m''.state ≡ silence)
  unfolding process_all
  pause_ends [] m p frame st small q qp e = (
    m,
    record (quieter m) { state = silence },
    refl,
    st,
    closing_step p frame m st qp (omega arith) (omega arith),
    refl,
  )
  pause_ends ((p₁, frame₁) ∷ fs) m p frame st small q qp e =
      let ok = quiet_step p₁ frame₁ m st q.0 small (omega arith) in
      let (m', m'', ok', st', ok'', st'') =
        pause_ends fs (quieter m) p frame st small q.1 qp (omega arith) in
      (m', m'', rw (ok, ok'), st', ok'', st'')
