-- ===== src/Engine/Loop/Errors.antt =====
-- src/audio_engine.rs: the errors among what the loop emits, and the loop over the resampler's chunks.
use larmindon_core.Base.{
  ℕ, zero, suc, ◌+◌, ◌<◌, ◌≡◌, refl, ◌∙◌, Bool, Option, none, some, List, [], ◌∷◌, ◌++◌, arith, leb,
  leb→le, length, take, drop, length-drop, Result, ok, err, inl, inr, Bool-cases, if_true, if_false,
}
use larmindon_core.Text.{Text}
use larmindon_core.Asr.{TranscriptUpdate}
use larmindon_core.Engine.Frames.{take_complete_frames_lem}
use larmindon_core.Engine.Gating.{
  Effect, push_audio, mark_speech_start, mark_speech_end, speech_start_row, vad_error_row,
}
use larmindon_core.Engine.Loop.{
  Resampler, Out, transcript_update, status_warn, on_error, audio_level, backend_error_row,
  shutdown_row, resample_error_row, stage_row, emit_updates, stage_rows, level_event, chunk_done,
  resample_loop, resample,
}

module _ {F : Type 0} where
  -- The events that stop the UI.
  unfoldable pub errors : List (Out F) → ℕ
  errors [] = 0
  errors (on_error _ ∷ os) = suc (errors os)
  errors (transcript_update _ ∷ os) = errors os
  errors (status_warn _ ∷ os) = errors os
  errors (audio_level _ _ ∷ os) = errors os
  errors (backend_error_row _ _ _ ∷ os) = errors os
  errors (shutdown_row _ _ ∷ os) = errors os
  errors (resample_error_row _ _ ∷ os) = errors os
  errors (stage_row _ ∷ os) = errors os

  pub errors-append : (os ps : List (Out F)) → errors (os ++ ps) ≡ errors os + errors ps
  unfolding errors
  errors-append [] ps = omega arith
  errors-append (on_error _ ∷ os) ps = omega (arith, errors-append os ps)
  errors-append (transcript_update _ ∷ os) ps = errors-append os ps
  errors-append (status_warn _ ∷ os) ps = errors-append os ps
  errors-append (audio_level _ _ ∷ os) ps = errors-append os ps
  errors-append (backend_error_row _ _ _ ∷ os) ps = errors-append os ps
  errors-append (shutdown_row _ _ ∷ os) ps = errors-append os ps
  errors-append (resample_error_row _ _ ∷ os) ps = errors-append os ps
  errors-append (stage_row _ ∷ os) ps = errors-append os ps

  -- Events without an error, one after the other.
  pub none_in : (os ps : List (Out F)) → errors os ≡ 0 → errors ps ≡ 0 → errors (os ++ ps) ≡ 0
  none_in os ps e f = omega (arith, errors-append os ps)

  pub errors-stage_rows : (es : List (Effect F)) → errors (stage_rows es) ≡ 0
  unfolding errors stage_rows
  errors-stage_rows [] = refl
  errors-stage_rows (push_audio _ ∷ es) = errors-stage_rows es
  errors-stage_rows (mark_speech_start ∷ es) = errors-stage_rows es
  errors-stage_rows (mark_speech_end _ _ ∷ es) = errors-stage_rows es
  errors-stage_rows (speech_start_row _ _ ∷ es) = errors-stage_rows es
  errors-stage_rows (vad_error_row _ _ ∷ es) = errors-stage_rows es

  pub errors-level_event :
      (level : Option F) (active : Bool) → errors (level_event level active) ≡ 0
  unfolding errors
  errors-level_event none active = refl
  errors-level_event (some level) active = refl

pub no_errors : (F : Type 0) → errors {F = F} [] ≡ 0
unfolding errors
no_errors F = refl

pub errors-emit_updates :
    (F : Type 0) (us : List TranscriptUpdate) → errors {F = F} (emit_updates us) ≡ 0
unfolding errors emit_updates
errors-emit_updates F [] = refl
errors-emit_updates F (u ∷ us) = errors-emit_updates F us

module _ {F R : Type 0} (rs : Resampler F R) where
  errors-chunk_done :
      (uptime : ℕ) (o : Result {0, 0} (List (List F)) Text × R)
      → errors (chunk_done rs uptime o).1 ≡ 0
  unfolding errors
  errors-chunk_done uptime (ok [], r) = refl
  errors-chunk_done uptime (ok (output ∷ _), r) = refl
  errors-chunk_done uptime (err e, r) = refl

  -- The fuel is enough where a chunk has a sample.
  pub resample_loop-returns :
      (uptime n fuel : ℕ) (input : List F) (r : R)
      → 0 < n
      → length input < fuel
      → (out : List F) × (rows : List (Out F)) × (r' : R) × (resample_loop rs uptime n fuel input r
          ≡ some (out, rows, r'))
        × (errors rows ≡ 0)
  unfolding resample_loop
  resample_loop-returns uptime n zero input r pos enough = absurd (omega arith)
  resample_loop-returns uptime n (suc fuel) input r pos enough =
      let (out, rows, r₁) = chunk_done rs uptime (rs.process (take n input) r) in
      let clean = errors-chunk_done uptime (rs.process (take n input) r) in
      elim (Bool-cases (leb n (length input))) [
        | inl e ↦
            let left = leb→le n (length input) e in
            let (outs, rows', r₂, ok', clean') =
              resample_loop-returns uptime n fuel (drop n input) r₁ pos
                (omega (arith, left, length-drop n input)) in
            (
              out ++ outs,
              rows ++ rows',
              r₂,
              if_true (leb n (length input)) _ (some ([], [], r)) e ∙ rw ok',
              none_in rows rows' clean clean',
            )
        | inr e ↦ ([], [], r, if_false (leb n (length input)) _ (some ([], [], r)) e, no_errors F)
      ]

  pub resample-returns :
      (uptime : ℕ) (leftover drained : List F) (resampler : Option R)
      → ((r : R) → 0 < rs.input_frames_next r)
      → (out : List F) × (rows : List (Out F)) × (left : List F) × (resampler' : Option R)
        × (resample rs uptime leftover drained resampler ≡ some (out, rows, left, resampler'))
        × (errors rows ≡ 0)
  unfolding resample
  resample-returns uptime leftover drained none pos =
      (drained, [], leftover, none, refl, no_errors F)
  resample-returns uptime leftover drained (some r) pos =
      let n = rs.input_frames_next r in
      let (input, left, _, whole, _, _, _) = take_complete_frames_lem leftover drained n (pos r) in
      let (out, rows, r', ok', clean) =
        resample_loop-returns uptime n (suc (length input)) input r (pos r) (omega arith) in
      (out, rows, left, some r', rw (whole, ok'), clean)
