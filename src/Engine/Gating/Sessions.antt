-- ===== src/Engine/Gating/Sessions.antt =====
-- src/audio_engine.rs: the frames of one iteration, and the iterations of a session.
use larmindon_core.Base.{
  ℕ, zero, suc, ◌+◌, ◌<◌, ◌≡◌, sym, subst, Bool, false, some, List, [], ◌∷◌, ◌++◌, append-nil,
  append_assoc, arith, leb, leb→le, ◌>>=◌, length, take, drop, length-take, length-drop,
  take-append-drop, inl, inr, Bool-cases, if_true, if_false,
}
use larmindon_core.Asr.{AudioGating}
use larmindon_core.Vad.Processor.{Run}
use larmindon_core.Engine.Gating.{Gate, frame_loop, vad_stage, vad_stages, vad_frame_size}
use larmindon_core.Engine.Gating.Stages.{
  IsReady, Staged, IsInfallible, frame_step-Framed, then-Framed, then-Staged, nothing_left,
}

-- All the samples of the iterations.
abbrev pub heard : {A : Type 0} → List ((ℕ → ℕ) × List A) → List A
heard [] = []
heard ((clock, samples) ∷ iterations) = samples ++ heard iterations

leb_short :
    {A : Type 0} (xs : List A) → leb vad_frame_size (length xs) ≡ false → length xs < vad_frame_size
leb_short xs e = ground (arith, e)

module _ {P S A : Type 0} (ge : P → P → Bool) (run : Run P S A) (gating : AudioGating) where
  abbrev Fine : Type 0
  Fine = IsInfallible ge run gating

  frame_loop-Staged :
      (clock : ℕ → ℕ) (fuel k : ℕ) (input ys : List A) (g : Gate P S A)
      → length input < fuel
      → IsReady g ys
      → Staged gating Fine g ys input (frame_loop ge run gating clock fuel k input g)
  unfolding frame_loop
  frame_loop-Staged clock zero k input ys g enough ready = absurd (omega arith)
  frame_loop-Staged clock (suc fuel) k input ys g enough ready =
      let frame = take vad_frame_size input in
      let more = drop vad_frame_size input in
      elim (Bool-cases (leb vad_frame_size (length input))) [
        | inl e ↦
            let enough_left = leb→le vad_frame_size (length input) e in
            let f =
              frame_step-Framed ge run gating (clock k) frame ys g
                (omega (arith, enough_left, length-take vad_frame_size input)) ready in
            let u =
              frame_loop-Staged clock fuel (k + 1) more f.waiting f.gate
                (omega (arith, enough_left, length-drop vad_frame_size input)) f.ready in
            subst (Staged gating Fine g ys input)
              (sym (if_true (leb vad_frame_size (length input)) _ (some ([], input, g)) e))
              (rw f.outcome (
                subst
                  (λ l. Staged gating Fine g ys l (
                    frame_loop ge run gating clock fuel (k + 1) more f.gate >>= λ (rest, left, g').
                    some (f.effects ++ rest, left, g')))
                  (take-append-drop vad_frame_size input)
                  (then-Framed ge run gating Fine g ys frame more _ _ f u)))
        | inr e ↦
            subst (Staged gating Fine g ys input)
              (sym (if_false (leb vad_frame_size (length input)) _ (some ([], input, g)) e))
              (nothing_left ge run gating Fine g ys input (leb_short input e) ready)
      ]

  pub vad_stage-Staged :
      (clock : ℕ → ℕ) (leftover samples ys : List A) (g : Gate P S A)
      → IsReady g ys
      → Staged gating Fine g ys
          (leftover ++ samples)
          (vad_stage ge run gating clock leftover samples g)
  unfolding vad_stage
  vad_stage-Staged clock leftover samples ys g ready =
      frame_loop-Staged clock (suc (length (leftover ++ samples))) 0 (leftover ++ samples) ys g
        (omega arith) ready

  pub vad_stages-Staged :
      (iterations : List ((ℕ → ℕ) × List A)) (leftover ys : List A) (g : Gate P S A)
      → length leftover < vad_frame_size
      → IsReady g ys
      → Staged gating Fine g ys
          (leftover ++ heard iterations)
          (vad_stages ge run gating iterations leftover g)
  unfolding vad_stages
  vad_stages-Staged [] leftover ys g short ready =
      subst (λ l. Staged gating Fine g ys l (some ([], leftover, g))) (sym (append-nil leftover))
        (nothing_left ge run gating Fine g ys leftover short ready)
  vad_stages-Staged ((clock, samples) ∷ iterations) leftover ys g short ready =
      let t = vad_stage-Staged clock leftover samples ys g ready in
      let u = vad_stages-Staged iterations t.rest t.waiting t.gate t.short t.ready in
      rw t.outcome (
        subst
          (λ l. Staged gating Fine g ys l (
            vad_stages ge run gating iterations t.rest t.gate >>= λ (rest, left, g').
            some (t.effects ++ rest, left, g')))
          (append_assoc leftover samples (heard iterations))
          (then-Staged ge run gating Fine g ys (leftover ++ samples) (heard iterations) _ _ t u))
