-- ===== src/Engine/Gating/Routing.antt =====
-- src/audio_engine.rs: the VAD stage over a whole session, from the VAD that the session starts with.
use larmindon_core.Base.{
  ℕ, ◌<◌, ◌≡◌, refl, subst, Bool, Option, none, some, List, [], ◌++◌, arith, length, Sublist,
  Sublist-left, Sublist-trans,
}
use larmindon_core.Asr.{AudioGating, continuous}
use larmindon_core.Vad
use larmindon_core.Vad.{VadState, silence}
use larmindon_core.Vad.Ring.Window.{new-Buffers}
use larmindon_core.Vad.Processor
use larmindon_core.Vad.Processor.{VadProcessor, Run}
use larmindon_core.Engine.Gating.{Effect, Gate, vad_stages, vad_frame_size, start_vad}
use larmindon_core.Engine.Gating.Delivery.{pushed, follow_all, owed, owed-nil}
use larmindon_core.Engine.Gating.Stages.{IsReady, IsInfallible, vad_state}
use larmindon_core.Engine.Gating.Sessions.{heard, vad_stages-Staged}

module _ {P S A : Type 0} where
  -- A cached VAD has a ring buffer that holds a sample or more.
  abbrev pub HasRoom : Option (VadProcessor P S A) → Type 0
  HasRoom none = Unit
  HasRoom (some v) = 0 < v.state_machine.ring_buffer.capacity

  abbrev pub start_gate : S → A → P → P → Option (VadProcessor P S A) → Gate P S A
  start_gate zero_state zero_sample start end_ cached = record {
    vad = start_vad zero_state zero_sample start end_ cached;
    speech_start = none;
  }

  start_gate-silence :
      (z : S) (zero_sample : A) (start end_ : P) (cached : Option (VadProcessor P S A))
      → vad_state (start_gate z zero_sample start end_ cached) ≡ silence
  unfolding start_vad Processor.new Processor.reset Vad.new Vad.reset
  start_gate-silence z zero_sample start end_ none = refl
  start_gate-silence z zero_sample start end_ (some v) = refl

  pub start_gate-IsReady :
      (z : S) (zero_sample : A) (start end_ : P) (cached : Option (VadProcessor P S A))
      → HasRoom cached
      → IsReady (start_gate z zero_sample start end_ cached) []
  unfolding start_vad Processor.new Processor.reset Vad.new Vad.reset
  start_gate-IsReady z zero_sample start end_ none room = record {
    buffers = new-Buffers zero_sample 8000 (omega arith);
    quiet = λ _. refl;
  }
  start_gate-IsReady z zero_sample start end_ (some v) room = record {
    buffers = new-Buffers zero_sample v.state_machine.ring_buffer.capacity room;
    quiet = λ _. refl;
  }

module _ {P S A : Type 0} (ge : P → P → Bool) (run : Run P S A) where
  -- In a session with either gating, over any iterations and whatever the model answers, the VAD
  -- stage does not panic; what it pushes into the backend is taken from the samples heard in their
  -- order, none twice; speech starts in silence and ends in speech, with VAD gating audio comes in
  -- speech only, and the last mark agrees with the state of the VAD.
  pub vad_stages-routes :
      (gating : AudioGating) (z : S) (zero_sample : A) (start end_ : P)
      (cached : Option (VadProcessor P S A)) (iterations : List ((ℕ → ℕ) × List A))
      → HasRoom cached
      → (effects : List (Effect A)) × (rest : List A) × (g : Gate P S A) × (vad_stages ge run gating
            iterations []
            (start_gate z zero_sample start end_ cached)
          ≡ some (effects, rest, g))
        × Sublist (pushed effects) (heard iterations)
        × (follow_all gating silence effects ≡ some (vad_state g))
        × (length rest < vad_frame_size)
  vad_stages-routes gating z zero_sample start end_ cached iterations room =
      let g = start_gate z zero_sample start end_ cached in
      let ready = start_gate-IsReady z zero_sample start end_ cached room in
      let t = vad_stages-Staged ge run gating iterations [] [] g (omega arith) ready in
      let still = owed gating t.waiting ++ t.rest in
      let in_order =
        subst (λ l. Sublist (pushed t.effects ++ still) (l ++ heard iterations)) (owed-nil gating)
          t.subset in
      let from_silence =
        subst (λ s. follow_all gating s t.effects ≡ some (vad_state t.gate))
          (start_gate-silence z zero_sample start end_ cached) t.marks in
      (
        t.effects,
        t.rest,
        t.gate,
        t.outcome,
        Sublist-trans in_order (Sublist-left (pushed t.effects) still),
        from_silence,
        t.short,
      )

  -- A backend that takes continuous audio is pushed every sample heard exactly once and in order,
  -- but for those of the last frame that is not full, if the VAD model never fails: the pre-speech
  -- samples are not pushed again.
  pub vad_stages-continuous :
      (z : S) (zero_sample : A) (start end_ : P) (cached : Option (VadProcessor P S A))
      (iterations : List ((ℕ → ℕ) × List A))
      → HasRoom cached
      → IsInfallible ge run continuous
      → (effects : List (Effect A)) × (rest : List A) × (g : Gate P S A) × (vad_stages ge run
            continuous iterations []
            (start_gate z zero_sample start end_ cached)
          ≡ some (effects, rest, g))
        × (pushed effects ++ rest ≡ heard iterations)
        × (length rest < vad_frame_size)
  vad_stages-continuous z zero_sample start end_ cached iterations room fine =
      let ready = start_gate-IsReady z zero_sample start end_ cached room in
      let t = vad_stages-Staged ge run continuous iterations [] [] _ (omega arith) ready in
      (t.effects, t.rest, t.gate, t.outcome, t.exact refl fine, t.short)
