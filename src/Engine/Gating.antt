-- ===== src/Engine/Gating.antt =====
-- src/audio_engine.rs, the VAD stage of `processing_loop`: frames of 512 samples go through the VAD,
-- and its decisions route them to the backend. The calls of the backend return nothing and take no
-- part in what follows, so the stage gives the list of its effects. `clock` is the uptime in ms at
-- each frame of one iteration; `Option` is a panic of the VAD, or the fuel of the loop (a frame and
-- more for each round) running out.
pub mod Delivery
pub mod Stages
pub mod Sessions
pub mod Routing
use larmindon_core.Base.{
  ℕ, zero, suc, ◌-◌, ◌+◌, Bool, Option, none, some, List, [], ◌∷◌, ◌++◌, leb, if◌then◌else◌, ◌>>=◌,
  length, take, drop, Result, ok, err,
}
use larmindon_core.Text.{Text}
use larmindon_core.Asr.{AudioGating, vad_gated, continuous}
use larmindon_core.Vad.{VadDecision, is_silence, speech_started, speech_continues, speech_ended}
use larmindon_core.Vad.Processor
use larmindon_core.Vad.Processor.{VadProcessor, Run, process_frame}

abbrev pub vad_frame_size : ℕ
vad_frame_size = 512

-- The calls of the backend, with the duration of the speech, and the rows for the diagnostics.
pub data Effect (A : Type 0) : Type 0 where
  push_audio : List A → Effect A
  mark_speech_start : Effect A
  mark_speech_end : ℕ → ℕ → Effect A
  speech_start_row : ℕ → ℕ → Effect A
  vad_error_row : ℕ → Text → Effect A

-- `speech_start_uptime_ms.map(..).unwrap_or(0.0)`; the uptime never goes back.
abbrev duration : Option ℕ → ℕ → ℕ
duration none uptime = 0
duration (some start) uptime = uptime - start

module _ {A : Type 0} where
  unfoldable pub on_decision :
      AudioGating → ℕ → VadDecision A → List A → Option ℕ → List (Effect A) × Option ℕ
  on_decision vad_gated uptime is_silence frame start = ([], start)
  on_decision vad_gated uptime (speech_started pre_speech) frame start = (
    mark_speech_start
        ∷ speech_start_row uptime (length pre_speech)
        ∷ push_audio pre_speech
        ∷ push_audio frame
        ∷ [],
    some uptime,
  )
  on_decision vad_gated uptime speech_continues frame start = (push_audio frame ∷ [], start)
  on_decision vad_gated uptime speech_ended frame start =
      (push_audio frame ∷ mark_speech_end uptime (duration start uptime) ∷ [], none)
  on_decision continuous uptime (speech_started pre_speech) frame start = (
    push_audio frame ∷ mark_speech_start ∷ speech_start_row uptime (length pre_speech) ∷ [],
    some uptime,
  )
  on_decision continuous uptime speech_ended frame start =
      (push_audio frame ∷ mark_speech_end uptime (duration start uptime) ∷ [], none)
  on_decision continuous uptime is_silence frame start = (push_audio frame ∷ [], start)
  on_decision continuous uptime speech_continues frame start = (push_audio frame ∷ [], start)

pub record Gate (P S A : Type 0) : Type 0 where
  pub vad : VadProcessor P S A
  pub speech_start : Option ℕ

module _ {P S A : Type 0} where
  unfoldable pub on_result :
      AudioGating
      → ℕ
      → List A
      → Option ℕ
      → Result (VadDecision A × P) Text × VadProcessor P S A
      → List (Effect A) × Gate P S A
  unfolding on_decision
  on_result gating uptime frame start (err e, vad) =
      (vad_error_row uptime e ∷ [], record { vad = vad; speech_start = start })
  on_result gating uptime frame start (ok (decision, _), vad) =
      let (effects, start') = on_decision gating uptime decision frame start in
      (effects, record { vad = vad; speech_start = start' })

module _ {P S A : Type 0} (ge : P → P → Bool) (run : Run P S A) (gating : AudioGating) where
  unfoldable pub frame_step : ℕ → List A → Gate P S A → Option (List (Effect A) × Gate P S A)
  unfolding process_frame on_result
  frame_step uptime frame g = process_frame ge run frame g.vad >>= λ r.
      some (on_result gating uptime frame g.speech_start r)

  -- `while offset + VAD_FRAME_SIZE <= vad_input.len()`, over what is left of the input.
  unfoldable pub frame_loop :
      (ℕ → ℕ) → ℕ → ℕ → List A → Gate P S A → Option (List (Effect A) × List A × Gate P S A)
  unfolding frame_step
  frame_loop clock zero k input g = none
  frame_loop clock (suc fuel) k input g =
      let more = frame_step (clock k) (take vad_frame_size input) g >>= λ (effects, g').
      frame_loop clock fuel (k + 1) (drop vad_frame_size input) g' >>= λ (rest, left, g'').
      some (effects ++ rest, left, g'') in
      if leb vad_frame_size (length input) then more else some ([], input, g)

  -- The stage of one iteration, with the leftover of the last one and the one it leaves.
  unfoldable pub vad_stage :
      (ℕ → ℕ) → List A → List A → Gate P S A → Option (List (Effect A) × List A × Gate P S A)
  unfolding frame_loop
  vad_stage clock leftover samples g =
      let input : List A = leftover ++ samples in frame_loop clock (suc (length input)) 0 input g

  -- The stages of the iterations, each with its clock and its samples.
  unfoldable pub vad_stages :
      List ((ℕ → ℕ) × List A) → List A → Gate P S A → Option (List (Effect A) × List A × Gate P S A)
  unfolding vad_stage
  vad_stages [] leftover g = some ([], leftover, g)
  vad_stages ((clock, samples) ∷ iterations) leftover g = do
    (effects, left, g') ← vad_stage clock leftover samples g
    (rest, left', g'') ← vad_stages iterations left g'
    some (effects ++ rest, left', g'')

-- The VAD at the start of a session: a cached one is reset, and a new one has these times in ms.
unfoldable pub start_vad :
    {P S A : Type 0} → S → A → P → P → Option (VadProcessor P S A) → VadProcessor P S A
unfolding Processor.new Processor.reset
start_vad zero_state zero_sample start end_ (some v) = Processor.reset zero_state zero_sample v
start_vad zero_state zero_sample start end_ none =
    Processor.new zero_state zero_sample start end_ 500 250 500
