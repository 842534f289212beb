-- ===== src/Engine/Loop.antt =====
-- src/audio_engine.rs, `processing_loop`: one round of the loop from what it reads (the stop flag, new
-- settings, the drained samples and the time), and the rounds of a session. The backend, the gain
-- control, the resampler and the level's arithmetic are records of their operations. `Option` is a
-- panic, or the loop over the resampler's chunks running out of fuel (the input's length and one
-- more, where a chunk has a sample or more). Times for the diagnostics are left out.
pub mod Errors
pub mod Totality
use larmindon_core.Base.{
  ℕ, zero, suc, ◌+◌, ◌-◌, Bool, true, false, Option, none, some, List, [], ◌∷◌, ◌++◌, leb, ltb,
  if◌then◌else◌, ◌>>=◌, length, take, drop, Result, ok, err,
}
use larmindon_core.Text.{Text, codes}
use larmindon_core.Asr.{
  TranscriptUpdate, AsrError, fatal, transient, AsrCapabilities, ActivitySource, backend,
}
use larmindon_core.Asr
use larmindon_core.Asr.Backend.{AsrBackend, Answer, message}
use larmindon_core.Settings.{Settings}
use larmindon_core.Vad.{VadState, silence, speech}
use larmindon_core.Vad.Processor
use larmindon_core.Vad.Processor.{VadProcessor, Run}
use larmindon_core.Engine.Frames.{take_complete_frames}
use larmindon_core.Engine.Gating.{
  Effect, push_audio, mark_speech_start, mark_speech_end, speech_start_row, vad_error_row, Gate,
  vad_stage,
}
use larmindon_core.Engine.Meter.{Levels, AudioLevelMeter, observe, take_level_if_due}

-- `FftFixedIn` of one channel: the channels of the output.
pub record Resampler (F R : Type 0) : Type 0 where
  pub input_frames_next : R → ℕ
  pub process : List F → R → Result {0, 0} (List (List F)) Text × R

pub record Agc (F G : Type 0) : Type 0 where
  pub process : List F → G → List F × G
  pub update_params : Settings F → G → G

-- What leaves the loop: events for the UI, and rows for the diagnostics.
pub data Out (F : Type 0) : Type 0 where
  transcript_update : TranscriptUpdate → Out F
  status_warn on_error : Text → Out F
  audio_level : F → Bool → Out F
  backend_error_row : ℕ → Text → Text → Out F
  shutdown_row : ℕ → ℕ → Out F
  resample_error_row : ℕ → Text → Out F
  stage_row : Effect F → Out F

pub record Loop (F B S R G Q : Type 0) : Type 0 where
  pub backend : B
  pub caps : AsrCapabilities
  pub gate : Gate F S F
  pub agc : G
  pub resampler : Option R
  pub resample_leftover : List F
  pub vad_leftover : List F
  pub meter : AudioLevelMeter Q

-- What a round reads. `clock` is the uptime at each VAD frame, `uptime` that of the other rows.
pub record Round (F : Type 0) : Type 0 where
  pub stop : Bool
  pub new_settings : Option (Settings F)
  pub drained : List F
  pub uptime : ℕ
  pub now : ℕ
  pub clock : ℕ → ℕ

-- A round goes on, or returns the models.
pub data Next (F B S R G Q : Type 0) : Type 0 where
  continues : List (Out F) → Loop F B S R G Q → Next F B S R G Q
  returns : List (Out F) → B → VadProcessor F S F → Next F B S R G Q

module _ {F : Type 0} where
  unfoldable pub emit_updates : List TranscriptUpdate → List (Out F)
  emit_updates [] = []
  emit_updates (u ∷ us) = transcript_update u ∷ emit_updates us

  -- And whether the session must end.
  unfoldable pub report_backend_error : ℕ → AsrError → List (Out F) × Bool
  report_backend_error uptime (transient m) =
      (backend_error_row uptime (codes "transient") m ∷ status_warn m ∷ [], false)
  report_backend_error uptime (fatal m) = (
    backend_error_row uptime (codes "fatal") m ∷ on_error (codes "Transcription error: " ++ m) ∷ [],
    true,
  )

  -- The rows among the effects of the VAD stage.
  unfoldable pub stage_rows : List (Effect F) → List (Out F)
  stage_rows [] = []
  stage_rows (push_audio _ ∷ es) = stage_rows es
  stage_rows (mark_speech_start ∷ es) = stage_rows es
  stage_rows (mark_speech_end _ _ ∷ es) = stage_rows es
  stage_rows (speech_start_row u n ∷ es) = stage_row (speech_start_row u n) ∷ stage_rows es
  stage_rows (vad_error_row u e ∷ es) = stage_row (vad_error_row u e) ∷ stage_rows es

  abbrev level_event : Option F → Bool → List (Out F)
  level_event none active = []
  level_event (some level) active = audio_level level active ∷ []

module _ {F R : Type 0} (rs : Resampler F R) where
  -- The outcome of one chunk.
  abbrev chunk_done : ℕ → Result {0, 0} (List (List F)) Text × R → List F × List (Out F) × R
  chunk_done uptime (ok [], r) = ([], [], r)
  chunk_done uptime (ok (output ∷ _), r) = (output, [], r)
  chunk_done uptime (err e, r) = ([], resample_error_row uptime e ∷ [], r)

  -- `while offset + rs_chunk <= resample_input.len()`, over what is left of the input.
  unfoldable pub resample_loop : ℕ → ℕ → ℕ → List F → R → Option (List F × List (Out F) × R)
  resample_loop uptime rs_chunk zero input r = none
  resample_loop uptime rs_chunk (suc fuel) input r =
      let (out, rows, r') = chunk_done uptime (rs.process (take rs_chunk input) r) in
      let more =
        resample_loop uptime rs_chunk fuel (drop rs_chunk input) r' >>= λ (outs, rows', r'').
        some (out ++ outs, rows ++ rows', r'') in
      if leb rs_chunk (length input) then more else some ([], [], r)

  unfoldable pub resample :
      ℕ → List F → List F → Option R → Option (List F × List (Out F) × List F × Option R)
  unfolding take_complete_frames resample_loop
  resample uptime leftover drained none = some (drained, [], leftover, none)
  resample uptime leftover drained (some r) = do
    (input, left) ← take_complete_frames leftover drained (rs.input_frames_next r)
    (out, rows, r') ← resample_loop uptime (rs.input_frames_next r) (suc (length input)) input r
    some (out, rows, left, some r')

module _ {F B S R G Q : Type 0} (api : AsrBackend F B) (ge : F → F → Bool) (run : Run F S F)
    (rs : Resampler F R) (agc : Agc F G) (levels : Levels F Q) where
  unfoldable pub apply_effects : List (Effect F) → B → B
  apply_effects [] b = b
  apply_effects (push_audio samples ∷ es) b = apply_effects es (api.push_audio samples b)
  apply_effects (mark_speech_start ∷ es) b = apply_effects es (api.mark_speech_start b)
  apply_effects (mark_speech_end u d ∷ es) b = apply_effects es (api.mark_speech_end u d b)
  apply_effects (speech_start_row _ _ ∷ es) b = apply_effects es b
  apply_effects (vad_error_row _ _ ∷ es) b = apply_effects es b

  unfoldable pub speech_active : ActivitySource → ℕ → VadState → Option ℕ → Bool
  speech_active Asr.vad now silence last = false
  speech_active Asr.vad now speech last = true
  speech_active (backend hold) now state none = false
  speech_active (backend hold) now state (some at) = ltb (now - at) hold

  -- The answer of `poll` or `process`, behind the events `before`.
  unfoldable pub on_answer : List (Out F) → ℕ → Answer B → Loop F B S R G Q → Next F B S R G Q
  unfolding emit_updates report_backend_error
  on_answer before uptime (ok updates, b) l =
      continues (before ++ emit_updates updates) (record l { backend = b })
  on_answer before uptime (err e, b) l =
      let (outs, ends) = report_backend_error uptime e in
      if ends
      then returns (before ++ outs) (api.end_session b).1 l.gate.vad
      else continues (before ++ outs) (record l { backend = b })

  abbrev ending : ℕ → Result (List TranscriptUpdate) AsrError → List (Out F)
  ending uptime (ok updates) = emit_updates updates
  ending uptime (err e) = backend_error_row uptime (codes "fatal") (message e) ∷ []

  unfoldable pub finish : ℕ → Loop F B S R G Q → Next F B S R G Q
  unfolding emit_updates message
  finish uptime l =
      let (result, b) = api.end_session l.backend in
      returns (ending uptime result ++ (shutdown_row uptime (api.chunks_processed b) ∷ [])) b
        l.gate.vad

  unfoldable pub hot_reload : Option (Settings F) → Loop F B S R G Q → Loop F B S R G Q
  unfolding Processor.update_params
  hot_reload none l = l
  hot_reload (some s) l = record l {
    backend = api.update_settings s l.backend;
    gate = record {
      vad = Processor.update_params s.vad_threshold_start s.vad_threshold_end 500 250 l.gate.vad;
      speech_start = l.gate.speech_start;
    };
    agc = agc.update_params s l.agc;
  }

  -- What follows the VAD stage, by its outcome.
  unfoldable pub after_vad :
      Round F
      → Loop F B S R G Q
      → List F × List (Out F) × List F × Option R
      → G
      → List (Effect F) × List F × Gate F S F
      → Next F B S R G Q
  unfolding apply_effects stage_rows speech_active on_answer observe take_level_if_due
  after_vad r l (samples, rows, left, resampler) gained (effects, vad_left, gate) =
      let b = apply_effects effects l.backend in
      let state = gate.vad.state_machine.state in
      let (level, meter) = take_level_if_due levels r.now (observe levels samples l.meter) in
      let active = speech_active l.caps.activity_source r.now state (api.last_speech_at b) in
      let l' : Loop F B S R G Q = record {
        backend = b;
        caps = l.caps;
        gate = gate;
        agc = gained;
        resampler = resampler;
        resample_leftover = left;
        vad_leftover = vad_left;
        meter = meter;
      } in
      on_answer (rows ++ (stage_rows effects ++ level_event level active)) r.uptime
        (api.process state b) l'

  -- The stages of a round whose samples are resampled, with the rows so far.
  unfoldable pub stages :
      Round F
      → Loop F B S R G Q
      → List F × List (Out F) × List F × Option R
      → Option (Next F B S R G Q)
  unfolding vad_stage after_vad
  stages r l resampled =
      let (samples, gained) = agc.process resampled.0 l.agc in
      vad_stage ge run l.caps.audio_gating r.clock l.vad_leftover samples l.gate >>= λ o.
      some (after_vad r l resampled gained o)

  -- A round that has drained `drained`.
  unfoldable pub drained_round : Round F → List F → Loop F B S R G Q → Option (Next F B S R G Q)
  unfolding resample stages on_answer
  drained_round r [] l = some (on_answer [] r.uptime (api.poll l.backend) l)
  drained_round r (x ∷ xs) l =
      resample rs r.uptime l.resample_leftover (x ∷ xs) l.resampler >>= stages r l

  unfoldable pub round : Round F → Loop F B S R G Q → Option (Next F B S R G Q)
  unfolding finish hot_reload drained_round
  round r l =
      if r.stop
      then some (finish r.uptime l)
      else drained_round r r.drained (hot_reload r.new_settings l)

  unfoldable pub behind : List (Out F) → Next F B S R G Q → Next F B S R G Q
  behind outs (continues outs' l) = continues (outs ++ outs') l
  behind outs (returns outs' b v) = returns (outs ++ outs') b v

  -- What follows a round, by the rest of the rounds.
  unfoldable pub go_on :
      (Loop F B S R G Q → Option (Next F B S R G Q)) → Next F B S R G Q → Option (Next F B S R G Q)
  unfolding behind
  go_on rest (returns outs b v) = some (returns outs b v)
  go_on rest (continues outs l) = rest l >>= λ n. some (behind outs n)

  -- The rounds of a session, until one returns.
  unfoldable pub rounds : List (Round F) → Loop F B S R G Q → Option (Next F B S R G Q)
  unfolding round go_on
  rounds [] l = some (continues [] l)
  rounds (r ∷ rest) l = round r l >>= go_on (rounds rest)
