-- ===== src/Engine/Loop/Totality.antt =====
-- src/audio_engine.rs: the rounds of the processing loop return, and how a session ends.
use larmindon_core.Base.{
  ℕ, ◌≤◌, ◌<◌, ◌≡◌, refl, sym, ap, ◌∙◌, subst, Bool, true, false, ◌||◌, Option, none, some, List,
  [], ◌∷◌, ◌++◌, arith, ◌>>=◌, Result, ok, err, inl, inr, Bool-cases, if_true, if_false,
}
use larmindon_core.Text.{codes}
use larmindon_core.Asr.{TranscriptUpdate, AsrError, fatal, transient}
use larmindon_core.Asr.Backend.{AsrBackend, Answer}
use larmindon_core.Settings.{Settings}
use larmindon_core.Vad.Processor
use larmindon_core.Vad.Processor.{VadProcessor, Run}
use larmindon_core.Vad
use larmindon_core.Engine.Gating.Stages.{IsReady}
use larmindon_core.Engine.Gating.Sessions.{vad_stage-Staged}
use larmindon_core.Engine.Meter.{Levels}
use larmindon_core.Engine.Loop.Errors.{
  errors, errors-append, none_in, no_errors, errors-emit_updates, errors-stage_rows,
  errors-level_event, resample-returns,
}
use larmindon_core.Engine.Loop.{
  after_vad, Resampler, Agc, Out, on_error, backend_error_row, shutdown_row, Loop, Round, Next,
  continues, returns, emit_updates, report_backend_error, stage_rows, on_answer, ending, finish,
  hot_reload, stages, drained_round, round, rounds, go_on, behind,
}

-- A round of them sees the stop flag.
unfoldable pub is_stopped : {F : Type 0} → List (Round F) → Bool
is_stopped [] = false
is_stopped (r ∷ rest) = r.stop || is_stopped rest

module _ {F B S R G Q : Type 0} (api : AsrBackend F B) (ge : F → F → Bool) (run : Run F S F)
    (rs : Resampler F R) (agc : Agc F G) (levels : Levels F Q) where
  -- The VAD is fit for the next frame.
  pub record IsLive (l : Loop F B S R G Q) : Type 0 where
    pub waiting : List F
    pub ready : IsReady l.gate waiting

  -- A session that goes on has shown no error, and one that returns at most one.
  abbrev pub IsFair : Next F B S R G Q → Type 0
  IsFair (continues outs l) = (errors outs ≡ 0) × IsLive l
  IsFair (returns outs b v) = errors outs ≤ 1

  abbrev pub HasReturned : Next F B S R G Q → Type 0
  HasReturned (continues outs l) = ⊥
  HasReturned (returns outs b v) = Unit

  on_answer-IsFair :
      (before : List (Out F)) (uptime : ℕ) (o : Answer B) (l : Loop F B S R G Q)
      → errors before ≡ 0
      → IsLive l
      → IsFair (on_answer api ge run rs agc levels before uptime o l)
  unfolding on_answer report_backend_error errors
  on_answer-IsFair before uptime (ok updates, b) l clean live = (
    none_in before (emit_updates updates) clean (errors-emit_updates F updates),
    record { waiting = live.waiting; ready = live.ready },
  )
  on_answer-IsFair before uptime (err (transient m), b) l clean live =
      (none_in before _ clean refl, record { waiting = live.waiting; ready = live.ready })
  on_answer-IsFair before uptime (err (fatal m), b) l clean live = omega (
    arith,
    errors-append before (
        backend_error_row uptime (codes "fatal") m
        ∷ on_error (codes "Transcription error: " ++ m)
        ∷ []),
    clean,
  )

  errors-ending :
      (uptime : ℕ) (o : Result (List TranscriptUpdate) AsrError)
      → errors (ending api ge run rs agc levels uptime o) ≡ 0
  unfolding errors
  errors-ending uptime (ok updates) = errors-emit_updates F updates
  errors-ending uptime (err e) = refl

  finish-IsFair :
      (uptime : ℕ) (l : Loop F B S R G Q)
      → IsFair (finish api ge run rs agc levels uptime l)
        × HasReturned (finish api ge run rs agc levels uptime l)
  unfolding finish errors
  finish-IsFair uptime l = (
    omega (
      arith,
      errors-append (ending api ge run rs agc levels uptime (api.end_session l.backend).0)
          (shutdown_row uptime (api.chunks_processed (api.end_session l.backend).1) ∷ []),
      errors-ending uptime (api.end_session l.backend).0,
    ),
    tt,
  )

  hot_reload-IsLive :
      (s : Option (Settings F)) (l : Loop F B S R G Q)
      → IsLive l
      → IsLive (hot_reload api ge run rs agc levels s l)
  unfolding hot_reload Processor.update_params Vad.update_params
  hot_reload-IsLive none l live = live
  hot_reload-IsLive (some s) l live = record {
    waiting = live.waiting;
    ready = record { buffers = live.ready.buffers; quiet = live.ready.quiet };
  }

  -- A round that has run.
  pub record Ran (o : Option (Next F B S R G Q)) : Type 0 where
    pub next : Next F B S R G Q
    pub outcome : o ≡ some next
    pub fair : IsFair next

  stages-Ran :
      (r : Round F) (l : Loop F B S R G Q) (samples : List F) (rows : List (Out F)) (left : List F)
      (resampler : Option R)
      → errors rows ≡ 0
      → IsLive l
      → Ran (stages api ge run rs agc levels r l (samples, rows, left, resampler))
  unfolding stages after_vad
  stages-Ran r l samples rows left resampler clean live =
      let resampled : List F × List (Out F) × List F × Option R =
        (samples, rows, left, resampler) in
      let (samples', gained) = agc.process samples l.agc in
      let t =
        vad_stage-Staged ge run l.caps.audio_gating r.clock l.vad_leftover samples' live.waiting
          l.gate live.ready in
      record {
        next = after_vad api ge run rs agc levels r l resampled gained (t.effects, t.rest, t.gate);
        outcome =
            ap (λ o. o >>= λ x. some (after_vad api ge run rs agc levels r l resampled gained x))
              t.outcome;
        fair =
            on_answer-IsFair _ r.uptime _ _
              (none_in rows _ clean (
                none_in (stage_rows t.effects) _ (errors-stage_rows t.effects)
                  (errors-level_event _ _)))
              (record { waiting = t.waiting; ready = t.ready });
      }

  drained_round-Ran :
      (r : Round F) (drained : List F) (l : Loop F B S R G Q)
      → ((r : R) → 0 < rs.input_frames_next r)
      → IsLive l
      → Ran (drained_round api ge run rs agc levels r drained l)
  unfolding drained_round
  drained_round-Ran r [] l pos live = record {
    next = on_answer api ge run rs agc levels [] r.uptime (api.poll l.backend) l;
    outcome = refl;
    fair = on_answer-IsFair [] r.uptime (api.poll l.backend) l (no_errors F) live;
  }
  drained_round-Ran r (x ∷ xs) l pos live =
      let (samples, rows, left, resampler, ok', clean) =
        resample-returns rs r.uptime l.resample_leftover (x ∷ xs) l.resampler pos in
      subst Ran (sym (ap (λ o. o >>= stages api ge run rs agc levels r l) ok'))
        (stages-Ran r l samples rows left resampler clean live)

  -- A round returns, and ends the session where it sees the stop flag.
  round-Ran :
      (r : Round F) (l : Loop F B S R G Q)
      → ((r : R) → 0 < rs.input_frames_next r)
      → IsLive l
      → (t : Ran (round api ge run rs agc levels r l)) × (r.stop ≡ true → HasReturned t.next)
  unfolding round
  round-Ran r l pos live =
      let l₁ = hot_reload api ge run rs agc levels r.new_settings l in
      let t = drained_round-Ran r r.drained l₁ pos (hot_reload-IsLive r.new_settings l live) in
      let ended = finish api ge run rs agc levels r.uptime l in
      elim (Bool-cases r.stop) [
        | inl e ↦ (
          record {
            next = ended;
            outcome = if_true r.stop (some ended) _ e;
            fair = (finish-IsFair r.uptime l).0;
          },
          λ _. (finish-IsFair r.uptime l).1,
        )
        | inr e ↦ (
          record {
            next = t.next;
            outcome = if_false r.stop (some ended) _ e ∙ t.outcome;
            fair = t.fair;
          },
          λ stop. absurd (ground (arith, e, stop)),
        )
      ]

  behind-IsFair :
      (outs : List (Out F)) (n : Next F B S R G Q)
      → errors outs ≡ 0
      → IsFair n
      → IsFair (behind api ge run rs agc levels outs n)
  unfolding behind
  behind-IsFair outs (continues outs' l) clean fair = (none_in outs outs' clean fair.0, fair.1)
  behind-IsFair outs (returns outs' b v) clean fair = omega (arith, errors-append outs outs')

  behind-HasReturned :
      (outs : List (Out F)) (n : Next F B S R G Q)
      → HasReturned n
      → HasReturned (behind api ge run rs agc levels outs n)
  unfolding behind
  behind-HasReturned outs (returns outs' b v) h = tt
  behind-HasReturned outs (continues _ _) h = elim h [ ]

  go_on-Ran :
      (rest : Loop F B S R G Q → Option (Next F B S R G Q)) (n : Next F B S R G Q) (b c : Bool)
      → IsFair n
      → (b ≡ true → HasReturned n)
      → ((l : Loop F B S R G Q) → IsLive l → (t : Ran (rest l)) × (c ≡ true → HasReturned t.next))
      → (t : Ran (go_on api ge run rs agc levels rest n)) × ((b || c) ≡ true → HasReturned t.next)
  unfolding go_on
  go_on-Ran rest (returns outs v w) b c fair stops more =
      (record { next = returns outs v w; outcome = refl; fair = fair }, λ _. tt)
  go_on-Ran rest (continues outs l) true c fair stops more = absurd (stops refl)
  go_on-Ran rest (continues outs l) false c fair stops more =
      let (t, ends) = more l fair.1 in
      (
        record {
          next = behind api ge run rs agc levels outs t.next;
          outcome = ap (λ o. o >>= λ n. some (behind api ge run rs agc levels outs n)) t.outcome;
          fair = behind-IsFair outs t.next fair.0 t.fair;
        },
        λ e. behind-HasReturned outs t.next (ends e),
      )

  rounds-Ran :
      (rest : List (Round F)) (l : Loop F B S R G Q)
      → ((r : R) → 0 < rs.input_frames_next r)
      → IsLive l
      → (t : Ran (rounds api ge run rs agc levels rest l)) × (is_stopped rest ≡ true
          → HasReturned t.next)
  unfolding rounds is_stopped
  rounds-Ran [] l pos live =
      (record { next = continues [] l; outcome = refl; fair = (no_errors F, live) }, λ e. cc)
  rounds-Ran (r ∷ rest) l pos live =
      let (t, stops) = round-Ran r l pos live in
      let (u, ends) =
        go_on-Ran (rounds api ge run rs agc levels rest) t.next r.stop (is_stopped rest) t.fair
          stops (λ l' live'. rounds-Ran rest l' pos live') in
      rw t.outcome (u, ends)

  -- Whatever the rounds read and the backend, the VAD model and the resampler answer, the processing
  -- loop does not panic where the resampler asks for a sample or more; it has returned the models if
  -- a round has seen the stop flag; and it has shown at most one error to the UI if it has returned,
  -- and none if it has not.
  pub rounds-returns :
      (rest : List (Round F)) (l : Loop F B S R G Q)
      → ((r : R) → 0 < rs.input_frames_next r)
      → IsLive l
      → (n : Next F B S R G Q) × (rounds api ge run rs agc levels rest l ≡ some n)
        × (is_stopped rest ≡ true → HasReturned n)
        × IsFair n
  rounds-returns rest l pos live =
      let (t, ends) = rounds-Ran rest l pos live in (t.next, t.outcome, ends, t.fair)
