-- ===== src/Engine/Gating/Stages.antt =====
-- src/audio_engine.rs: the VAD stage of one iteration, and of all of them.
use larmindon_core.Base.{
  ℕ, ◌-◌, ◌<◌, ◌≡◌, refl, sym, ap, ◌∙◌, subst, Bool, Option, none, some, List, [], ◌∷◌, ◌++◌,
  append-nil, append_assoc, arith, ◌==◌, ◌>>=◌, length, drop, Result, ok, err, if_true, Sublist,
  Sublist-refl, Sublist-nil, Sublist-append, Sublist-then,
}
use larmindon_core.Text.{Text}
use larmindon_core.Asr.{AudioGating, continuous}
use larmindon_core.Vad.{VadState, speech, vad_chunk_size}
use larmindon_core.Vad.Ring.Window.{Buffers}
use larmindon_core.Vad.Steps.{process-Stepped}
use larmindon_core.Vad.Processor.{
  Run, vad_context_size, process_frame, model_frame, after_run, decide,
}
use larmindon_core.Engine.Gating.{
  Effect, vad_error_row, Gate, on_decision, on_result, frame_step, vad_frame_size,
}
use larmindon_core.Engine.Gating.Delivery.{
  pushed, pushed-append, follow_all, follow_all-append, follow_all-vad_error_row, owed,
  on_decision-Delivers,
}

-- The model gave a probability.
abbrev IsFine : {P S : Type 0} → Result (S × Result P Text) Text → Type 0
IsFine {P} {S} r = (state : S) × (prob : P) × (r ≡ ok (state, ok prob))

fewer :
    {A : Type 0} (gating : AudioGating) (ys frame : List A)
    → Sublist (owed gating ys) (owed gating ys ++ frame)
fewer gating ys frame =
    subst (λ l. Sublist l (owed gating ys ++ frame)) (append-nil (owed gating ys))
      (Sublist-append (Sublist-refl (owed gating ys)) (Sublist-nil frame))

module _ {P S A : Type 0} where
  abbrev pub vad_state : Gate P S A → VadState
  vad_state g = g.vad.state_machine.state

  -- The ring buffer stands for the samples that wait, of which there are none in speech.
  pub record IsReady (g : Gate P S A) (ys : List A) : Type 0 where
    pub buffers : Buffers g.vad.state_machine.ring_buffer ys
    pub quiet : vad_state g ≡ speech → ys ≡ []

  -- A stage that leaves `rest` of its input, where `Fine` says that the VAD does not fail.
  pub record Staged (gating : AudioGating) (Fine : Type 0) (g : Gate P S A) (ys input : List A)
      (o : Option (List (Effect A) × List A × Gate P S A)) : Type 0 where
    pub effects : List (Effect A)
    pub rest : List A
    pub gate : Gate P S A
    pub waiting : List A
    pub outcome : o ≡ some (effects, rest, gate)
    pub ready : IsReady gate waiting
    pub short : length rest < vad_frame_size
    pub subset : Sublist (pushed effects ++ (owed gating waiting ++ rest)) (owed gating ys ++ input)
    pub exact : gating ≡ continuous → Fine → pushed effects ++ rest ≡ input
    pub marks : follow_all gating (vad_state g) effects ≡ some (vad_state gate)

  -- A step of one frame.
  pub record Framed (gating : AudioGating) (Fine : Type 0) (g : Gate P S A) (ys frame : List A)
      (o : Option (List (Effect A) × Gate P S A)) : Type 0 where
    pub effects : List (Effect A)
    pub gate : Gate P S A
    pub waiting : List A
    pub outcome : o ≡ some (effects, gate)
    pub ready : IsReady gate waiting
    pub subset : Sublist (pushed effects ++ owed gating waiting) (owed gating ys ++ frame)
    pub exact : gating ≡ continuous → Fine → pushed effects ≡ frame
    pub marks : follow_all gating (vad_state g) effects ≡ some (vad_state gate)

module _ {P S A : Type 0} (ge : P → P → Bool) (run : Run P S A) (gating : AudioGating) where
  -- What the engine makes of the model's outcome.
  abbrev after_model :
      ℕ
      → List A
      → Gate P S A
      → Result (S × Result P Text) Text
      → Option (List (Effect A) × Gate P S A)
  after_model uptime frame g r =
      decide ge frame g.vad.state_machine (after_run g.vad.model frame r) >>= λ r.
      some (on_result gating uptime frame g.speech_start r)

  after_model-Framed :
      (Fine : Type 0) (r : Result (S × Result P Text) Text) (uptime : ℕ) (frame ys : List A)
      (g : Gate P S A)
      → (Fine → IsFine r)
      → IsReady g ys
      → Framed gating Fine g ys frame (after_model uptime frame g r)
  unfolding decide after_run on_result pushed
  after_model-Framed Fine (err e) uptime frame ys g fine ready = record {
    effects = vad_error_row uptime e ∷ [];
    gate = g;
    waiting = ys;
    outcome = refl;
    ready = ready;
    subset = fewer gating ys frame;
    exact = λ _ f. let (_, _, not_err) = fine f in cc;
    marks = follow_all-vad_error_row A gating (vad_state g) uptime e;
  }
  after_model-Framed Fine (ok (state, err e)) uptime frame ys g fine ready = record {
    effects = vad_error_row uptime e ∷ [];
    gate = record g {
      vad = record {
        model = record { state = state; context = drop (vad_chunk_size - vad_context_size) frame };
        state_machine = g.vad.state_machine;
      };
    };
    waiting = ys;
    outcome = refl;
    ready = record { buffers = ready.buffers; quiet = ready.quiet };
    subset = fewer gating ys frame;
    exact = λ _ f. let (_, _, not_err) = fine f in cc;
    marks = follow_all-vad_error_row A gating (vad_state g) uptime e;
  }
  after_model-Framed Fine (ok (state, ok prob)) uptime frame ys g fine ready =
      let m = g.vad.state_machine in
      let t = process-Stepped ge prob frame m ys ready.buffers in
      let d =
        on_decision-Delivers gating uptime m.ring_buffer.capacity g.speech_start ys frame m.state
          t.decision t.machine.state t.waiting t.step ready.quiet in
      record {
        effects = (on_decision gating uptime t.decision frame g.speech_start).0;
        gate = record {
          vad = record {
            model = record {
              state = state;
              context = drop (vad_chunk_size - vad_context_size) frame;
            };
            state_machine = t.machine;
          };
          speech_start = (on_decision gating uptime t.decision frame g.speech_start).1;
        };
        waiting = t.waiting;
        outcome = rw t.outcome;
        ready = record { buffers = t.buffers; quiet = d.quiet };
        subset = d.subset;
        exact = λ c _. d.exact c;
        marks = d.marks;
      }

  -- The model never fails.
  abbrev pub IsInfallible : Type 0
  IsInfallible = (input : List A) (state : S) → IsFine (run input state)

  pub frame_step-Framed :
      (uptime : ℕ) (frame ys : List A) (g : Gate P S A)
      → length frame ≡ vad_frame_size
      → IsReady g ys
      → Framed gating IsInfallible g ys frame (frame_step ge run gating uptime frame g)
  unfolding frame_step process_frame model_frame
  frame_step-Framed uptime frame ys g whole ready =
      let r = run (g.vad.model.context ++ frame) g.vad.model.state in
      let runs =
        if_true (length frame == vad_chunk_size) (some (after_run g.vad.model frame r)) none
          (ground (arith, whole)) in
      subst (Framed gating IsInfallible g ys frame)
        (sym (
          ap
            (λ o. (o >>= decide ge frame g.vad.state_machine) >>= λ r.
              some (on_result gating uptime frame g.speech_start r))
            runs))
        (after_model-Framed IsInfallible r uptime frame ys g
          (λ fine. fine (g.vad.model.context ++ frame) g.vad.model.state) ready)

  framed_stage :
      (Fine : Type 0) (g : Gate P S A) (ys frame : List A)
      (o : Option (List (Effect A) × Gate P S A)) (t : Framed gating Fine g ys frame o)
      → Staged gating Fine g ys frame (some (t.effects, [], t.gate))
  framed_stage Fine g ys frame o t = record {
    effects = t.effects;
    rest = [];
    gate = t.gate;
    waiting = t.waiting;
    outcome = refl;
    ready = t.ready;
    short = omega arith;
    subset =
        subst (λ l. Sublist (pushed t.effects ++ l) (owed gating ys ++ frame))
          (sym (append-nil (owed gating t.waiting))) t.subset;
    exact = λ c f. append-nil (pushed t.effects) ∙ t.exact c f;
    marks = t.marks;
  }

  -- A stage and then one on what it left and on more samples.
  pub then-Staged :
      (Fine : Type 0) (g : Gate P S A) (ys input more : List A)
      (o₁ o₂ : Option (List (Effect A) × List A × Gate P S A))
      (t : Staged gating Fine g ys input o₁)
      → Staged gating Fine t.gate t.waiting (t.rest ++ more) o₂
      → Staged gating Fine g ys
          (input ++ more)
          (o₂ >>= λ (rest, left, g'). some (t.effects ++ rest, left, g'))
  then-Staged Fine g ys input more o₁ o₂ t u =
      let split = pushed-append t.effects u.effects in
      let later = owed gating u.waiting ++ u.rest in
      record {
        effects = t.effects ++ u.effects;
        rest = u.rest;
        gate = u.gate;
        waiting = u.waiting;
        outcome = rw u.outcome;
        ready = u.ready;
        short = u.short;
        subset =
            subst (λ l. Sublist (l ++ later) (owed gating ys ++ (input ++ more))) (sym split)
              (subst (Sublist ((pushed t.effects ++ pushed u.effects) ++ later))
                (append_assoc (owed gating ys) input more)
                (Sublist-then (pushed t.effects) (pushed u.effects)
                  (owed gating t.waiting ++ t.rest) later (owed gating ys ++ input) more t.subset
                  (subst (Sublist (pushed u.effects ++ later))
                    (sym (append_assoc (owed gating t.waiting) t.rest more)) u.subset)));
        exact = λ c f.
            ap (λ l. l ++ u.rest) split
            ∙ (append_assoc (pushed t.effects) (pushed u.effects) u.rest
                ∙ (ap (◌++◌ (pushed t.effects)) (u.exact c f)
                    ∙ (sym (append_assoc (pushed t.effects) t.rest more)
                        ∙ ap (λ l. l ++ more) (t.exact c f))));
        marks =
            follow_all-append gating t.effects u.effects (vad_state g) (vad_state t.gate) t.marks
            ∙ u.marks;
      }

  pub then-Framed :
      (Fine : Type 0) (g : Gate P S A) (ys frame more : List A)
      (o₁ : Option (List (Effect A) × Gate P S A))
      (o₂ : Option (List (Effect A) × List A × Gate P S A)) (f : Framed gating Fine g ys frame o₁)
      → Staged gating Fine f.gate f.waiting more o₂
      → Staged gating Fine g ys
          (frame ++ more)
          (o₂ >>= λ (rest, left, g'). some (f.effects ++ rest, left, g'))
  unfolding framed_stage
  then-Framed Fine g ys frame more o₁ o₂ f u =
      then-Staged Fine g ys frame more (some (f.effects, [], f.gate)) o₂
        (framed_stage Fine g ys frame o₁ f) u

  pub nothing_left :
      (Fine : Type 0) (g : Gate P S A) (ys input : List A)
      → length input < vad_frame_size
      → IsReady g ys
      → Staged gating Fine g ys input (some ([], input, g))
  unfolding pushed follow_all
  nothing_left Fine g ys input short ready = record {
    effects = [];
    rest = input;
    gate = g;
    waiting = ys;
    outcome = refl;
    ready = ready;
    short = short;
    subset = Sublist-refl (owed gating ys ++ input);
    exact = λ _ _. refl;
    marks = refl;
  }
