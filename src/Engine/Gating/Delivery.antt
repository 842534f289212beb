-- ===== src/Engine/Gating/Delivery.antt =====
-- src/audio_engine.rs: which samples the VAD stage pushes into the backend, and between which marks.
use larmindon_core.Base.{
  ℕ, ◌-◌, ◌≡◌, refl, sym, ap, ap₂, ◌∙◌, subst, Option, none, some, List, [], ◌∷◌, ◌++◌, append-nil,
  append_assoc, arith, ◌>>=◌, >>=-eq-some, length, drop, Sublist, Sublist-refl, Sublist-drop,
  Sublist-append,
}
use larmindon_core.Text.{Text}
use larmindon_core.Asr.{AudioGating, vad_gated, continuous}
use larmindon_core.Vad.{VadState, silence, speech, VadDecision}
use larmindon_core.Vad.Steps.{Step, waits, opens, goes_on, ends}
use larmindon_core.Engine.Gating.{
  Effect, push_audio, mark_speech_start, mark_speech_end, speech_start_row, vad_error_row,
  on_decision,
}

module _ {A : Type 0} where
  -- The samples pushed.
  unfoldable pub pushed : List (Effect A) → List A
  pushed [] = []
  pushed (push_audio samples ∷ es) = samples ++ pushed es
  pushed (mark_speech_start ∷ es) = pushed es
  pushed (mark_speech_end _ _ ∷ es) = pushed es
  pushed (speech_start_row _ _ ∷ es) = pushed es
  pushed (vad_error_row _ _ ∷ es) = pushed es

  pub pushed-append : (es fs : List (Effect A)) → pushed (es ++ fs) ≡ pushed es ++ pushed fs
  unfolding pushed
  pushed-append [] fs = refl
  pushed-append (push_audio samples ∷ es) fs =
      ap (◌++◌ samples) (pushed-append es fs) ∙ sym (append_assoc samples (pushed es) (pushed fs))
  pushed-append (mark_speech_start ∷ es) fs = pushed-append es fs
  pushed-append (mark_speech_end _ _ ∷ es) fs = pushed-append es fs
  pushed-append (speech_start_row _ _ ∷ es) fs = pushed-append es fs
  pushed-append (vad_error_row _ _ ∷ es) fs = pushed-append es fs

  -- The backend's view: speech starts in silence and ends in speech, and with VAD gating audio comes
  -- in speech only.
  unfoldable pub follow : AudioGating → VadState → Effect A → Option VadState
  follow vad_gated silence (push_audio _) = none
  follow vad_gated speech (push_audio _) = some speech
  follow continuous s (push_audio _) = some s
  follow gating silence mark_speech_start = some speech
  follow gating speech mark_speech_start = none
  follow gating silence (mark_speech_end _ _) = none
  follow gating speech (mark_speech_end _ _) = some silence
  follow gating s (speech_start_row _ _) = some s
  follow gating s (vad_error_row _ _) = some s

  unfoldable pub follow_all : AudioGating → VadState → List (Effect A) → Option VadState
  unfolding follow
  follow_all gating s [] = some s
  follow_all gating s (e ∷ es) = follow gating s e >>= λ t. follow_all gating t es

  pub follow_all-append :
      (gating : AudioGating) (es fs : List (Effect A)) (s t : VadState)
      → follow_all gating s es ≡ some t
      → follow_all gating s (es ++ fs) ≡ follow_all gating t fs
  unfolding follow_all
  follow_all-append gating [] fs s t h = ground (arith, h)
  follow_all-append gating (e ∷ es) fs s t h =
      let (mid, first, rest) = >>=-eq-some (follow gating s e) (λ m. follow_all gating m es) h in
      ap (λ o. o >>= λ m. follow_all gating m (es ++ fs)) first
      ∙ follow_all-append gating es fs mid t rest

  -- The samples that wait for an onset are still to be delivered with VAD gating only.
  pub owed : AudioGating → List A → List A
  owed vad_gated ys = ys
  owed continuous ys = []

  -- What the effects of one decision deliver.
  pub record Delivers (gating : AudioGating) (s : VadState) (ys frame : List A)
      (es : List (Effect A)) (t : VadState) (ys' : List A) : Type 0 where
    pub subset : Sublist (pushed es ++ owed gating ys') (owed gating ys ++ frame)
    pub exact : gating ≡ continuous → pushed es ≡ frame
    pub marks : follow_all gating s es ≡ some t
    pub quiet : t ≡ speech → ys' ≡ []

  same : (xs ys : List A) → xs ≡ ys → Sublist xs ys
  same xs ys e = subst (Sublist xs) e (Sublist-refl xs)

  -- One frame and nothing else.
  one_frame : (frame : List A) → (frame ++ []) ++ [] ≡ frame
  one_frame frame = append-nil (frame ++ []) ∙ append-nil frame

  no_owed : (frame ys : List A) → ys ≡ [] → (frame ++ []) ++ ys ≡ ys ++ frame
  no_owed frame ys e =
      ap₂ ◌++◌ (append-nil frame) e ∙ (append-nil frame ∙ ap (λ zs. zs ++ frame) (sym e))

  opening : (n : ℕ) (ys frame : List A) → Sublist ((drop n ys ++ (frame ++ [])) ++ []) (ys ++ frame)
  opening n ys frame =
      subst (λ l. Sublist l (ys ++ frame))
        (ap (◌++◌ (drop n ys)) (sym (append-nil frame))
          ∙ sym (append-nil (drop n ys ++ (frame ++ []))))
        (Sublist-append (Sublist-drop n ys) (Sublist-refl frame))

  pub on_decision-Delivers :
      (gating : AudioGating) (uptime cap : ℕ) (start : Option ℕ) (ys frame : List A) (s : VadState)
      (d : VadDecision A) (t : VadState) (ys' : List A)
      → Step cap ys frame s d t ys'
      → (s ≡ speech → ys ≡ [])
      → Delivers gating s ys frame (on_decision gating uptime d frame start).0 t ys'
  unfolding on_decision pushed owed follow follow_all
  on_decision-Delivers vad_gated uptime cap start ys frame s d t ys' waits q = record {
    subset = Sublist-refl (ys ++ frame);
    exact = λ e. cc;
    marks = refl;
    quiet = λ e. cc;
  }
  on_decision-Delivers vad_gated uptime cap start ys frame s d t ys' opens q = record {
    subset = opening (length ys - cap) ys frame;
    exact = λ e. cc;
    marks = refl;
    quiet = λ e. refl;
  }
  on_decision-Delivers vad_gated uptime cap start ys frame s d t ys' goes_on q = record {
    subset = same ((frame ++ []) ++ ys) (ys ++ frame) (no_owed frame ys (q refl));
    exact = λ e. cc;
    marks = refl;
    quiet = q;
  }
  on_decision-Delivers vad_gated uptime cap start ys frame s d t ys' ends q = record {
    subset = same ((frame ++ []) ++ ys) (ys ++ frame) (no_owed frame ys (q refl));
    exact = λ e. cc;
    marks = refl;
    quiet = λ e. cc;
  }
  on_decision-Delivers continuous uptime cap start ys frame s d t ys' waits q = record {
    subset = same ((frame ++ []) ++ []) frame (one_frame frame);
    exact = λ e. append-nil frame;
    marks = refl;
    quiet = λ e. cc;
  }
  on_decision-Delivers continuous uptime cap start ys frame s d t ys' opens q = record {
    subset = same ((frame ++ []) ++ []) frame (one_frame frame);
    exact = λ e. append-nil frame;
    marks = refl;
    quiet = λ e. refl;
  }
  on_decision-Delivers continuous uptime cap start ys frame s d t ys' goes_on q = record {
    subset = same ((frame ++ []) ++ []) frame (one_frame frame);
    exact = λ e. append-nil frame;
    marks = refl;
    quiet = q;
  }
  on_decision-Delivers continuous uptime cap start ys frame s d t ys' ends q = record {
    subset = same ((frame ++ []) ++ []) frame (one_frame frame);
    exact = λ e. append-nil frame;
    marks = refl;
    quiet = λ e. cc;
  }

-- A row changes nothing for the backend.
pub follow_all-vad_error_row :
    (A : Type 0) (gating : AudioGating) (s : VadState) (uptime : ℕ) (e : Text)
    → follow_all {A = A} gating s (vad_error_row uptime e ∷ []) ≡ some s
unfolding follow_all
follow_all-vad_error_row A vad_gated silence uptime e = refl
follow_all-vad_error_row A vad_gated speech uptime e = refl
follow_all-vad_error_row A continuous silence uptime e = refl
follow_all-vad_error_row A continuous speech uptime e = refl

pub owed-nil : {A : Type 0} (gating : AudioGating) → owed {A = A} gating [] ≡ []
unfolding owed
owed-nil vad_gated = refl
owed-nil continuous = refl
