-- ===== src/Nemotron/Feeding.antt =====
-- src/asr/nemotron.rs: what `process` gives the model and what becomes of the model's texts.
use larmindon_core.Base.{
  ℕ, ◌+◌, ◌%◌, ◌≡◌, refl, sym, ap, subst, not, ◌&&◌, ◌∙◌, ◌⊎◌, inl, inr, Bool, true, false,
  Bool-cases, List, [], ◌∷◌, ◌++◌, append-nil, append_assoc, is_empty, leb, if◌then◌else◌, if_true,
  if_false,
}
use larmindon_core.Text.{Text}
use larmindon_core.Asr.{TranscriptUpdate}
use larmindon_core.Asr.SegmentIds.{u64_mod}
use larmindon_core.Nemotron.Punctuation.{ends_with_sentence_punctuation}
use larmindon_core.Nemotron.{push, Transcript, ok, err, PendingSpeechEndReset}
use larmindon_core.Nemotron.Decoding.{
  Loop, count_chunk, replayed, emit, reset_decoder, replay, count_empty, punctuation_reset,
  mid_speech_reset, transcribed, speech_end_resets, on_chunk,
}

-- The texts of updates, one after another.
abbrev pub texts : List TranscriptUpdate → Text
texts [] = []
texts (u ∷ us) = u.text ++ texts us

-- What the model gave for a chunk, nothing where it failed.
abbrev pub text_of : Transcript → Text
text_of (ok text) = text
text_of (err e) = []

texts-append : (us vs : List TranscriptUpdate) → texts (us ++ vs) ≡ texts us ++ texts vs
texts-append [] vs = refl
texts-append (u ∷ us) vs =
    ap (λ t. u.text ++ t) (texts-append us vs) ∙ sym (append_assoc u.text (texts us) (texts vs))

and_right : (b c : Bool) → (b && c) ≡ true → c ≡ true
and_right true c e = e
and_right false c e = cc

-- A model that has come from `m` through these chunks, resets in between, and has given this text.
pub data Runs {M A : Type 0} (reset : M → M) (transcribe : M → List A → Transcript × M) (m : M)
    : List (List A) → Text → M → Type 0 where
  runs_nothing : Runs reset transcribe m [] [] m
  runs_reset :
      {cs : List (List A)} {t : Text} {m' : M}
      → Runs reset transcribe m cs t m'
      → Runs reset transcribe m cs t (reset m')
  runs_chunk :
      {cs : List (List A)} {t : Text} {m' : M} (c : List A)
      → Runs reset transcribe m cs t m'
      → Runs reset transcribe m
          (cs ++ (c ∷ []))
          (t ++ text_of (transcribe m' c).0)
          (transcribe m' c).1

-- Chunks that are replayed come only while speech lasts.
abbrev pub Again : {A : Type 0} → Bool → List (List A) → Type 0
Again speech extra = (extra ≡ []) ⊎ (speech ≡ true)

module _ {M A : Type 0} (reset : M → M) (transcribe : M → List A → Transcript × M) (m : M) where
  -- The model has been given `fed`, and what it gave is in the updates but for `owed`.
  abbrev pub Owes : List (List A) → Text → Loop M A → Type 0
  Owes fed owed s = Runs reset transcribe m fed (texts s.out ++ owed) s.model

  abbrev pub Fed : List (List A) → Loop M A → Type 0
  Fed fed s = Runs reset transcribe m fed (texts s.out) s.model

  if-Owes :
      (fed : List (List A)) (owed : Text) (b : Bool) (x y : Loop M A)
      → Owes fed owed x
      → Owes fed owed y
      → Owes fed owed (if b then x else y)
  if-Owes fed owed true x y h k = h
  if-Owes fed owed false x y h k = k

  if-Fed :
      (fed : List (List A)) (b : Bool) (x y : Loop M A)
      → Fed fed x
      → Fed fed y
      → Fed fed (if b then x else y)
  if-Fed fed true x y h k = h
  if-Fed fed false x y h k = k

  pays : (fed : List (List A)) (s : Loop M A) → Owes fed [] s → Fed fed s
  pays fed s h = subst (λ t. Runs reset transcribe m fed t s.model) (append-nil (texts s.out)) h

  emit-Fed :
      (fed : List (List A)) (text : Text) (s : Loop M A) → Owes fed text s → Fed fed (emit text s)
  unfolding emit
  emit-Fed fed [] s h = pays fed s h
  emit-Fed fed (c ∷ cs) s h =
      subst (λ t. Runs reset transcribe m fed t s.model)
        (ap (λ t. texts s.out ++ t) (sym (append-nil (c ∷ cs))) ∙ sym (texts-append s.out _)) h

  replayed-Fed :
      (fed : List (List A)) (result : Transcript) (s : Loop M A)
      → Owes fed (text_of result) s
      → Fed fed (replayed reset transcribe result s)
  replayed-Fed fed (ok text) s h =
      emit-Fed fed text (record s { chunk_num = (s.chunk_num + 1) % u64_mod }) h
  replayed-Fed fed (err e) s h = pays fed s h

  replay-Fed :
      (chunks fed : List (List A)) (s : Loop M A)
      → Fed fed s
      → Fed (fed ++ chunks) (replay reset transcribe chunks s)
  unfolding replay
  replay-Fed [] fed s h = subst (λ cs. Fed cs s) (sym (append-nil fed)) h
  replay-Fed (chunk ∷ chunks) fed s h =
      let (result, model) = transcribe s.model chunk in
      let next = record (count_chunk s) { model = model } in
      subst (λ cs. Fed cs (replay reset transcribe (chunk ∷ chunks) s))
        (append_assoc fed (chunk ∷ []) chunks)
        (replay-Fed chunks (fed ++ (chunk ∷ [])) (replayed reset transcribe result next)
          (replayed-Fed (fed ++ (chunk ∷ [])) result next (runs_chunk chunk h)))

  -- Given `fed`, and perhaps more.
  abbrev pub FedAgain : Bool → List (List A) → Loop M A → Type 0
  FedAgain speech fed s = (extra : List (List A)) × Again speech extra × Fed (fed ++ extra) s

  mid_speech_reset-Fed :
      (fed : List (List A)) (speech : Bool) (threshold : ℕ) (s : Loop M A)
      → Fed fed s
      → FedAgain speech fed (mid_speech_reset reset transcribe speech threshold s)
  unfolding mid_speech_reset reset_decoder
  mid_speech_reset-Fed fed speech threshold s h =
      let due = leb threshold s.consecutive_empty && speech in
      let again = s.replay_buffer.chunks in
      elim (Bool-cases due) [
        | inl e ↦ (
          again,
          inr (and_right (leb threshold s.consecutive_empty) speech e),
          subst (Fed (fed ++ again)) (sym (if_true due _ s e))
              (replay-Fed again fed (reset_decoder reset transcribe s) (runs_reset h)),
        )
        | inr e ↦ (
          [],
          inl refl,
          subst (Fed (fed ++ [])) (sym (if_false due _ s e))
              (subst (λ cs. Fed cs s) (sym (append-nil fed)) h),
        )
      ]

  transcribed-Fed :
      (fed : List (List A)) (speech enabled : Bool) (threshold : ℕ) (result : Transcript)
      (s : Loop M A)
      → Owes fed (text_of result) s
      → FedAgain speech fed (transcribed reset transcribe speech enabled threshold result s)
  unfolding punctuation_reset count_empty reset_decoder
  transcribed-Fed fed speech enabled threshold (ok text) s h =
      let counted = count_empty reset transcribe speech text s in
      let punctuated = punctuation_reset reset transcribe enabled text counted in
      mid_speech_reset-Fed fed speech threshold (emit text punctuated) (
        emit-Fed fed text punctuated (
          if-Owes fed text (enabled && not (is_empty text) && ends_with_sentence_punctuation text)
            (reset_decoder reset transcribe counted) counted (runs_reset h) h))
  transcribed-Fed fed speech enabled threshold (err e) s h =
      ([], inl refl, subst (λ cs. Fed cs s) (sym (append-nil fed)) (pays fed s h))

  speech_end_resets-Fed :
      (fed : List (List A)) (consumed : ℕ) (ps : List PendingSpeechEndReset) (s : Loop M A)
      → Fed fed s
      → Fed fed (speech_end_resets reset transcribe consumed ps s)
  unfolding speech_end_resets reset_decoder
  speech_end_resets-Fed fed consumed [] s h = h
  speech_end_resets-Fed fed consumed (p ∷ ps) s h = elim (Bool-cases (leb p consumed)) [
    | inl e ↦
        subst (Fed fed) (sym (if_true (leb p consumed) _ _ e))
          (speech_end_resets-Fed fed consumed ps (reset_decoder reset transcribe s) (runs_reset h))
    | inr e ↦ subst (Fed fed) (sym (if_false (leb p consumed) _ _ e)) h
  ]

  -- A round gives the model its chunk, and what it replays.
  pub on_chunk-Fed :
      (fed : List (List A)) (speech enabled : Bool) (threshold : ℕ) (chunk : List A) (consumed : ℕ)
      (s : Loop M A)
      → Fed fed s
      → FedAgain speech
          (fed ++ (chunk ∷ []))
          (on_chunk reset transcribe speech enabled threshold chunk consumed s)
  unfolding on_chunk
  on_chunk-Fed fed speech enabled threshold chunk consumed s h =
      let kept : Loop M A =
        if speech then record s { replay_buffer = push chunk s.replay_buffer } else s in
      let h' : Fed fed kept =
        if-Fed fed speech (record s { replay_buffer = push chunk s.replay_buffer }) s h h in
      let (result, model) = transcribe kept.model chunk in
      let counted : Loop M A = record (count_chunk kept) { model = model } in
      let done = transcribed reset transcribe speech enabled threshold result counted in
      let (extra, again, f) =
        transcribed-Fed (fed ++ (chunk ∷ [])) speech enabled threshold result counted
          (runs_chunk chunk h') in
      (
        extra,
        again,
        speech_end_resets-Fed (fed ++ (chunk ∷ []) ++ extra) consumed done.pending_speech_end_resets
            done f,
      )
