-- ===== src/Nemotron/Resets.antt =====
-- src/asr/nemotron.rs: what a chunk does to the resets that the ends of speech have left pending.
use larmindon_core.Base.{
  ℕ, ◌+◌, ◌%◌, ◌≤◌, ◌≡◌, refl, sym, ap, subst, not, ◌&&◌, ◌∙◌, inl, inr, Bool, true, false, List,
  [], ◌∷◌, is_empty, leb, le→leb, if◌then◌else◌, if_true, if_false, Bool-cases, All,
}
use larmindon_core.Text.{Text}
use larmindon_core.Asr.SegmentIds.{u64_mod}
use larmindon_core.Nemotron.Punctuation.{ends_with_sentence_punctuation}
use larmindon_core.Nemotron.{push, Transcript, ok, err, PendingSpeechEndReset}
use larmindon_core.Nemotron.Decoding.{
  Loop, count_chunk, replayed, emit, reset_decoder, replay, count_empty, punctuation_reset,
  mid_speech_reset, transcribed, speech_end_resets, on_chunk,
}

module _ {M A : Type 0} (reset : M → M) (transcribe : M → List A → Transcript × M) where
  if-pending :
      (b : Bool) (x y : Loop M A) {ps : List PendingSpeechEndReset}
      → x.pending_speech_end_resets ≡ ps
      → y.pending_speech_end_resets ≡ ps
      → (if b then x else y).pending_speech_end_resets ≡ ps
  if-pending true x y e f = e
  if-pending false x y e f = f

  emit-pending :
      (text : Text) (s : Loop M A)
      → (emit text s).pending_speech_end_resets ≡ s.pending_speech_end_resets
  unfolding emit
  emit-pending [] s = refl
  emit-pending (c ∷ cs) s = refl

  replayed-pending :
      (result : Transcript) (s : Loop M A)
      → (replayed reset transcribe result s).pending_speech_end_resets ≡ s.pending_speech_end_resets
  replayed-pending (ok text) s =
      emit-pending text (record s { chunk_num = (s.chunk_num + 1) % u64_mod })
  replayed-pending (err e) s = refl

  replay-pending :
      (chunks : List (List A)) (s : Loop M A)
      → (replay reset transcribe chunks s).pending_speech_end_resets ≡ s.pending_speech_end_resets
  unfolding replay
  replay-pending [] s = refl
  replay-pending (chunk ∷ chunks) s =
      let (result, model) = transcribe s.model chunk in
      let next = record (count_chunk s) { model = model } in
      replay-pending chunks (replayed reset transcribe result next) ∙ replayed-pending result next

  transcribed-pending :
      (speech enabled : Bool) (threshold : ℕ) (result : Transcript) (s : Loop M A)
      → (transcribed reset transcribe speech enabled threshold result s).pending_speech_end_resets
        ≡ s.pending_speech_end_resets
  unfolding mid_speech_reset punctuation_reset count_empty reset_decoder
  transcribed-pending speech enabled threshold (ok text) s =
      let counted = count_empty reset transcribe speech text s in
      let punctuated = punctuation_reset reset transcribe enabled text counted in
      let emitted = emit text punctuated in
      if-pending (leb threshold emitted.consecutive_empty && speech) _ emitted
        (replay-pending emitted.replay_buffer.chunks (reset_decoder reset transcribe emitted)) refl
      ∙ emit-pending text punctuated
      ∙ if-pending (enabled && not (is_empty text) && ends_with_sentence_punctuation text)
          (reset_decoder reset transcribe counted) counted refl refl
  transcribed-pending speech enabled threshold (err e) s = refl

  speech_end_resets-keeps :
      (consumed total : ℕ) (ps : List PendingSpeechEndReset) (s : Loop M A)
      → All (λ p. p ≤ total) ps
      → All
          (λ p. p ≤ total)
          (speech_end_resets reset transcribe consumed ps s).pending_speech_end_resets
  unfolding speech_end_resets
  speech_end_resets-keeps consumed total [] s a = tt
  speech_end_resets-keeps consumed total (p ∷ ps) s a = elim (Bool-cases (leb p consumed)) [
    | inl e ↦
        subst (λ (t : Loop M A). All (λ q. q ≤ total) t.pending_speech_end_resets)
          (sym (if_true (leb p consumed) _ _ e))
          (speech_end_resets-keeps consumed total ps (reset_decoder reset transcribe s) a.1)
    | inr e ↦
        subst (λ (t : Loop M A). All (λ q. q ≤ total) t.pending_speech_end_resets)
          (sym (if_false (leb p consumed) _ _ e)) a
  ]

  -- Every end of speech within what is consumed has its reset.
  speech_end_resets-settles :
      (consumed : ℕ) (ps : List PendingSpeechEndReset) (s : Loop M A)
      → All (λ p. p ≤ consumed) ps
      → (speech_end_resets reset transcribe consumed ps s).pending_speech_end_resets ≡ []
  unfolding speech_end_resets
  speech_end_resets-settles consumed [] s a = refl
  speech_end_resets-settles consumed (p ∷ ps) s a =
      ap (λ (t : Loop M A). t.pending_speech_end_resets)
        (if_true (leb p consumed) _ (record s { pending_speech_end_resets = p ∷ ps })
          (le→leb p consumed a.0))
      ∙ speech_end_resets-settles consumed ps (reset_decoder reset transcribe s) a.1

  pub on_chunk-keeps :
      (total : ℕ) (speech enabled : Bool) (threshold : ℕ) (chunk : List A) (consumed : ℕ)
      (s : Loop M A)
      → All (λ p. p ≤ total) s.pending_speech_end_resets
      → All
          (λ p. p ≤ total)
          (on_chunk reset transcribe speech enabled threshold chunk consumed
            s).pending_speech_end_resets
        × (total ≡ consumed
            → (on_chunk reset transcribe speech enabled threshold chunk consumed
                s).pending_speech_end_resets
              ≡ [])
  unfolding on_chunk
  on_chunk-keeps total speech enabled threshold chunk consumed s a =
      let kept : Loop M A =
        if speech then record s { replay_buffer = push chunk s.replay_buffer } else s in
      let (result, model) = transcribe kept.model chunk in
      let counted : Loop M A = record (count_chunk kept) { model = model } in
      let done = transcribed reset transcribe speech enabled threshold result counted in
      let same : (done.pending_speech_end_resets ≡ s.pending_speech_end_resets) =
        transcribed-pending speech enabled threshold result counted
        ∙ if-pending speech (record s { replay_buffer = push chunk s.replay_buffer }) s refl refl in
      let a' = subst (All (λ p. p ≤ total)) (sym same) a in
      (
        speech_end_resets-keeps consumed total done.pending_speech_end_resets done a',
        λ e.
            speech_end_resets-settles consumed done.pending_speech_end_resets done
              (subst (λ k. All (λ p. p ≤ k) done.pending_speech_end_resets) e a'),
      )
