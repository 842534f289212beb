-- ===== src/Nemotron/Chunks.antt =====
-- src/asr/nemotron.rs: how much of the buffer `process` takes, and when pending resets are done.
use larmindon_core.Base.{
  ℕ, zero, suc, ◌+◌, ◌%◌, ◌≤◌, ◌<◌, ◌≡◌, refl, sym, ap, subst, ◌∙◌, ◌⊎◌, inl, inr, Bool, some, List,
  [], ◌∷◌, ◌++◌, arith, length, length-drop, nil_of_length, replicate, take, drop, leb, leb→le,
  if_true, if_false, Bool-cases, All, ◌>>=◌,
}
use native.Mathlib.Nat.{mod-eq-sub-mod, mod-eq_of_lt}
use larmindon_core.Asr.{TranscriptUpdate}
use larmindon_core.Nemotron.{
  NemotronBackend, Transcript, pad_to_chunk_boundary, mark_speech_end, PendingSpeechEndReset,
}
use larmindon_core.Nemotron.Decoding.{
  Loop, on_chunk, chunks_from, loop_of, after_loop, processed, updates, process_with, process,
}
use larmindon_core.Nemotron.Feeding.{runs_nothing}
use larmindon_core.Nemotron.Transcribing.{Hears, chunks_from-Took}
use larmindon_core.Nemotron.Padding.{
  pad_to_chunk_boundary-adds, pad_to_chunk_boundary-IsWhole, pad_to_chunk_boundary-grows,
  whole-at_least,
}
use larmindon_core.Nemotron.Resets.{on_chunk-keeps}

module _ {M A : Type 0} (reset : M → M) (transcribe : M → List A → Transcript × M) where
  stopped-settled :
      (size : ℕ) (rest : List A) (s : Loop M A)
      → length rest < size
      → (size ≤ length rest) ⊎ (s.pending_speech_end_resets ≡ [])
      → length rest ≡ 0
      → s.pending_speech_end_resets ≡ []
  stopped-settled size rest s short (inl whole) empty = absurd (omega (arith, short, whole))
  stopped-settled size rest s short (inr none_left) empty = none_left

  -- Where nothing is left in the end, either more whole chunks follow or this was all.
  last_or_more :
      (size : ℕ) (rest left : List A) {ps : List PendingSpeechEndReset}
      → length left ≡ length rest % size
      → length left ≡ 0
      → (length rest ≡ 0 → ps ≡ [])
      → (size ≤ length rest) ⊎ (ps ≡ [])
  last_or_more size rest left leaves empty done = elim (Bool-cases (leb size (length rest))) [
    | inl e ↦ inl (leb→le size (length rest) e)
    | inr e ↦
        let short : (length rest < size) = ground (arith, e) in
        inr (done (sym (mod-eq_of_lt short) ∙ sym leaves ∙ empty))
  ]

  -- Enough fuel: the loop returns, and leaves what is below a chunk.
  chunks_from-leaves :
      (fuel size : ℕ) (speech enabled : Bool) (threshold : ℕ) (rest : List A) (consumed total : ℕ)
      (s : Loop M A)
      → 0 < size
      → length rest ≤ fuel
      → total ≡ consumed + length rest
      → All (λ p. p ≤ total) s.pending_speech_end_resets
      → (s' : Loop M A) × (left : List A) × (chunks_from reset transcribe fuel size speech enabled
            threshold rest consumed s
          ≡ some (s', left))
        × (length left ≡ length rest % size)
        × ((size ≤ length rest) ⊎ (s.pending_speech_end_resets ≡ [])
            → length left ≡ 0
            → s'.pending_speech_end_resets ≡ [])
  unfolding chunks_from
  chunks_from-leaves zero size speech enabled threshold rest consumed total s pos h t a =
      let short : (length rest < size) = omega (arith, h, pos) in
      (
        s,
        rest,
        if_false (leb size (length rest)) _ _ (ground (arith, short)),
        sym (mod-eq_of_lt short),
        stopped-settled size rest s short,
      )
  chunks_from-leaves (suc fuel) size speech enabled threshold rest consumed total s pos h t a =
      elim (Bool-cases (leb size (length rest))) [
        | inl e ↦
            let whole : (size ≤ length rest) = leb→le size (length rest) e in
            let rest' = drop size rest in
            let s₁ =
              on_chunk reset transcribe speech enabled threshold (take size rest) (consumed + size)
                s in
            let kept =
              on_chunk-keeps reset transcribe total speech enabled threshold (take size rest)
                (consumed + size) s a in
            let (s', left, ok_eq, leaves, settles) =
              chunks_from-leaves fuel size speech enabled threshold rest' (consumed + size) total s₁
                pos (omega (arith, length-drop size rest, h, whole, pos))
                (omega (arith, length-drop size rest, t, whole)) kept.0 in
            (
              s',
              left,
              if_true (leb size (length rest)) _ (some (s, rest)) e ∙ ok_eq,
              leaves ∙ ap (λ k. k % size) (length-drop size rest) ∙ sym (mod-eq-sub-mod whole),
              λ _ empty.
                  settles
                    (last_or_more size rest' left leaves empty (λ none_left.
                      kept.1 (omega (arith, t, length-drop size rest, none_left, whole))))
                    empty,
            )
        | inr e ↦
            let short : (length rest < size) = ground (arith, e) in
            (
              s,
              rest,
              if_false (leb size (length rest)) _ (some (s, rest)) e,
              sym (mod-eq_of_lt short),
              stopped-settled size rest s short,
            )
      ]

-- The invariant of the backend in a session: no pending reset lies beyond the buffer.
abbrev pub IsBuffered : {M A : Type 0} → NemotronBackend M A → Type 0
IsBuffered self = All (λ p. p ≤ length self.asr_buffer) self.pending_speech_end_resets

-- With a model loaded, a chunk size of one sample or more and no pending reset beyond the buffer,
-- `process` returns its updates. It cuts the buffer from its start into chunks, as many as are whole;
-- what is below a chunk is left in the buffer. The model is given each chunk, in order, and other
-- chunks only while speech lasts; the updates have all that it gave, in order. Where there was a chunk
-- and nothing is left, no reset is pending either.
pub process-leaves :
    {M A : Type 0} (reset : M → M) (transcribe : M → List A → Transcript × M) (speech : Bool)
    (ids : ℕ) (self : NemotronBackend M A) (model : M)
    → self.model ≡ some model
    → 0 < self.chunk_size
    → IsBuffered self
    → (us : List TranscriptUpdate) × (ids' : ℕ) × (self' : NemotronBackend M A) × (process reset
          transcribe speech ids self
        ≡ some (updates us, ids', self'))
      × (length self'.asr_buffer ≡ length self.asr_buffer % self.chunk_size)
      × (self.chunk_size ≤ length self.asr_buffer
          → length self'.asr_buffer ≡ 0
          → self'.pending_speech_end_resets ≡ [])
      × Hears reset transcribe speech self.chunk_size self.asr_buffer self'.asr_buffer model us
          self'.model
unfolding process process_with
process-leaves reset transcribe speech ids self model loaded_model pos a =
    let (s, left, ok_eq, leaves, settles) =
      chunks_from-leaves reset transcribe (length self.asr_buffer) self.chunk_size speech
        self.punctuation_reset_enabled self.empty_reset_threshold self.asr_buffer 0
        (length self.asr_buffer) (loop_of model ids self) pos (omega arith) (omega arith) a in
    let (chunks, more, cut, sized, given, once, f) =
      chunks_from-Took reset transcribe model (length self.asr_buffer) self.chunk_size speech
        self.punctuation_reset_enabled self.empty_reset_threshold self.asr_buffer 0 []
        (loop_of model ids self) (s, left) runs_nothing ok_eq in
    (
      s.out,
      s.ids,
      after_loop self s left,
      ap (process_with reset transcribe speech ids self) loaded_model
          ∙ ap (λ o. o >>= λ r. some (processed self r)) ok_eq,
      leaves,
      λ whole. settles (inl whole),
      record {
        chunks = chunks;
        fed = more;
        model = s.model;
        cut = cut;
        sized = sized;
        given = given;
        once = once;
        runs = f;
        kept = refl;
      },
    )

All-weaken :
    (m n : ℕ) (ps : List PendingSpeechEndReset)
    → m ≤ n
    → All (λ p. p ≤ m) ps
    → All (λ p. p ≤ n) (ps ++ (n ∷ []))
All-weaken m n [] h a = (omega arith, tt)
All-weaken m n (p ∷ ps) h a = (omega (arith, h, a.0), All-weaken m n ps h a.1)

pub mark_speech_end-IsBuffered :
    {M A : Type 0} (silence : A) (self : NemotronBackend M A)
    → IsBuffered self
    → IsBuffered (mark_speech_end silence self)
unfolding mark_speech_end
mark_speech_end-IsBuffered silence self a =
    All-weaken (length self.asr_buffer)
      (length (pad_to_chunk_boundary silence self.asr_buffer self.chunk_size))
      self.pending_speech_end_resets
      (pad_to_chunk_boundary-grows silence self.asr_buffer self.chunk_size) a

-- In a session with a model, a chunk size of one sample or more and no pending reset beyond the
-- buffer, where audio is buffered when speech ends: the next `process` returns, leaves no audio in the
-- buffer and no reset of the decoder pending. The model is given all of the audio and less than a chunk
-- of silence after it, in chunks in order, and other chunks only while speech lasts; the updates have
-- all that it gave, in order.
pub speech_end-transcribes :
    {M A : Type 0} (reset : M → M) (transcribe : M → List A → Transcript × M) (speech : Bool)
    (ids : ℕ) (silence : A) (self : NemotronBackend M A) (model : M)
    → self.model ≡ some model
    → 0 < self.chunk_size
    → IsBuffered self
    → 0 < length self.asr_buffer
    → (us : List TranscriptUpdate) × (ids' : ℕ) × (self' : NemotronBackend M A) × (process reset
          transcribe speech ids
          (mark_speech_end silence self)
        ≡ some (updates us, ids', self'))
      × (self'.asr_buffer ≡ [])
      × (self'.pending_speech_end_resets ≡ [])
      × (n : ℕ) × (n < self.chunk_size)
      × Hears reset transcribe speech self.chunk_size
          (self.asr_buffer ++ replicate n silence)
          []
          model
          us
          self'.model
unfolding mark_speech_end
speech_end-transcribes reset transcribe speech ids silence self model loaded_model pos a
      some_audio =
    let marked = mark_speech_end silence self in
    let whole = pad_to_chunk_boundary-IsWhole silence self.asr_buffer self.chunk_size pos in
    let grows = pad_to_chunk_boundary-grows silence self.asr_buffer self.chunk_size in
    let (us, ids', self', ok_eq, leaves, settles, heard) =
      process-leaves reset transcribe speech ids marked model loaded_model pos
        (mark_speech_end-IsBuffered silence self a) in
    let empty = leaves ∙ whole in
    let (n, below, padded) =
      pad_to_chunk_boundary-adds silence self.asr_buffer self.chunk_size pos in
    let none_left = nil_of_length self'.asr_buffer empty in
    (
      us,
      ids',
      self',
      ok_eq,
      none_left,
      settles
          (whole-at_least (length marked.asr_buffer) self.chunk_size whole
            (omega (arith, grows, some_audio)))
          empty,
      n,
      below,
      subst (λ audio. Hears reset transcribe speech self.chunk_size audio [] model us self'.model)
          padded
          (subst
            (λ left.
              Hears reset transcribe speech self.chunk_size marked.asr_buffer left model us
                self'.model)
            none_left heard),
    )
