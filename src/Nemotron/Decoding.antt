-- ===== src/Nemotron/Decoding.antt =====
-- src/asr/nemotron.rs, `process`: each whole chunk goes through the model, and the resets of the
-- decoder that its text, the lack of it, or the end of speech call for.
use larmindon_core.Base.{
  ℕ, zero, suc, ◌+◌, ◌%◌, ◌^◌, Bool, true, not, ◌&&◌, Option, none, some, List, [], ◌∷◌, ◌++◌,
  is_empty, length, take, drop, leb, if◌then◌else◌, ◌>>=◌,
}
use larmindon_core.Text.{Text, codes}
use larmindon_core.Asr.{TranscriptUpdate, AsrError, fatal}
use larmindon_core.Asr.SegmentIds
use larmindon_core.Asr.SegmentIds.{u64_mod}
use larmindon_core.Nemotron.{
  ReplayBuffer, push, clear, PendingSpeechEndReset, NemotronBackend, Transcript, ok, err,
}
use larmindon_core.Nemotron.Punctuation.{ends_with_sentence_punctuation}

abbrev u32_mod : ℕ
u32_mod = 2 ^ 32

-- What the loop changes: the model, the counters, and the updates so far.
pub record Loop (M A : Type 0) : Type 0 where
  pub model : M
  pub chunk_num : ℕ
  pub consecutive_empty : ℕ
  pub chunks_since_decoder_reset : ℕ
  pub replay_buffer : ReplayBuffer A
  pub pending_speech_end_resets : List PendingSpeechEndReset
  pub ids : ℕ
  pub out : List TranscriptUpdate

abbrev pub count_chunk : {M A : Type 0} → Loop M A → Loop M A
count_chunk s = record s {
  chunks_since_decoder_reset = (s.chunks_since_decoder_reset + 1) % u64_mod;
}

-- A live segment: final at once, with no speaker.
unfoldable pub emit : {M A : Type 0} → Text → Loop M A → Loop M A
emit text s = if is_empty text then s else record s {
  ids = (SegmentIds.next s.ids).1;
  out =
      s.out
      ++ (record {
        segment_id = (SegmentIds.next s.ids).0;
        is_final = true;
        text = text;
        speaker = none;
      }
          ∷ []);
}

module _ {M A : Type 0} (reset : M → M) (transcribe : M → List A → Transcript × M) where
  unfoldable pub reset_decoder : Loop M A → Loop M A
  unfolding clear
  reset_decoder s = record s {
    model = reset s.model;
    chunks_since_decoder_reset = 0;
    consecutive_empty = 0;
    replay_buffer = clear s.replay_buffer;
  }

  -- A chunk through the decoder that was just reset; an error is only logged.
  abbrev pub replayed : Transcript → Loop M A → Loop M A
  replayed (ok text) s = emit text (record s { chunk_num = (s.chunk_num + 1) % u64_mod })
  replayed (err e) s = s

  unfoldable pub replay : List (List A) → Loop M A → Loop M A
  unfolding emit
  replay [] s = s
  replay (chunk ∷ chunks) s =
      let counted : Loop M A = count_chunk s in
      let (result, model) = transcribe counted.model chunk in
      replay chunks (replayed result (record counted { model = model }))

  -- The three decisions on the text of a chunk, in the order of the code.
  unfoldable pub count_empty : Bool → Text → Loop M A → Loop M A
  count_empty speech text s = record s {
    chunk_num = (s.chunk_num + 1) % u64_mod;
    consecutive_empty = if is_empty text && speech then (s.consecutive_empty + 1) % u32_mod else 0;
  }

  unfoldable pub punctuation_reset : Bool → Text → Loop M A → Loop M A
  unfolding reset_decoder ends_with_sentence_punctuation
  punctuation_reset enabled text s =
      if enabled && not (is_empty text) && ends_with_sentence_punctuation text
      then reset_decoder s
      else s

  unfoldable pub mid_speech_reset : Bool → ℕ → Loop M A → Loop M A
  unfolding reset_decoder replay
  mid_speech_reset speech threshold s =
      let replay_chunks = s.replay_buffer.chunks in
      let replayed_all = replay replay_chunks (reset_decoder s) in
      if leb threshold s.consecutive_empty && speech then replayed_all else s

  abbrev pub transcribed : Bool → Bool → ℕ → Transcript → Loop M A → Loop M A
  transcribed speech enabled threshold (ok text) s =
      mid_speech_reset speech threshold
        (emit text (punctuation_reset enabled text (count_empty speech text s)))
  transcribed speech enabled threshold (err e) s = s

  -- The resets at the end of an utterance whose audio is now consumed.
  unfoldable pub speech_end_resets : ℕ → List PendingSpeechEndReset → Loop M A → Loop M A
  unfolding reset_decoder
  speech_end_resets consumed [] s = record s { pending_speech_end_resets = [] }
  speech_end_resets consumed (p ∷ ps) s =
      let rest = speech_end_resets consumed ps (reset_decoder s) in
      if leb p consumed then rest else record s { pending_speech_end_resets = p ∷ ps }

  -- One round of the loop; `consumed` already counts the chunk.
  unfoldable pub on_chunk : Bool → Bool → ℕ → List A → ℕ → Loop M A → Loop M A
  unfolding emit count_empty punctuation_reset mid_speech_reset speech_end_resets
  on_chunk speech enabled threshold chunk consumed s =
      let kept : Loop M A =
        if speech then record s { replay_buffer = push chunk s.replay_buffer } else s in
      let counted : Loop M A = count_chunk kept in
      let (result, model) = transcribe counted.model chunk in
      let done = transcribed speech enabled threshold result (record counted { model = model }) in
      speech_end_resets consumed done.pending_speech_end_resets done

  -- The loop on fuel: `none` is fuel that ran out. `rest` is the buffer from `consumed` on.
  unfoldable pub chunks_from :
      ℕ → ℕ → Bool → Bool → ℕ → List A → ℕ → Loop M A → Option (Loop M A × List A)
  unfolding on_chunk
  chunks_from zero size speech enabled threshold rest consumed s =
      if leb size (length rest) then none else some (s, rest)
  chunks_from (suc fuel) size speech enabled threshold rest consumed s =
      let next =
        chunks_from fuel size speech enabled threshold (drop size rest) (consumed + size)
          (on_chunk speech enabled threshold (take size rest) (consumed + size) s) in
      if leb size (length rest) then next else some (s, rest)

abbrev pub loop_of : {M A : Type 0} → M → ℕ → NemotronBackend M A → Loop M A
loop_of model ids self = record {
  model = model;
  chunk_num = self.chunk_num;
  consecutive_empty = self.consecutive_empty;
  chunks_since_decoder_reset = self.chunks_since_decoder_reset;
  replay_buffer = self.replay_buffer;
  pending_speech_end_resets = self.pending_speech_end_resets;
  ids = ids;
  out = [];
}

abbrev pub after_loop :
    {M A : Type 0} → NemotronBackend M A → Loop M A → List A → NemotronBackend M A
after_loop self s rest = record self {
  model = some s.model;
  asr_buffer = rest;
  chunk_num = s.chunk_num;
  consecutive_empty = s.consecutive_empty;
  chunks_since_decoder_reset = s.chunks_since_decoder_reset;
  replay_buffer = s.replay_buffer;
  pending_speech_end_resets = s.pending_speech_end_resets;
}

-- `Result<Vec<TranscriptUpdate>, AsrError>`.
pub data Processed : Type 0 where
  updates : List TranscriptUpdate → Processed
  failed : AsrError → Processed

abbrev no_model : Text
no_model = codes "Nemotron model not loaded"

abbrev pub processed :
    {M A : Type 0} → NemotronBackend M A → Loop M A × List A → Processed × ℕ × NemotronBackend M A
processed self (s, rest) = (updates s.out, s.ids, after_loop self s rest)

module _ {M A : Type 0} (reset : M → M) (transcribe : M → List A → Transcript × M) where
  -- The fuel is the length of the buffer.
  unfoldable pub process_with :
      Bool → ℕ → NemotronBackend M A → Option M → Option (Processed × ℕ × NemotronBackend M A)
  unfolding chunks_from
  process_with speech ids self none = some (failed (fatal no_model), ids, self)
  process_with speech ids self (some m) =
      chunks_from reset transcribe (length self.asr_buffer) self.chunk_size speech
        self.punctuation_reset_enabled self.empty_reset_threshold self.asr_buffer 0
        (loop_of m ids self)
      >>= λ r. some (processed self r)

  -- `speech` is whether the sampled VAD state is speech.
  unfoldable pub process :
      Bool → ℕ → NemotronBackend M A → Option (Processed × ℕ × NemotronBackend M A)
  unfolding process_with
  process speech ids self = process_with speech ids self self.model
