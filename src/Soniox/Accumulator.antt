-- ===== src/Soniox/Accumulator.antt =====
-- src/asr/soniox/accumulator.rs: the durable and the volatile lane. `Option` is a panic: `remove(0)`
-- of an empty vector, or `split_off` past the end. `alphabetic` is `char::is_alphabetic`, the Unicode
-- table of the standard library.
pub mod Sentence
pub mod Volatile
pub mod Durable
pub mod Delivery
pub mod Segments
pub mod RunCount
pub mod Publishing
pub mod History
use larmindon_core.Base.{
  ℕ, Bool, true, false, not, ◌&&◌, Option, none, some, List, [], ◌∷◌, ◌++◌, if◌then◌else◌, ◌>>=◌,
}
use larmindon_core.Text.{Text, text_eq, is_blank}
use larmindon_core.Asr.{TranscriptUpdate, SpeakerId, speaker_id}
use larmindon_core.Asr.SegmentIds
use larmindon_core.Soniox.Protocol.{SonioxToken, is_special, is_end_marker, normalized_speaker}
use Sentence.{ends_sentence}

pub record Run : Type 0 where
  pub speaker : Option Text
  pub text : Text

pub record Accumulator : Type 0 where
  pub pending : Text
  pub pending_speaker : Option Text
  pub open_runs : List Run
  pub open_ids : List ℕ

unfoldable pub new : Accumulator
new = record { pending = []; pending_speaker = none; open_runs = []; open_ids = [] }

-- What a method works on: the accumulator, the shared id counter, and the updates put out so far.
pub record State : Type 0 where
  pub acc : Accumulator
  pub open acc use *
  pub ids : ℕ
  pub out : List TranscriptUpdate

unfoldable pub is_speech_token : SonioxToken → Bool
is_speech_token token = not (is_special token) && not (is_blank token.text)

abbrev pub to_speaker_id : Option Text → Option SpeakerId
to_speaker_id none = none
to_speaker_id (some s) = some (speaker_id s)

abbrev pub update_of : ℕ → Bool → Run → TranscriptUpdate
update_of i is_final run = record {
  segment_id = i;
  is_final = is_final;
  text = run.text;
  speaker = to_speaker_id run.speaker;
}

-- The id that `flush` closes: the first open one, with its run, or a new one.
unfoldable pub flush_id : List ℕ → List Run → ℕ → Option (ℕ × List ℕ × List Run × ℕ)
flush_id [] runs ids = let (i, ids') = SegmentIds.next ids in some (i, [], runs, ids')
flush_id (i ∷ is) [] ids = none
flush_id (i ∷ is) (r ∷ rs) ids = some (i, is, rs, ids)

unfoldable pub flush_pending : State → Option State
unfolding flush_id
flush_pending s = do
  (i, open_ids, open_runs, ids) ← flush_id s.open_ids s.open_runs s.ids
  some (record {
    acc = record s.acc { pending = []; open_ids = open_ids; open_runs = open_runs };
    ids = ids;
    out =
        s.out ++ (update_of i true (record { speaker = s.pending_speaker; text = s.pending }) ∷ []);
  })

unfoldable pub flush : State → Option State
unfolding flush_pending
flush s =
    if is_blank s.pending
    then some (record s { acc = record s.acc { pending = [] } })
    else flush_pending s

-- Whether a named speaker differs from the one of the pending text.
abbrev pub changes_speaker : Option Text → Text → Bool
changes_speaker none found = false
changes_speaker (some current) found = not (text_eq current found)

-- A null speaker inherits the current one.
unfoldable pub take_speaker : Option Text → State → Option State
unfolding flush
take_speaker none s = some s
take_speaker (some found) s = do
  s' ← if changes_speaker s.pending_speaker found then flush s else some s
  some (record s' { acc = record s'.acc { pending_speaker = some found } })

module _ (alphabetic : ℕ → Bool) where
  unfoldable pub push_text : Text → State → Option State
  unfolding flush
  push_text text s =
      let s' : State = record s { acc = record s.acc { pending = s.pending ++ text } } in
      if ends_sentence alphabetic s'.pending then flush s' else some s'

  -- The body of the loop over the final tokens.
  unfoldable pub ingest_final : SonioxToken → State → Option State
  unfolding take_speaker push_text
  ingest_final token s = do
    s' ← take_speaker (normalized_speaker token) s
    if is_end_marker token
        then flush s'
        else (if is_special token then some s' else push_text token.text s')

  unfoldable pub ingest_finals : List SonioxToken → State → Option State
  ingest_finals [] s = some s
  ingest_finals (token ∷ tokens) s =
      let skip = ingest_finals tokens s in
      let taken = ingest_final token s >>= ingest_finals tokens in
      if token.is_final then taken else skip
