-- ===== src/Diag.antt =====
-- src/diag.rs: the sink for diagnostics. The database is its rows, and of `sessions` the ids of its
-- rows; an integer column is the 64 bits that it holds, so that `as i64` changes nothing.
-- Opening the file and creating the tables can fail, with a message; a row is written, or not written
-- without notice. `F` is f64.
mod Rows
pub use Rows.*
pub mod Gate
mod Tests
use larmindon_core.Base.{
  ℕ, suc, ◌+◌, ◌-◌, ◌*◌, ◌^◌, min, Bool, true, false, ◌&&◌, Option, none, some, List, [], ◌∷◌, ◌++◌,
  if◌then◌else◌, Result, ok, err,
}
use larmindon_core.Text.{Text, codes}

abbrev pub u64_max : ℕ
u64_max = 2 ^ 64 - 1

abbrev pub i64_max : ℕ
i64_max = 2 ^ 63 - 1

-- `saturating_mul`, then `min`.
unfoldable pub chunks_to_audio_ms : ℕ → ℕ → ℕ
chunks_to_audio_ms chunks chunk_ms = min (min (chunks * chunk_ms) u64_max) i64_max

-- A value of a column.
pub data Value (F : Type 0) : Type 0 where
  integer : ℕ → Value F
  real : F → Value F
  text : Text → Value F

-- The columns that a row sets, by name.
abbrev pub Columns : Type 0 → Type 0
Columns F = List (Text × Value F)

pub record Row (F : Type 0) : Type 0 where
  pub table : Text
  pub session_id : ℕ
  pub uptime_ms : ℕ
  pub event_type : Text
  pub columns : Columns F

-- `rows` are those of `events` and `vad_events`.
pub record Connection (F : Type 0) : Type 0 where
  pub sessions : List ℕ
  pub rows : List (Row F)

-- The flag that the sink shares is given to its methods.
pub record DiagSink (F : Type 0) : Type 0 where
  pub conn : Option (Connection F)
  pub session_id : ℕ
  pub chunk_ms : ℕ

abbrev number : Bool → ℕ
number true = 1
number false = 0

module _ {F : Type 0} where
  abbrev int : Text → ℕ → Text × Value F
  int name n = (name, integer n)

  abbrev str : Text → Text → Text × Value F
  str name t = (name, text t)

  abbrev event : ℕ → ℕ → Text → Columns F → Row F
  event session uptime kind columns = record {
    table = codes "events";
    session_id = session;
    uptime_ms = uptime;
    event_type = kind;
    columns = columns;
  }

  abbrev vad_event : ℕ → ℕ → Text → Columns F → Row F
  vad_event session uptime kind columns = record {
    table = codes "vad_events";
    session_id = session;
    uptime_ms = uptime;
    event_type = kind;
    columns = columns;
  }

  -- After `init_diag_db`; the row of the session is written where the flag is set, and `inserted` is
  -- its `last_insert_rowid` or the error.
  unfoldable pub open_sink :
      Result {0, 0} (Option (Connection F)) Text
      → Bool
      → Result {0, 0} ℕ Text
      → ℕ
      → Result {0, 0} (DiagSink F) Text
  open_sink (err e) enabled inserted chunk_ms = err e
  open_sink (ok (some c)) true (err e) chunk_ms = err e
  open_sink (ok (some c)) true (ok id) chunk_ms = ok (record {
    conn = some (record c { sessions = c.sessions ++ (id ∷ []) });
    session_id = id;
    chunk_ms = chunk_ms;
  })
  open_sink (ok (some c)) false inserted chunk_ms =
      ok (record { conn = some c; session_id = 0; chunk_ms = chunk_ms })
  open_sink (ok none) enabled inserted chunk_ms =
      ok (record { conn = none; session_id = 0; chunk_ms = chunk_ms })

  -- The gate: `conn.as_ref().filter(|_| enabled)`.
  unfoldable pub live : Bool → DiagSink F → Option (Connection F)
  live enabled s = if enabled then s.conn else none

  -- An `INSERT`, where the gate lets it through and the database takes it.
  unfoldable pub execute : Bool → Row F → Option (Connection F) → DiagSink F → DiagSink F
  execute takes row none s = s
  execute takes row (some c) s =
      if takes then record s { conn = some (record c { rows = c.rows ++ (row ∷ []) }) } else s

  unfoldable pub audio_ms : ℕ → DiagSink F → ℕ
  unfolding chunks_to_audio_ms
  audio_ms chunks s = chunks_to_audio_ms chunks s.chunk_ms

  -- The methods, with `enabled` as it is when one is called and whether the database takes the row.
  unfoldable pub write_transcribe : Bool → Bool → TranscribeRow F → DiagSink F → DiagSink F
  unfolding live execute
  write_transcribe enabled takes r s =
      execute takes
        (event s.session_id r.uptime_ms (codes "transcribe") (
          int (codes "chunk_num") r.chunk_num
          ∷ int (codes "inference_ms") r.inference_ms
          ∷ int (codes "drain_samples") r.drain_samples
          ∷ (codes "drain_audio_ms", real r.drain_audio_ms)
          ∷ int (codes "asr_buf_len") r.asr_buf_len
          ∷ int (codes "text_empty") (number r.is_empty)
          ∷ str (codes "text_preview") r.preview
          ∷ str (codes "vad_state") r.vad_state
          ∷ int (codes "vad_ms") r.vad_ms
          ∷ int (codes "resample_ms") r.resample_ms
          ∷ int (codes "iteration_ms") r.iteration_ms
          ∷ str (codes "chunk_source") r.chunk_source
          ∷ []))
        (live enabled s) s

  unfoldable pub write_asr_error : Bool → Bool → AsrErrorRow → DiagSink F → DiagSink F
  unfolding live execute
  write_asr_error enabled takes r s =
      execute takes
        (event s.session_id r.uptime_ms (codes "asr_error") (
          int (codes "chunk_num") r.chunk_num
          ∷ int (codes "inference_ms") r.inference_ms
          ∷ str (codes "error_msg") r.error_msg
          ∷ str (codes "vad_state") r.vad_state
          ∷ str (codes "chunk_source") r.chunk_source
          ∷ []))
        (live enabled s) s

  unfoldable pub write_resample_error : Bool → Bool → ℕ → Text → DiagSink F → DiagSink F
  unfolding live execute
  write_resample_error enabled takes uptime e s =
      execute takes
        (event s.session_id uptime (codes "resample_error") (str (codes "error_msg") e ∷ []))
        (live enabled s) s

  unfoldable pub write_vad_error : Bool → Bool → ℕ → Text → DiagSink F → DiagSink F
  unfolding live execute
  write_vad_error enabled takes uptime e s =
      execute takes (event s.session_id uptime (codes "vad_error") (str (codes "error_msg") e ∷ []))
        (live enabled s) s

  unfoldable pub write_backend_error : Bool → Bool → ℕ → Text → Text → DiagSink F → DiagSink F
  unfolding live execute
  write_backend_error enabled takes uptime kind e s =
      execute takes
        (event s.session_id uptime (codes "backend_error")
          (str (codes "error_msg") e ∷ str (codes "chunk_source") kind ∷ []))
        (live enabled s) s

  unfoldable pub write_shutdown : Bool → Bool → ℕ → ℕ → DiagSink F → DiagSink F
  unfolding live execute
  write_shutdown enabled takes uptime chunk_num s =
      execute takes
        (event s.session_id uptime (codes "shutdown") (int (codes "chunk_num") chunk_num ∷ []))
        (live enabled s) s

  unfoldable pub write_speech_start : Bool → Bool → ℕ → ℕ → DiagSink F → DiagSink F
  unfolding live execute
  write_speech_start enabled takes uptime n s =
      execute takes
        (vad_event s.session_id uptime (codes "speech_start")
          (int (codes "pre_speech_samples") n ∷ []))
        (live enabled s) s

  unfoldable pub write_punctuation_reset :
      Bool → Bool → PunctuationResetRow → DiagSink F → DiagSink F
  unfolding live execute audio_ms
  write_punctuation_reset enabled takes r s =
      execute takes
        (vad_event s.session_id r.uptime_ms (codes "punctuation_reset") (
          int (codes "consecutive_empty") r.consecutive_empty
          ∷ int (codes "chunks_since_decoder_reset") r.chunks_since_decoder_reset
          ∷ int (codes "audio_ms_since_decoder_reset") (audio_ms r.chunks_since_decoder_reset s)
          ∷ []))
        (live enabled s) s

  unfoldable pub write_mid_speech_reset : Bool → Bool → MidSpeechResetRow → DiagSink F → DiagSink F
  unfolding live execute audio_ms
  write_mid_speech_reset enabled takes r s =
      execute takes
        (vad_event s.session_id r.uptime_ms (codes "mid_speech_reset") (
          int (codes "consecutive_empty") r.consecutive_empty
          ∷ int (codes "chunks_since_decoder_reset") r.chunks_since_decoder_reset
          ∷ int (codes "audio_ms_since_decoder_reset") (audio_ms r.chunks_since_decoder_reset s)
          ∷ int (codes "replay_chunks") r.replay_chunks
          ∷ int (codes "replay_audio_ms") (audio_ms r.replay_chunks s)
          ∷ int (codes "replay_nonempty_chunks") r.replay_nonempty_chunks
          ∷ int (codes "replay_inference_ms") r.replay_inference_ms
          ∷ []))
        (live enabled s) s

  unfoldable pub write_speech_end : Bool → Bool → SpeechEndRow F → DiagSink F → DiagSink F
  unfolding live execute audio_ms
  write_speech_end enabled takes r s =
      execute takes
        (vad_event s.session_id r.uptime_ms (codes "speech_end") (
          (codes "speech_duration_ms", real r.speech_duration_ms)
          ∷ int (codes "consecutive_empty") r.consecutive_empty
          ∷ int (codes "chunks_since_decoder_reset") r.chunks_since_decoder_reset
          ∷ int (codes "audio_ms_since_decoder_reset") (audio_ms r.chunks_since_decoder_reset s)
          ∷ []))
        (live enabled s) s

  -- A call of one of them.
  unfoldable pub write : Bool → Bool → Write F → DiagSink F → DiagSink F
  unfolding write_transcribe write_asr_error write_resample_error write_vad_error
      write_backend_error write_shutdown write_speech_start write_punctuation_reset
      write_mid_speech_reset write_speech_end
  write enabled takes (transcribe r) s = write_transcribe enabled takes r s
  write enabled takes (asr_error r) s = write_asr_error enabled takes r s
  write enabled takes (resample_error uptime e) s = write_resample_error enabled takes uptime e s
  write enabled takes (vad_error uptime e) s = write_vad_error enabled takes uptime e s
  write enabled takes (backend_error uptime kind e) s =
      write_backend_error enabled takes uptime kind e s
  write enabled takes (shutdown uptime chunk_num) s =
      write_shutdown enabled takes uptime chunk_num s
  write enabled takes (speech_start uptime n) s = write_speech_start enabled takes uptime n s
  write enabled takes (punctuation_reset r) s = write_punctuation_reset enabled takes r s
  write enabled takes (mid_speech_reset r) s = write_mid_speech_reset enabled takes r s
  write enabled takes (speech_end r) s = write_speech_end enabled takes r s

  -- The calls of a session, each with the flag at its time and whether it is taken.
  unfoldable pub write_all : List (Bool × Bool × Write F) → DiagSink F → DiagSink F
  unfolding write
  write_all [] s = s
  write_all ((enabled, takes, w) ∷ ws) s = write_all ws (write enabled takes w s)
