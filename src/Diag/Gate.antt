-- ===== src/Diag/Gate.antt =====
-- src/diag.rs: which rows are written, and the durations in them.
use larmindon_core.Base.{
  ℕ, ◌+◌, ◌*◌, ◌≤◌, ◌≡◌, refl, sym, ap, ap₂, subst, ◌∙◌, Bool, true, false, none, some, List, [],
  ◌∷◌, ◌++◌, append-nil, append_assoc, arith, Result, ok,
}
use larmindon_core.Text.{Text, codes}
use larmindon_core.Diag.{
  chunks_to_audio_ms, i64_max, Row, Connection, DiagSink, Write, transcribe, asr_error,
  resample_error, vad_error, backend_error, shutdown, speech_start, punctuation_reset,
  mid_speech_reset, speech_end, open_sink, live, execute, write, write_all,
}

ok_inj : {A : Type 0} (a b : A) → ◌≡◌ {A = Result {0, 0} A Text} (ok a) (ok b) → a ≡ b
ok_inj a b e = cc

-- The session, the uptime, the table and the kind of a row.
abbrev pub Heading : Type 0
Heading = ℕ × ℕ × Text × Text

module _ {F : Type 0} where
  abbrev pub headings : List (Row F) → List Heading
  headings [] = []
  headings (r ∷ rs) = (r.session_id, r.uptime_ms, r.table, r.event_type) ∷ headings rs

  -- The heading of what a call is to write, in a session.
  abbrev pub heading_of : ℕ → Write F → Heading
  heading_of session (transcribe r) = (session, r.uptime_ms, codes "events", codes "transcribe")
  heading_of session (asr_error r) = (session, r.uptime_ms, codes "events", codes "asr_error")
  heading_of session (resample_error uptime e) =
      (session, uptime, codes "events", codes "resample_error")
  heading_of session (vad_error uptime e) = (session, uptime, codes "events", codes "vad_error")
  heading_of session (backend_error uptime kind e) =
      (session, uptime, codes "events", codes "backend_error")
  heading_of session (shutdown uptime n) = (session, uptime, codes "events", codes "shutdown")
  heading_of session (speech_start uptime n) =
      (session, uptime, codes "vad_events", codes "speech_start")
  heading_of session (punctuation_reset r) =
      (session, r.uptime_ms, codes "vad_events", codes "punctuation_reset")
  heading_of session (mid_speech_reset r) =
      (session, r.uptime_ms, codes "vad_events", codes "mid_speech_reset")
  heading_of session (speech_end r) = (session, r.uptime_ms, codes "vad_events", codes "speech_end")

  -- Of the calls that come while the flag is set and are taken.
  abbrev pub live_headings : ℕ → List (Bool × Bool × Write F) → List Heading
  live_headings session [] = []
  live_headings session ((true, true, w) ∷ ws) = heading_of session w ∷ live_headings session ws
  live_headings session ((true, false, w) ∷ ws) = live_headings session ws
  live_headings session ((false, takes, w) ∷ ws) = live_headings session ws

  abbrev sink : Connection F → ℕ → ℕ → DiagSink F
  sink c session chunk_ms = record { conn = some c; session_id = session; chunk_ms = chunk_ms }

  abbrev with_rows : Connection F → List (Row F) → Connection F
  with_rows c rows = record c { rows = c.rows ++ rows }

  -- Each method writes its row where the gate lets it.
  write-execute :
      (enabled takes : Bool) (w : Write F) (s : DiagSink F)
      → (row : Row F) × (write enabled takes w s ≡ execute takes row (live enabled s) s)
        × (headings (row ∷ []) ≡ heading_of s.session_id w ∷ [])
  unfolding write
  write-execute enabled takes (transcribe r) s = (_, refl, refl)
  write-execute enabled takes (asr_error r) s = (_, refl, refl)
  write-execute enabled takes (resample_error uptime e) s = (_, refl, refl)
  write-execute enabled takes (vad_error uptime e) s = (_, refl, refl)
  write-execute enabled takes (backend_error uptime kind e) s = (_, refl, refl)
  write-execute enabled takes (shutdown uptime n) s = (_, refl, refl)
  write-execute enabled takes (speech_start uptime n) s = (_, refl, refl)
  write-execute enabled takes (punctuation_reset r) s = (_, refl, refl)
  write-execute enabled takes (mid_speech_reset r) s = (_, refl, refl)
  write-execute enabled takes (speech_end r) s = (_, refl, refl)

  -- What calls do to a sink with a connection.
  Adds : ℕ → ℕ → Connection F → List (Bool × Bool × Write F) → DiagSink F → Type 0
  Adds session chunk_ms c ws s =
      (added : List (Row F)) × (s ≡ sink (with_rows c added) session chunk_ms)
      × (headings added ≡ live_headings session ws)

  connected :
      (ws : List (Bool × Bool × Write F)) (c : Connection F) (session chunk_ms : ℕ)
      → Adds session chunk_ms c ws (write_all ws (sink c session chunk_ms))
  unfolding write_all live execute Adds
  connected [] c session chunk_ms = (
    [],
    ap (λ rows. sink (record c { rows = rows }) session chunk_ms) (sym (append-nil c.rows)),
    refl,
  )
  connected ((true, true, w) ∷ ws) c session chunk_ms =
      let (row, writes, head) = write-execute true true w (sink c session chunk_ms) in
      let (added, adds, same) = connected ws (with_rows c (row ∷ [])) session chunk_ms in
      (
        row ∷ added,
        ap (write_all ws) writes
            ∙ adds
            ∙ ap (λ rows. sink (record c { rows = rows }) session chunk_ms)
                (append_assoc c.rows (row ∷ []) added),
        ap₂ ◌++◌ head same,
      )
  connected ((true, false, w) ∷ ws) c session chunk_ms =
      let (row, writes, head) = write-execute true false w (sink c session chunk_ms) in
      let (added, adds, same) = connected ws c session chunk_ms in
      (added, ap (write_all ws) writes ∙ adds, same)
  connected ((false, takes, w) ∷ ws) c session chunk_ms =
      let (row, writes, head) = write-execute false takes w (sink c session chunk_ms) in
      let (added, adds, same) = connected ws c session chunk_ms in
      (added, ap (write_all ws) writes ∙ adds, same)

  abbrev no_database : ℕ → DiagSink F
  no_database chunk_ms = record { conn = none; session_id = 0; chunk_ms = chunk_ms }

  inert :
      (ws : List (Bool × Bool × Write F)) (chunk_ms : ℕ)
      → write_all ws (no_database chunk_ms) ≡ no_database chunk_ms
  unfolding write_all live execute
  inert [] chunk_ms = refl
  inert ((true, takes, w) ∷ ws) chunk_ms =
      let (row, writes, head) = write-execute true takes w (no_database chunk_ms) in
      ap (write_all ws) writes ∙ inert ws chunk_ms
  inert ((false, takes, w) ∷ ws) chunk_ms =
      let (row, writes, head) = write-execute false takes w (no_database chunk_ms) in
      ap (write_all ws) writes ∙ inert ws chunk_ms

  -- A sink that is opened with the flag set and a database that gives the session's row an id: over
  -- any calls it adds one row for each call that comes while the flag is set and that the database
  -- takes, in order, each for that session id, of the call's time and kind and in the table for it,
  -- whenever the flag was cleared and set again in between. A sink without a path never changes.
  pub write_all-live :
      (c : Connection F) (id chunk_ms : ℕ) (enabled : Bool) (inserted : Result {0, 0} ℕ Text)
      (ws : List (Bool × Bool × Write F)) (s inert_sink : DiagSink F)
      → open_sink (ok (some c)) true (ok id) chunk_ms ≡ ok s
      → open_sink (ok none) enabled inserted chunk_ms ≡ ok inert_sink
      → (added : List (Row F)) × (write_all ws s ≡ record {
        conn = some (record { sessions = c.sessions ++ (id ∷ []); rows = c.rows ++ added });
        session_id = id;
        chunk_ms = chunk_ms;
      })
        × (headings added ≡ live_headings id ws)
        × (write_all ws inert_sink ≡ inert_sink)
  unfolding open_sink Adds
  write_all-live c id chunk_ms enabled inserted ws s inert_sink opened no_path =
      let counted : Connection F = record c { sessions = c.sessions ++ (id ∷ []) } in
      let (added, adds, same) = connected ws counted id chunk_ms in
      (
        added,
        ap (write_all ws) (sym (ok_inj _ s opened)) ∙ adds,
        same,
        subst (λ s. write_all ws s ≡ s) (ok_inj _ inert_sink no_path) (inert ws chunk_ms),
      )

-- A duration fits a signed column; it is the number of chunks times their duration where that fits,
-- and it never shrinks as the chunks grow.
pub chunks_to_audio_ms-bounds :
    (chunks more chunk_ms : ℕ)
    → (chunks_to_audio_ms chunks chunk_ms ≤ i64_max)
      × (chunks * chunk_ms ≤ i64_max → chunks_to_audio_ms chunks chunk_ms ≡ chunks * chunk_ms)
      × (chunks_to_audio_ms chunks chunk_ms ≤ chunks_to_audio_ms (chunks + more) chunk_ms)
unfolding chunks_to_audio_ms
chunks_to_audio_ms-bounds chunks more chunk_ms =
    let grown : (chunks + more) * chunk_ms ≡ chunks * chunk_ms + more * chunk_ms = omega arith in
    (omega arith, λ fits. omega (arith, fits), omega (arith, grown))
