-- ===== src/Soniox/Backend/Lifecycle.antt =====
-- src/asr/soniox/backend.rs: `begin_session` and `end_session`.
use larmindon_core.Base.{ℕ, Bool, Option, none, some, List, [], ◌∷◌, is_empty, if◌then◌else◌, ◌>>=◌}
use larmindon_core.Asr.{TranscriptUpdate, AsrError}
use larmindon_core.Soniox.Accumulator.{State}
use larmindon_core.Soniox.Accumulator.Volatile.{ingest, finish, reset}
use larmindon_core.Soniox.Client.{
  SonioxClient, Inbound, response, reconnecting, finished, fatal_end, send_audio, finish_stream,
}
use larmindon_core.Soniox.Backend.{SonioxBackend, new}

-- The messages that `end_session` takes in before the end of stream, a fatal one or its deadline,
-- which is the end of the list.
unfoldable pub fold_tail : (ℕ → Bool) → List Inbound → State → Option State
fold_tail alphabetic [] s = some s
fold_tail alphabetic (response r ∷ ms) s = ingest alphabetic r s >>= fold_tail alphabetic ms
fold_tail alphabetic (reconnecting reason ∷ ms) s = fold_tail alphabetic ms (reset (finish s))
fold_tail alphabetic (finished ∷ ms) s = some s
fold_tail alphabetic (fatal_end message ∷ ms) s = some s

-- The last frame and `finish` go to the client, which is then dropped; `late` is what it answers.
unfoldable pub close_client : SonioxBackend → SonioxClient → SonioxClient
unfolding send_audio finish_stream
close_client self c =
    let (sent, c') = send_audio self.staged self.staged_samples c in
    finish_stream (if is_empty self.staged then c else c')

-- What `end_session` leaves, the accumulator reset.
abbrev pub ended : State → SonioxBackend → SonioxBackend
ended s self = record self {
  client = none;
  accumulator = s.acc;
  staged = [];
  staged_samples = if is_empty self.staged then self.staged_samples else 0;
  last_speech_at = none;
  pending_transient = none;
  pending_fatal = none;
}

-- The second result is the client as it is dropped, if there was one.
unfoldable pub end_session :
    (ℕ → Bool)
    → List Inbound
    → ℕ
    → SonioxBackend
    → Option (List TranscriptUpdate × Option SonioxClient × ℕ × SonioxBackend)
unfolding fold_tail close_client
end_session alphabetic late ids self =
    let s : State = record { acc = self.accumulator; ids = ids; out = [] } in
    let s' : State = finish s in
    elim self.client [
      | none ↦ some (s'.out, none, s'.ids, record self { accumulator = s'.acc })
      | some c ↦ fold_tail alphabetic late s >>= λ t. some (
        (finish t).out,
        some (close_client self c),
        (finish t).ids,
        ended (reset (finish t)) self,
      )
    ]

-- `connect` gives a client or an error.
pub data Connected : Type 0 where
  connected : SonioxClient → Connected
  refused : AsrError → Connected

unfoldable pub begin_session : Connected → SonioxBackend → Option AsrError × SonioxBackend
unfolding new
begin_session c self =
    let cleared : SonioxBackend = record new { client = self.client } in
    elim c [
      | connected client ↦ (none, record cleared { client = some client })
      | refused e ↦ (some e, cleared)
    ]
