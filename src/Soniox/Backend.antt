-- ===== src/Soniox/Backend.antt =====
-- src/asr/soniox/backend.rs: the adapter between the pipeline and the socket. A sample is any type and
-- `s16` its two bytes in `f32_to_pcm_s16le`; `now` is the clock, in milliseconds; the messages that
-- the socket thread has sent come in as data. `Option` is a panic of the accumulator.
pub mod Folding
pub mod Lifecycle
pub mod Hints
pub mod Staging
pub mod Pcm
use larmindon_core.Base.{
  ℕ, zero, suc, ◌+◌, Bool, true, false, Option, none, some, List, [], ◌∷◌, ◌++◌, is_empty, length,
  any, if◌then◌else◌, ◌==◌, ◌>>=◌,
}
use larmindon_core.Text.{Text, codes, trim, is_blank}
use larmindon_core.Asr.{
  TranscriptUpdate, AsrError, fatal, transient, AsrCapabilities, continuous, backend,
}
use larmindon_core.Soniox.Protocol.{SonioxResponse}
use larmindon_core.Soniox.Accumulator
use larmindon_core.Soniox.Accumulator.{Accumulator, State, is_speech_token}
use larmindon_core.Soniox.Accumulator.Volatile.{ingest, finish, reset}
use larmindon_core.Soniox.Client.{
  SonioxClient, Inbound, response, reconnecting, finished, fatal_end, SendResult, sent_ok, send_err,
  send_audio, drain, finish_stream,
}

-- Milliseconds.
abbrev pub speech_hold : ℕ
speech_hold = 1500

pub record SonioxBackend : Type 0 where
  pub client : Option SonioxClient
  pub accumulator : Accumulator
  pub staged : List ℕ
  pub staged_samples : ℕ
  pub last_speech_at : Option ℕ
  pub frames_sent : ℕ
  pub pending_transient : Option Text
  pub pending_fatal : Option Text

unfoldable pub new : SonioxBackend
new = record {
  client = none;
  accumulator = Accumulator.new;
  staged = [];
  staged_samples = 0;
  last_speech_at = none;
  frames_sent = 0;
  pending_transient = none;
  pending_fatal = none;
}

unfoldable pub capabilities : AsrCapabilities
capabilities = record {
  revises_output = true;
  diarization = true;
  audio_gating = continuous;
  activity_source = backend speech_hold;
}

-- A backend at work: the shared id counter, and the updates of the call so far.
pub record Working : Type 0 where
  pub self : SonioxBackend
  pub ids : ℕ
  pub updates : List TranscriptUpdate

-- What the accumulator works on, and the backend with what it leaves.
abbrev pub state_of : Working → State
state_of w = record { acc = w.self.accumulator; ids = w.ids; out = w.updates }

abbrev pub put_state : State → Working → Working
put_state s w = record {
  self = record w.self { accumulator = s.acc };
  ids = s.ids;
  updates = s.out;
}

abbrev pub reconnecting_message : Text → Text
reconnecting_message reason = codes "Reconnecting to Soniox: " ++ reason

-- The mark of `last_speech_at`.
abbrev pub mark_speech : ℕ → SonioxResponse → Working → Working
mark_speech now r w =
    if any is_speech_token r.tokens
    then record w { self = record w.self { last_speech_at = some now } }
    else w

abbrev pub finish_and_reset : Working → Working
finish_and_reset w = put_state (reset (finish (state_of w))) w

module _ (alphabetic : ℕ → Bool) (now : ℕ) where
  unfoldable pub fold_message : Inbound → Working → Option Working
  fold_message (response r) w = do
    s ← ingest alphabetic r (state_of (mark_speech now r w))
    some (put_state s (mark_speech now r w))
  fold_message (reconnecting reason) w =
      let w' = finish_and_reset w in
      some (record w' {
        self = record w'.self { pending_transient = some (reconnecting_message reason) };
      })
  fold_message finished w = some w
  fold_message (fatal_end message) w =
      let w' = finish_and_reset w in
      some (record w' { self = record w'.self { pending_fatal = some message } })

  unfoldable pub fold : List Inbound → Working → Option Working
  unfolding fold_message
  fold [] w = some w
  fold (m ∷ ms) w = fold_message m w >>= fold ms

  unfoldable pub drain_inbound : ℕ → SonioxBackend → Option Working
  unfolding fold drain
  drain_inbound ids self = elim self.client [
    | none ↦ some (record { self = self; ids = ids; updates = [] })
    | some c ↦
        let (messages, c') = drain c in
        fold messages (record { self = record self { client = some c' }; ids = ids; updates = [] })
  ]

-- `Result<Vec<TranscriptUpdate>, AsrError>`.
pub data Delivered : Type 0 where
  ok : List TranscriptUpdate → Delivered
  err : AsrError → Delivered

-- `take()` of the owed statuses, the fatal one first.
unfoldable pub owed :
    Option Text → Option Text → Option AsrError → SonioxBackend → Delivered × SonioxBackend
owed (some message) t fallback self = (err (fatal message), record self { pending_fatal = none })
owed none (some message) fallback self =
    (err (transient message), record self { pending_transient = none })
owed none none (some e) self = (err e, self)
owed none none none self = (ok [], self)

unfoldable pub deliver :
    List TranscriptUpdate → Option AsrError → SonioxBackend → Delivered × SonioxBackend
unfolding owed
deliver [] fallback self = owed self.pending_fatal self.pending_transient fallback self
deliver (u ∷ us) fallback self = (ok (u ∷ us), self)

-- `poll` and `results`.
unfoldable pub poll : (ℕ → Bool) → ℕ → ℕ → SonioxBackend → Option (Delivered × ℕ × SonioxBackend)
unfolding drain_inbound deliver
poll alphabetic now ids self = do
  w ← drain_inbound alphabetic now ids self
  let (d, self') = deliver w.updates none w.self in some (d, w.ids, self')

unfoldable pub pcm_bytes {ℓ} : {A : Type ℓ} → (A → ℕ × ℕ) → List A → List ℕ
pcm_bytes s16 [] = []
pcm_bytes s16 (x ∷ xs) = let (low, high) = s16 x in low ∷ high ∷ pcm_bytes s16 xs

unfoldable pub push_audio {ℓ} : {A : Type ℓ} → (A → ℕ × ℕ) → List A → SonioxBackend → SonioxBackend
unfolding pcm_bytes
push_audio s16 samples self = record self {
  staged = self.staged ++ pcm_bytes s16 samples;
  staged_samples = self.staged_samples + length samples;
}

abbrev take_staged : SonioxClient → SonioxBackend → SonioxBackend
take_staged c self = record self { staged = []; staged_samples = 0; client = some c }

-- The three arms after `send_audio`; what was staged is gone in each.
abbrev pub after_send : SendResult × SonioxClient → SonioxBackend → Option AsrError × SonioxBackend
after_send (sent_ok, c) self =
    (none, record (take_staged c self) { frames_sent = self.frames_sent + 1 })
after_send (send_err e, c) self = (some e, take_staged c self)

-- `process` up to the drain: the send error, if there is one, or the early return.
unfoldable pub send_staged : SonioxBackend → Option AsrError × SonioxBackend
unfolding send_audio
send_staged self = elim self.client [
  | none ↦ (
    some (fatal (codes "The Soniox session is not open")),
    record self { staged = []; staged_samples = 0 },
  )
  | some c ↦ after_send (send_audio self.staged self.staged_samples c) self
]

abbrev drain_and_deliver :
    (ℕ → Bool) → ℕ → ℕ → Option AsrError → SonioxBackend → Option (Delivered × ℕ × SonioxBackend)
drain_and_deliver alphabetic now ids e self = do
  w ← drain_inbound alphabetic now ids self
  let (d, self') = deliver w.updates e w.self in some (d, w.ids, self')

-- With audio staged and no session open, it returns before the drain.
unfoldable pub process : (ℕ → Bool) → ℕ → ℕ → SonioxBackend → Option (Delivered × ℕ × SonioxBackend)
unfolding send_staged drain_inbound deliver
process alphabetic now ids self =
    let idle = drain_and_deliver alphabetic now ids none self in
    let (e, self') = send_staged self in
    let sent = drain_and_deliver alphabetic now ids e self' in
    if is_empty self.staged then idle else elim self.client [
      | none ↦ some (err (fatal (codes "The Soniox session is not open")), ids, self')
      | some c ↦ sent
    ]
