-- ===== src/Soniox/Client.antt =====
-- src/asr/soniox/client.rs: the handle of the socket thread and the reconnect loop. The channels are
-- lists in order of sending; what the network and the scheduler do comes in as data.
pub mod Connection
pub mod Wire
pub mod Stream
pub mod Flush
pub mod Retry
pub mod Backlog
pub mod Outage
mod Tests
use larmindon_core.Base.{
  ℕ, zero, suc, ◌+◌, ◌-◌, ◌*◌, ◌%◌, ◌^◌, min, Bool, true, false, ◌||◌, Option, none, some, List, [],
  ◌∷◌, ◌++◌, is_empty, ltb, ◌==◌, if◌then◌else◌,
}
use larmindon_core.Text.{Text, codes}
use larmindon_core.Asr.{AsrError, fatal, transient}
use larmindon_core.Soniox.Protocol.{SonioxResponse}

abbrev pub max_queued_samples : ℕ
max_queued_samples = 30 * 16000

abbrev pub max_reconnect_attempts : ℕ
max_reconnect_attempts = 5

-- Milliseconds.
abbrev pub backoff_start : ℕ
backoff_start = 500

abbrev pub backoff_cap : ℕ
backoff_cap = 15000

abbrev usize_max : ℕ
usize_max = 2 ^ 64 - 1

pub data Outbound : Type 0 where
  audio : List ℕ → ℕ → Outbound
  finish shutdown : Outbound

pub data Inbound : Type 0 where
  response : SonioxResponse → Inbound
  reconnecting : Text → Inbound
  finished : Inbound
  fatal_end : Text → Inbound

-- `alive` is whether the socket thread still holds the receiver; `sent` is what went into the channel.
pub record SonioxClient : Type 0 where
  pub sent : List Outbound
  pub alive : Bool
  pub inbound : List Inbound
  pub queued_samples : ℕ
  pub finish_sent : Bool

pub data SendResult : Type 0 where
  sent_ok : SendResult
  send_err : AsrError → SendResult

abbrev empty_frame_message : Text
empty_frame_message =
    codes "Refusing to send an empty Soniox audio frame; that is the end-of-stream signal"

abbrev backlog_message : Text
backlog_message = codes "Soniox upload is backed up past 30s of audio; dropping captured audio"

abbrev ended_message : Text
ended_message = codes "The Soniox connection has ended"

unfoldable pub saturating_add : ℕ → ℕ → ℕ
saturating_add a b = min (a + b) usize_max

-- `fetch_add`, and on a send that fails `fetch_sub` of the same.
unfoldable pub send_audio : List ℕ → ℕ → SonioxClient → SendResult × SonioxClient
unfolding saturating_add
send_audio pcm samples c =
    if is_empty pcm || samples == 0
    then (send_err (transient empty_frame_message), c)
    else (if ltb max_queued_samples (saturating_add c.queued_samples samples)
        then (send_err (transient backlog_message), c)
        else (if c.alive
            then (
              sent_ok,
              record c {
                queued_samples = (c.queued_samples + samples) % 2 ^ 64;
                sent = c.sent ++ (audio pcm samples ∷ []);
              },
            )
            else (send_err (fatal ended_message), c)))

unfoldable pub drain : SonioxClient → List Inbound × SonioxClient
drain c = (c.inbound, record c { inbound = [] })

-- A send on a closed channel is ignored.
abbrev pub push_outbound : Outbound → SonioxClient → SonioxClient
push_outbound o c = if c.alive then record c { sent = c.sent ++ (o ∷ []) } else c

-- The method `finish`.
unfoldable pub finish_stream : SonioxClient → SonioxClient
finish_stream c =
    if c.finish_sent then c else push_outbound finish (record c { finish_sent = true })

-- Why one connection ended.
pub data Outcome : Type 0 where
  outcome_finished outcome_shutdown : Outcome
  outcome_fatal : Text → Outcome
  retry : Text → Bool → Outcome

pub data BackoffOutcome : Type 0 where
  continues backoff_shutdown backoff_finish : BackoffOutcome

-- 0.5, 1, 2, 4, 8 s, capped; `1u32 << k` with k at most 16, and `saturating_mul` far from its end.
unfoldable pub backoff : ℕ → ℕ
backoff attempt = min (backoff_start * 2 ^ min (attempt - 1) 16) backoff_cap

abbrev lost_message : Text → Text
lost_message reason =
    codes "Lost the Soniox connection and could not re-establish it after 5 attempts: " ++ reason

abbrev pub next_attempt : Bool → ℕ → ℕ
next_attempt progressed attempt = (if progressed then 0 else attempt) + 1

abbrev pub responses : List SonioxResponse → List Inbound
responses [] = []
responses (r ∷ rs) = response r ∷ responses rs

-- One connection: the responses that it passes on, its outcome, and that of the wait after it.
abbrev pub Round : Type 0
Round = List SonioxResponse × Outcome × BackoffOutcome

-- The loop of `session`, with the attempt counter: all that it and its connections send to the
-- processing thread. At the end of the list the session is waiting.
unfoldable pub session : List Round → ℕ → List Inbound
session [] attempt = []
session ((rs, outcome_finished, w) ∷ rounds) attempt = responses rs ++ (finished ∷ [])
session ((rs, outcome_shutdown, w) ∷ rounds) attempt = responses rs
session ((rs, outcome_fatal message, w) ∷ rounds) attempt = responses rs ++ (fatal_end message ∷ [])
session ((rs, retry reason progressed, w) ∷ rounds) attempt =
    let attempt' = next_attempt progressed attempt in
    let rest = session rounds attempt' in
    let after =
      if ltb max_reconnect_attempts attempt'
      then fatal_end (lost_message reason) ∷ []
      else reconnecting reason
        ∷ elim w [ continues ↦ rest | backoff_shutdown ↦ [] | backoff_finish ↦ finished ∷ [] ] in
    responses rs ++ after

-- One message taken while waiting: `none` goes on waiting. The ceiling is the sender's.
unfoldable pub wait_message :
    Option Outbound → ℕ → List (List ℕ × ℕ) → Option BackoffOutcome × ℕ × List (List ℕ × ℕ)
wait_message none queued pending = (some backoff_shutdown, queued, pending)
wait_message (some shutdown) queued pending = (some backoff_shutdown, queued, pending)
wait_message (some finish) queued pending = (some backoff_finish, queued, pending)
wait_message (some (audio pcm samples)) queued pending =
    if ltb max_queued_samples queued
    then (none, (queued + 2 ^ 64 - samples) % 2 ^ 64, pending)
    else (none, queued, pending ++ ((pcm, samples) ∷ []))

abbrev pub after_message :
    Option BackoffOutcome × ℕ × List (List ℕ × ℕ)
    → (ℕ → List (List ℕ × ℕ) → BackoffOutcome × ℕ × List (List ℕ × ℕ))
    → BackoffOutcome × ℕ × List (List ℕ × ℕ)
after_message (some outcome, queued, pending) rest = (outcome, queued, pending)
after_message (none, queued, pending) rest = rest queued pending

-- The messages that come in before the deadline, which is the end of the list.
unfoldable pub wait_backoff :
    List (Option Outbound) → ℕ → List (List ℕ × ℕ) → BackoffOutcome × ℕ × List (List ℕ × ℕ)
unfolding wait_message
wait_backoff [] queued pending = (continues, queued, pending)
wait_backoff (m ∷ ms) queued pending =
    after_message (wait_message m queued pending) (wait_backoff ms)
