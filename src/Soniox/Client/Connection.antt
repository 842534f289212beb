-- ===== src/Soniox/Client/Connection.antt =====
-- src/asr/soniox/client.rs, `connect_and_run`: its opening, and one
-- round of its `select!` for each event. How a write ends is part of the event: `none` is a success
-- and `some e` an error of that text.
use larmindon_core.Base.{
  ℕ, ◌-◌, min, Bool, true, false, Option, none, some, List, [], ◌∷◌, ◌++◌, is_empty, if◌then◌else◌,
}
use larmindon_core.Text.{Text, codes}
use larmindon_core.Soniox.Protocol.{SonioxResponse, SonioxError, error}
use larmindon_core.Soniox.Client.{
  Outbound, audio, finish, shutdown, Inbound, response, Outcome, outcome_finished, outcome_shutdown,
  outcome_fatal, retry,
}

-- What is written to the socket. The empty binary frame is the end of the stream.
pub data Frame : Type 0 where
  binary : List ℕ → Frame
  ping close : Frame

pub record Conn : Type 0 where
  pub wire : List Frame
  pub queued : ℕ
  pub progressed : Bool
  pub finishing : Bool
  pub watchdog_armed : Bool
  pub inbox : List Inbound

pub data Incoming : Type 0 where
  stream_end : Incoming
  socket_error : Text → Incoming
  text_response : SonioxResponse → Incoming
  unparseable binary_frame close_frame other_frame : Incoming

-- How a write ends.
abbrev pub Written : Type 0
Written = Option Text

-- `outgoing` has how its own write ends, what `try_recv` then finds in the channel, each with how its
-- write ends, and how that of the end of the stream does; the last two matter to `finish` alone.
pub data Event : Type 0 where
  outgoing : Option Outbound → Written → List (Outbound × Written) → Written → Event
  incoming : Incoming → Event
  ping_tick : Written → Event
  watchdog : Event

pub data Next : Type 0 where
  goes_on : Conn → Next
  ends : Outcome → Conn → Next

abbrev upload_failed : Text → Text
upload_failed e = codes "Soniox audio upload failed: " ++ e

abbrev pub write : Frame → Conn → Conn
write f c = record c { wire = c.wire ++ (f ∷ []) }

-- The backlog goes down whether or not the write succeeds.
unfoldable pub release : ℕ → Conn → Conn
release samples c = record c { queued = c.queued - min samples c.queued }

-- `send_frame`, and the return on its error.
unfoldable pub send_frame : List ℕ → ℕ → Written → Conn → Next
unfolding release
send_frame pcm samples none c = goes_on (write (binary pcm) (release samples c))
send_frame pcm samples (some e) c = ends (retry (upload_failed e) c.progressed) (release samples c)

abbrev pub finishes : Conn → Conn
finishes c = record c { finishing = true; watchdog_armed = true }

-- The end-of-stream frame, and what arms the watchdog.
unfoldable pub send_end : Written → Conn → Next
send_end none c = goes_on (finishes (write (binary []) c))
send_end (some e) c = ends outcome_finished c

-- `finish` empties the channel before it ends the stream.
unfoldable pub flush_channel : List (Outbound × Written) → Written → Conn → Next
unfolding send_end release
flush_channel [] eos c = send_end eos c
flush_channel ((audio pcm samples, none) ∷ rest) eos c =
    flush_channel rest eos (write (binary pcm) (release samples c))
flush_channel ((audio pcm samples, some e) ∷ rest) eos c =
    ends (retry (upload_failed e) c.progressed) (release samples c)
flush_channel ((finish, w) ∷ rest) eos c = flush_channel rest eos c
flush_channel ((shutdown, w) ∷ rest) eos c = ends outcome_shutdown (write close c)

unfoldable pub on_outgoing :
    Option Outbound → Written → List (Outbound × Written) → Written → Conn → Next
unfolding flush_channel send_frame
on_outgoing none w rest eos c = ends outcome_shutdown c
on_outgoing (some shutdown) w rest eos c = ends outcome_shutdown (write close c)
on_outgoing (some finish) w rest eos c = if c.finishing then goes_on c else flush_channel rest eos c
on_outgoing (some (audio pcm samples)) w rest eos c =
    if c.finishing then goes_on (release samples c) else send_frame pcm samples w c

abbrev pub closed_by : Text → Conn → Next
closed_by reason c =
    if c.finishing then ends outcome_finished c else ends (retry reason c.progressed) c

abbrev error_outcome : SonioxError → Bool → Outcome
error_outcome e progressed =
    let reason : Text = e.message ++ codes " (" ++ e.error_type ++ codes ")" in
    if e.retryable
    then retry reason progressed
    else outcome_fatal (codes "Soniox rejected the session: " ++ reason)

-- The connection with a response passed on, if it has tokens.
abbrev pub received : SonioxResponse → Conn → Conn
received r c = if is_empty r.tokens then c else record c { inbox = c.inbox ++ (response r ∷ []) }

-- A response without an error: passed on if it has tokens, and the last if it says so.
unfoldable pub on_response : SonioxResponse → Conn → Next
on_response r c =
    if r.finished
    then ends outcome_finished (write close (received r c))
    else goes_on (received r c)

unfoldable pub on_text : Option SonioxError → SonioxResponse → Conn → Next
unfolding on_response
on_text none r c = on_response r c
on_text (some e) r c = ends (error_outcome e c.progressed) c

unfoldable pub on_incoming : Incoming → Conn → Next
unfolding on_text
on_incoming stream_end c = closed_by (codes "Soniox closed the connection") c
on_incoming (socket_error e) c = closed_by (codes "the Soniox connection dropped: " ++ e) c
on_incoming (text_response r) c = on_text (error r) r (record c { progressed = true })
on_incoming unparseable c = goes_on c
on_incoming binary_frame c =
    ends (outcome_fatal (codes "Soniox sent a binary frame, which its protocol never uses")) c
on_incoming close_frame c = closed_by (codes "Soniox closed the connection") c
on_incoming other_frame c = goes_on c

unfoldable pub step : Event → Conn → Next
unfolding on_outgoing on_incoming
step (outgoing o w rest eos) c = on_outgoing o w rest eos c
step (incoming i) c = on_incoming i c
step (ping_tick none) c = goes_on (write ping c)
step (ping_tick (some e)) c =
    ends (retry (codes "the Soniox keepalive failed: " ++ e) c.progressed) c
step watchdog c = if c.watchdog_armed then ends outcome_finished (write close c) else goes_on c

abbrev pub conn_of : Next → Conn
conn_of (goes_on c) = c
conn_of (ends o c) = c

abbrev pub and_then : Next → (Conn → Next) → Next
and_then (goes_on c) f = f c
and_then (ends o c) f = ends o c

unfoldable pub run : List Event → Conn → Next
run [] c = goes_on c
run (e ∷ es) c = and_then (step e c) (run es)

-- How far the opening of a connection gets.
pub data Opening : Type 0 where
  timed_out opened : Opening
  unreachable unserialized unstarted : Text → Opening

-- A connection whose start request has been sent.
abbrev pub fresh_conn : ℕ → Conn
fresh_conn queued = record {
  wire = [];
  queued = queued;
  progressed = false;
  finishing = false;
  watchdog_armed = false;
  inbox = [];
}

abbrev all_waiting : List ((List ℕ × ℕ) × Written) → List (List ℕ × ℕ)
all_waiting [] = []
all_waiting ((frame, w) ∷ rest) = frame ∷ all_waiting rest

-- The frames that waited over the outage, each with how its write ends, and those that still wait.
unfoldable pub send_pending : List ((List ℕ × ℕ) × Written) → Conn → Next × List (List ℕ × ℕ)
unfolding release
send_pending [] c = (goes_on c, [])
send_pending (((pcm, samples), none) ∷ rest) c =
    send_pending rest (write (binary pcm) (release samples c))
send_pending (((pcm, samples), some e) ∷ rest) c =
    (ends (retry (upload_failed e) false) (release samples c), all_waiting rest)

-- `connect_and_run` up to its loop.
unfoldable pub connect : Opening → List ((List ℕ × ℕ) × Written) → ℕ → Next × List (List ℕ × ℕ)
unfolding send_pending
connect timed_out pending queued = (
  ends (retry (codes "the connection to Soniox timed out") false) (fresh_conn queued),
  all_waiting pending,
)
connect (unreachable e) pending queued = (
  ends (retry (codes "could not reach Soniox: " ++ e) false) (fresh_conn queued),
  all_waiting pending,
)
connect (unserialized e) pending queued = (
  ends (outcome_fatal (codes "Could not build the Soniox start request: " ++ e))
      (fresh_conn queued),
  all_waiting pending,
)
connect (unstarted e) pending queued = (
  ends (retry (codes "could not start a Soniox session: " ++ e) false) (fresh_conn queued),
  all_waiting pending,
)
connect opened pending queued = send_pending pending (fresh_conn queued)

-- One connection, from its opening on, over the events that it lives to see.
unfoldable pub connect_and_run : Opening → List ((List ℕ × ℕ) × Written) → ℕ → List Event → Next
unfolding connect run
connect_and_run o pending queued es = and_then (connect o pending queued).0 (run es)
