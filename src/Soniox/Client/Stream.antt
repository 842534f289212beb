-- ===== src/Soniox/Client/Stream.antt =====
-- src/asr/soniox/client.rs: a whole connection against the service's side of the protocol.
use larmindon_core.Base.{
  ℕ, ◌≡◌, refl, sym, Bool, true, false, Option, none, some, List, [], ◌∷◌, ◌++◌, subst, is_empty,
  All, Bool-cases, inl, inr, if_true, if_false,
}
use larmindon_core.Text.{Text}
use larmindon_core.Soniox.Protocol.{SonioxResponse, SonioxError, error}
use larmindon_core.Soniox.Client.{response, outcome_finished, retry}
use larmindon_core.Soniox.Client.Connection.{
  binary, ping, close, Conn, Incoming, stream_end, socket_error, text_response, unparseable,
  binary_frame, close_frame, other_frame, Written, Event, outgoing, incoming, ping_tick, watchdog,
  Next, goes_on, ends, write, release, received, closed_by, on_response, on_text, on_incoming, step,
  conn_of, fresh_conn, Opening, timed_out, opened, unreachable, unserialized, unstarted,
  send_pending, connect, connect_and_run, and_then, run,
}
use larmindon_core.Soniox.Client.Wire.{
  EventHasAudio, receive_all, InStep, Taken, Kept, if-Kept, write-receives, send_audio-receives,
  on_outgoing-Kept,
}

closed_by-Kept : (reason : Text) (c : Conn) → InStep c → Kept (closed_by reason c)
closed_by-Kept reason c h =
    if-Kept c.finishing (ends outcome_finished c) (ends (retry reason c.progressed) c)
      (λ e. (c.finishing, h)) (λ e. (c.finishing, h))

received-InStep : (r : SonioxResponse) (c : Conn) → InStep c → InStep (received r c)
received-InStep r c h = elim (Bool-cases (is_empty r.tokens)) [
  | inl e ↦ subst InStep (sym (if_true (is_empty r.tokens) c _ e)) h
  | inr e ↦
      subst InStep
        (sym (if_false (is_empty r.tokens) c (record c { inbox = c.inbox ++ (response r ∷ []) }) e))
        h
]

on_response-Kept : (r : SonioxResponse) (c : Conn) → InStep c → Kept (on_response r c)
unfolding on_response
on_response-Kept r c h =
    let c' = received r c in
    let h' = received-InStep r c h in
    if-Kept r.finished (ends outcome_finished (write close c')) (goes_on c')
      (λ e. (c'.finishing, write-receives close c' h' refl)) (λ e. h')

on_text-Kept :
    (e : Option SonioxError) (r : SonioxResponse) (c : Conn) → InStep c → Kept (on_text e r c)
unfolding on_text
on_text-Kept none r c h = on_response-Kept r c h
on_text-Kept (some e) r c h = (c.finishing, h)

on_incoming-Kept : (i : Incoming) (c : Conn) → InStep c → Kept (on_incoming i c)
unfolding on_incoming
on_incoming-Kept stream_end c h = closed_by-Kept _ c h
on_incoming-Kept (socket_error e) c h = closed_by-Kept _ c h
on_incoming-Kept (text_response r) c h = on_text-Kept (error r) r (record c { progressed = true }) h
on_incoming-Kept unparseable c h = h
on_incoming-Kept binary_frame c h = (c.finishing, h)
on_incoming-Kept close_frame c h = closed_by-Kept _ c h
on_incoming-Kept other_frame c h = h

step-Kept : (e : Event) (c : Conn) → EventHasAudio e → InStep c → Kept (step e c)
unfolding step
step-Kept (outgoing o w rest eos) c a h = on_outgoing-Kept o w rest eos c a h
step-Kept (incoming i) c a h = on_incoming-Kept i c h
step-Kept (ping_tick none) c a h = write-receives ping c h refl
step-Kept (ping_tick (some e)) c a h = (c.finishing, h)
step-Kept watchdog c a h =
    if-Kept c.watchdog_armed (ends outcome_finished (write close c)) (goes_on c)
      (λ e. (c.finishing, write-receives close c h refl)) (λ e. h)

and_then-Kept :
    (n : Next) (f : Conn → Next)
    → Kept n
    → ((c : Conn) → InStep c → Kept (f c))
    → Kept (and_then n f)
and_then-Kept (goes_on c) f h kept = kept c h
and_then-Kept (ends o c) f h kept = h

run-Kept : (es : List Event) (c : Conn) → All EventHasAudio es → InStep c → Kept (run es c)
unfolding run
run-Kept [] c a h = h
run-Kept (e ∷ es) c a h =
    and_then-Kept (step e c) (run es) (step-Kept e c a.0 h) (λ c' h'. run-Kept es c' a.1 h')

Kept-Taken : (n : Next) → Kept n → Taken (conn_of n)
Kept-Taken (goes_on c) h = (c.finishing, h)
Kept-Taken (ends o c) h = h

-- A frame that waited over an outage has audio.
abbrev pub WaitsWithAudio : List ((List ℕ × ℕ) × Written) → Type 0
WaitsWithAudio = All (λ f. is_empty f.0.0 ≡ false)

send_pending-Kept :
    (pending : List ((List ℕ × ℕ) × Written)) (c : Conn)
    → WaitsWithAudio pending
    → c.finishing ≡ false
    → InStep c
    → Kept (send_pending pending c).0
unfolding send_pending release
send_pending-Kept [] c a unfinished h = h
send_pending-Kept (((pcm, samples), none) ∷ rest) c a unfinished h =
    send_pending-Kept rest (write (binary pcm) (release samples c)) a.1 unfinished
      (send_audio-receives pcm samples c a.0 unfinished h)
send_pending-Kept (((pcm, samples), some e) ∷ rest) c a unfinished h = (c.finishing, h)

connect-Kept :
    (o : Opening) (pending : List ((List ℕ × ℕ) × Written)) (queued : ℕ)
    → WaitsWithAudio pending
    → Kept (connect o pending queued).0
unfolding connect
connect-Kept timed_out pending queued a = (false, refl)
connect-Kept (unreachable e) pending queued a = (false, refl)
connect-Kept (unserialized e) pending queued a = (false, refl)
connect-Kept (unstarted e) pending queued a = (false, refl)
connect-Kept opened pending queued a = send_pending-Kept pending (fresh_conn queued) a refl refl

-- Whatever the service, the network and the engine do, and in whatever order, a connection that is
-- given no empty audio frame, from the channel or from those that waited over an outage, ends its
-- stream at most once and writes no audio after the end: the server takes every frame written, and
-- while the connection goes on the stream is over exactly when the connection is finishing.
pub connect_and_run-receives :
    (o : Opening) (pending : List ((List ℕ × ℕ) × Written)) (queued : ℕ) (es : List Event)
    → WaitsWithAudio pending
    → All EventHasAudio es
    → ((over : Bool) × (receive_all false (conn_of (connect_and_run o pending queued es)).wire
          ≡ some over))
      × ((c : Conn)
          → connect_and_run o pending queued es ≡ goes_on c
          → receive_all false c.wire ≡ some c.finishing)
unfolding connect_and_run
connect_and_run-receives o pending queued es waiting a =
    let result = and_then (connect o pending queued).0 (run es) in
    let kept =
      and_then-Kept (connect o pending queued).0 (run es) (connect-Kept o pending queued waiting)
        (λ c h. run-Kept es c a h) in
    (Kept-Taken result kept, λ c e. subst Kept e kept)
