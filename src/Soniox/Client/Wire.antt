-- ===== src/Soniox/Client/Wire.antt =====
-- src/asr/soniox/client.rs: what a connection writes to the socket, as the service takes it.
use larmindon_core.Base.{
  ℕ, ◌≡◌, refl, sym, ap, ◌∙◌, Bool, true, false, Option, none, some, List, [], ◌∷◌, ◌++◌, is_empty,
  All, if◌then◌else◌, Option-cases, inl, inr, if_false, ◌>>=◌,
}
use larmindon_core.Soniox.Client.{Outbound, audio, finish, shutdown}
use larmindon_core.Soniox.Client.Connection.{
  Frame, binary, ping, close, Conn, Written, Event, outgoing, incoming, ping_tick, watchdog, Next,
  goes_on, ends, write, release, send_frame, send_end, flush_channel, on_outgoing,
}

-- The server's side of the protocol: whether the stream has ended, after one more frame. No audio
-- and no second end may follow the end; an empty binary frame is the end.
abbrev pub receive : Bool → Frame → Option Bool
receive over (binary pcm) = if over then none else some (is_empty pcm)
receive over ping = some over
receive over close = some over

abbrev pub receive_all : Bool → List Frame → Option Bool
receive_all over [] = some over
receive_all over (f ∷ fs) = receive over f >>= λ over'. receive_all over' fs

receive_all-append :
    (over : Bool) (fs gs : List Frame)
    → receive_all over (fs ++ gs) ≡ (receive_all over fs >>= λ over'. receive_all over' gs)
receive_all-append over [] gs = refl
receive_all-append over (f ∷ fs) gs = elim (Option-cases (receive over f)) [
  | inl e ↦ rw e refl
  | inr (over', e) ↦ rw e (receive_all-append over' fs gs)
]

-- Audio in the channel is never empty, which `send_audio` sees to.
abbrev pub HasAudio : Outbound → Type 0
HasAudio (audio pcm samples) = is_empty pcm ≡ false
HasAudio finish = Unit
HasAudio shutdown = Unit

abbrev pub EventHasAudio : Event → Type 0
EventHasAudio (outgoing none w rest eos) = All (λ r. HasAudio r.0) rest
EventHasAudio (outgoing (some o) w rest eos) = HasAudio o × All (λ r. HasAudio r.0) rest
EventHasAudio (incoming i) = Unit
EventHasAudio (ping_tick w) = Unit
EventHasAudio watchdog = Unit

-- The server has taken everything written, and knows of the end as the connection does.
abbrev pub InStep : Conn → Type 0
InStep c = receive_all false c.wire ≡ some c.finishing

abbrev pub Taken : Conn → Type 0
Taken c = (over : Bool) × (receive_all false c.wire ≡ some over)

-- What holds after a step.
abbrev pub Kept : Next → Type 0
Kept (goes_on c) = InStep c
Kept (ends o c) = Taken c

pub if-Kept :
    (b : Bool) (x y : Next) → (b ≡ true → Kept x) → (b ≡ false → Kept y) → Kept (if b then x else y)
if-Kept true x y kept_x kept_y = kept_x refl
if-Kept false x y kept_x kept_y = kept_y refl

pub write-receives :
    (f : Frame) (c : Conn) {over : Bool}
    → InStep c
    → receive c.finishing f ≡ some over
    → receive_all false (write f c).wire ≡ some over
write-receives f c h e =
    receive_all-append false c.wire (f ∷ [])
    ∙ ap (λ o. o >>= λ over'. receive_all over' (f ∷ [])) h
    ∙ ap (λ o. o >>= λ over'. some over') e

pub send_audio-receives :
    (pcm : List ℕ) (samples : ℕ) (c : Conn)
    → is_empty pcm ≡ false
    → c.finishing ≡ false
    → InStep c
    → InStep (write (binary pcm) (release samples c))
unfolding release
send_audio-receives pcm samples c full unfinished h =
    write-receives (binary pcm) c h
      (if_false c.finishing none (some (is_empty pcm)) unfinished ∙ ap some (full ∙ sym unfinished))

send_end-Kept : (eos : Written) (c : Conn) → c.finishing ≡ false → InStep c → Kept (send_end eos c)
unfolding send_end
send_end-Kept none c unfinished h =
    write-receives (binary []) c h (if_false c.finishing none (some true) unfinished)
send_end-Kept (some e) c unfinished h = (c.finishing, h)

send_frame-Kept :
    (pcm : List ℕ) (samples : ℕ) (w : Written) (c : Conn)
    → is_empty pcm ≡ false
    → c.finishing ≡ false
    → InStep c
    → Kept (send_frame pcm samples w c)
unfolding send_frame release
send_frame-Kept pcm samples none c full unfinished h =
    send_audio-receives pcm samples c full unfinished h
send_frame-Kept pcm samples (some e) c full unfinished h = (c.finishing, h)

flush_channel-Kept :
    (rest : List (Outbound × Written)) (eos : Written) (c : Conn)
    → All (λ r. HasAudio r.0) rest
    → c.finishing ≡ false
    → InStep c
    → Kept (flush_channel rest eos c)
unfolding flush_channel release
flush_channel-Kept [] eos c a nf h = send_end-Kept eos c nf h
flush_channel-Kept ((audio pcm samples, none) ∷ rest) eos c a nf h =
    flush_channel-Kept rest eos (write (binary pcm) (release samples c)) a.1 nf
      (send_audio-receives pcm samples c a.0 nf h)
flush_channel-Kept ((audio pcm samples, some e) ∷ rest) eos c a nf h = (c.finishing, h)
flush_channel-Kept ((finish, w) ∷ rest) eos c a nf h = flush_channel-Kept rest eos c a.1 nf h
flush_channel-Kept ((shutdown, w) ∷ rest) eos c a nf h =
    (c.finishing, write-receives close c h refl)

pub on_outgoing-Kept :
    (o : Option Outbound) (w : Written) (rest : List (Outbound × Written)) (eos : Written)
    (c : Conn)
    → EventHasAudio (outgoing o w rest eos)
    → InStep c
    → Kept (on_outgoing o w rest eos c)
unfolding on_outgoing send_frame release
on_outgoing-Kept none w rest eos c a h = (c.finishing, h)
on_outgoing-Kept (some shutdown) w rest eos c a h = (c.finishing, write-receives close c h refl)
on_outgoing-Kept (some finish) w rest eos c a h =
    if-Kept c.finishing (goes_on c) (flush_channel rest eos c) (λ e. h)
      (λ e. flush_channel-Kept rest eos c a.1 e h)
on_outgoing-Kept (some (audio pcm samples)) w rest eos c a h =
    if-Kept c.finishing (goes_on (release samples c)) (send_frame pcm samples w c) (λ e. h)
      (λ e. send_frame-Kept pcm samples w c a.0 e h)
