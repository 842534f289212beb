-- ===== src/Soniox/Client/Flush.antt =====
-- src/asr/soniox/client.rs: what `finish` sends before it ends the stream.
use larmindon_core.Base.{
  ℕ, ◌+◌, ◌-◌, ◌≡◌, ap, ap₂, ◌∙◌, true, false, none, some, List, [], ◌∷◌, ◌++◌, append_assoc, arith,
  if_false,
}
use larmindon_core.Soniox.Client.{Outbound, audio, finish}
use larmindon_core.Soniox.Client.Connection.{
  Frame, binary, Conn, Written, outgoing, goes_on, write, release, send_end, flush_channel,
  on_outgoing, step,
}

-- The frames of audio in the channel, as written one by one without an error.
abbrev pub all_written : List (List ℕ × ℕ) → List (Outbound × Written)
all_written [] = []
all_written ((pcm, samples) ∷ rest) = (audio pcm samples, none) ∷ all_written rest

abbrev pub all_frames : List (List ℕ × ℕ) → List Frame
all_frames [] = []
all_frames ((pcm, samples) ∷ rest) = binary pcm ∷ all_frames rest

abbrev pub total_samples : List (List ℕ × ℕ) → ℕ
total_samples [] = 0
total_samples ((pcm, samples) ∷ rest) = samples + total_samples rest

abbrev flushed : List Frame → ℕ → Conn → Conn
flushed wire queued c = record c {
  wire = wire;
  queued = queued;
  finishing = true;
  watchdog_armed = true;
}

flush_channel-all :
    (frames : List (List ℕ × ℕ)) (c : Conn)
    → flush_channel (all_written frames) none c
      ≡ goes_on (
          flushed
            (c.wire ++ (all_frames frames ++ (binary [] ∷ [])))
            (c.queued - total_samples frames)
            c)
unfolding flush_channel send_end release
flush_channel-all [] c = ap (λ q. goes_on (flushed (c.wire ++ (binary [] ∷ [])) q c)) (omega arith)
flush_channel-all ((pcm, samples) ∷ rest) c =
    flush_channel-all rest (write (binary pcm) (release samples c))
    ∙ ap₂ (λ wire q. goes_on (flushed wire q c))
        (append_assoc c.wire (binary pcm ∷ []) (all_frames rest ++ (binary [] ∷ []))) (omega arith)

-- A stop loses no audio: when `finish` arrives with frames still in the channel and the writes
-- succeed, all of them go out in order before the end of the stream, the backlog goes down by their
-- samples, and the connection waits for the service with its watchdog armed.
pub finish-flushes :
    (frames : List (List ℕ × ℕ)) (w : Written) (c : Conn)
    → c.finishing ≡ false
    → step (outgoing (some finish) w (all_written frames) none) c
      ≡ goes_on (record c {
        wire = c.wire ++ (all_frames frames ++ (binary [] ∷ []));
        queued = c.queued - total_samples frames;
        finishing = true;
        watchdog_armed = true;
      })
unfolding step on_outgoing
finish-flushes frames w c unfinished =
    if_false c.finishing (goes_on c) (flush_channel (all_written frames) none c) unfinished
    ∙ flush_channel-all frames c
