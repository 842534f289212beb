-- ===== src/Soniox/Client/Backlog.antt =====
-- src/asr/soniox/client.rs: what the handle puts into the channel, over any sequence of its calls.
use larmindon_core.Base.{
  ℕ, ◌+◌, ◌-◌, min, ◌≤◌, ◌≡◌, refl, Bool, true, false, ◌||◌, none, some, List, [], ◌∷◌, ◌++◌, arith,
  is_empty, All, All-append, ltb, ◌==◌, if◌then◌else◌, if_holds, if_false,
}
use larmindon_core.Soniox.Client.{
  SonioxClient, Outbound, audio, finish, shutdown, max_queued_samples, saturating_add, send_audio,
  SendResult, finish_stream, drain, wait_message,
}
use larmindon_core.Soniox.Client.Wire.{HasAudio}

-- A call of the handle, or the socket thread's release of samples from the counter they share.
pub data ClientCall : Type 0 where
  sends : List ℕ → ℕ → ClientCall
  finishes drains : ClientCall
  releases : ℕ → ClientCall

unfoldable pub call : ClientCall → SonioxClient → SonioxClient
unfolding send_audio finish_stream drain
call (sends pcm samples) c = (send_audio pcm samples c).1
call finishes c = finish_stream c
call drains c = (drain c).1
call (releases samples) c = record c {
  queued_samples = c.queued_samples - min samples c.queued_samples;
}

unfoldable pub calls : List ClientCall → SonioxClient → SonioxClient
unfolding call
calls [] c = c
calls (k ∷ ks) c = calls ks (call k c)

abbrev pub count_finishes : List Outbound → ℕ
count_finishes [] = 0
count_finishes (finish ∷ os) = count_finishes os + 1
count_finishes (audio pcm samples ∷ os) = count_finishes os
count_finishes (shutdown ∷ os) = count_finishes os

count_finishes-append :
    (os ps : List Outbound) → count_finishes (os ++ ps) ≡ count_finishes os + count_finishes ps
count_finishes-append [] ps = omega arith
count_finishes-append (finish ∷ os) ps = omega (arith, count_finishes-append os ps)
count_finishes-append (audio pcm samples ∷ os) ps = omega (arith, count_finishes-append os ps)
count_finishes-append (shutdown ∷ os) ps = omega (arith, count_finishes-append os ps)

pub record IsSound (c : SonioxClient) : Type 0 where
  pub has_audio : All HasAudio c.sent
  pub room : c.queued_samples ≤ max_queued_samples
  pub once : count_finishes c.sent ≤ (if c.finish_sent then 1 else 0)

or_false : (a b : Bool) → (a || b) ≡ false → a ≡ false
or_false true b h = h
or_false false b h = refl

send_audio-IsSound :
    (pcm : List ℕ) (samples : ℕ) (c : SonioxClient)
    → IsSound c
    → IsSound (send_audio pcm samples c).1
unfolding send_audio saturating_add
send_audio-IsSound pcm samples c s =
    if_holds (λ (r : SendResult × SonioxClient). IsSound r.1) (is_empty pcm || samples == 0) _ _
      (λ _. s)
      (λ full.
        if_holds (λ (r : SendResult × SonioxClient). IsSound r.1)
          (ltb max_queued_samples (saturating_add c.queued_samples samples)) _ _ (λ _. s)
          (λ fits.
            if_holds (λ (r : SendResult × SonioxClient). IsSound r.1) c.alive _ _
              (λ _. record {
                has_audio =
                    All-append HasAudio c.sent (audio pcm samples ∷ []) s.has_audio
                      (or_false (is_empty pcm) (samples == 0) full, tt);
                room = ground (arith, fits, s.room);
                once = omega (arith, count_finishes-append c.sent (audio pcm samples ∷ []), s.once);
              })
              (λ _. s)))

finish_stream-IsSound : (c : SonioxClient) → IsSound c → IsSound (finish_stream c)
unfolding finish_stream
finish_stream-IsSound c s =
    if_holds IsSound c.finish_sent _ _ (λ _. s)
      (λ e.
        let none_yet : (count_finishes c.sent ≤ 0) = ground (arith, s.once, e) in
        if_holds IsSound c.alive _ _
          (λ _. record {
            has_audio = All-append HasAudio c.sent (finish ∷ []) s.has_audio (tt, tt);
            room = s.room;
            once = omega (arith, count_finishes-append c.sent (finish ∷ []), none_yet);
          })
          (λ _. record { has_audio = s.has_audio; room = s.room; once = omega (arith, none_yet) }))

call-IsSound : (k : ClientCall) (c : SonioxClient) → IsSound c → IsSound (call k c)
unfolding call drain
call-IsSound (sends pcm samples) c s = send_audio-IsSound pcm samples c s
call-IsSound finishes c s = finish_stream-IsSound c s
call-IsSound drains c s = record { has_audio = s.has_audio; room = s.room; once = s.once }
call-IsSound (releases samples) c s = record {
  has_audio = s.has_audio;
  room = omega (arith, s.room);
  once = s.once;
}

calls-IsSound : (ks : List ClientCall) (c : SonioxClient) → IsSound c → IsSound (calls ks c)
unfolding calls
calls-IsSound [] c s = s
calls-IsSound (k ∷ ks) c s = calls-IsSound ks (call k c) (call-IsSound k c s)

-- A client just connected, whose thread lives or not.
abbrev pub connected : Bool → SonioxClient
connected alive = record {
  sent = [];
  alive = alive;
  inbound = [];
  queued_samples = 0;
  finish_sent = false;
}

-- Whatever is called, and however the socket thread releases samples in between, the channel has no
-- empty audio frame and at most one `finish`, and the backlog stays within 30 seconds, so that a
-- frame which arrives during a wait for a reconnection is kept and never dropped.
pub calls-guard :
    (ks : List ClientCall) (alive : Bool)
    → All HasAudio (calls ks (connected alive)).sent
      × (count_finishes (calls ks (connected alive)).sent ≤ 1)
      × ((calls ks (connected alive)).queued_samples ≤ max_queued_samples)
      × ((pcm : List ℕ) (samples : ℕ) (pending : List (List ℕ × ℕ))
          → wait_message
              (some (audio pcm samples))
              (calls ks (connected alive)).queued_samples
              pending
            ≡ (none, (calls ks (connected alive)).queued_samples, pending ++ ((pcm, samples) ∷ [])))
unfolding wait_message
calls-guard ks alive =
    let c = calls ks (connected alive) in
    let s =
      calls-IsSound ks (connected alive)
        (record { has_audio = tt; room = omega arith; once = omega arith }) in
    (
      s.has_audio,
      ground (arith, s.once),
      s.room,
      λ pcm samples pending.
          if_false (ltb max_queued_samples c.queued_samples) _
            (none, c.queued_samples, pending ++ ((pcm, samples) ∷ [])) (ground (arith, s.room)),
    )
