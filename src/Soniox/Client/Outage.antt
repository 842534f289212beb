-- ===== src/Soniox/Client/Outage.antt =====
-- src/asr/soniox/client.rs: audio captured while the connection is down.
use larmindon_core.Base.{
  ℕ, ◌-◌, ◌≤◌, ◌≡◌, sym, ap, ap₂, ◌∙◌, Option, none, some, List, [], ◌∷◌, ◌++◌, append_assoc,
  append-nil, arith, ltb, if_false,
}
use larmindon_core.Soniox.Client.{
  Outbound, audio, continues, max_queued_samples, wait_message, after_message, wait_backoff,
}
use larmindon_core.Soniox.Client.Connection.{
  Frame, binary, Conn, Written, Next, goes_on, write, release, opened, fresh_conn, send_pending,
  connect,
}
use larmindon_core.Soniox.Client.Flush.{all_frames, total_samples}

abbrev pub arriving : List (List ℕ × ℕ) → List (Option Outbound)
arriving [] = []
arriving ((pcm, samples) ∷ frames) = some (audio pcm samples) ∷ arriving frames

-- The writes of the waiting frames, none of which fails.
abbrev pub unfailing : List (List ℕ × ℕ) → List ((List ℕ × ℕ) × Written)
unfailing [] = []
unfailing (frame ∷ frames) = (frame, none) ∷ unfailing frames

wait_backoff-keeps :
    (frames : List (List ℕ × ℕ)) (queued : ℕ) (pending : List (List ℕ × ℕ))
    → queued ≤ max_queued_samples
    → wait_backoff (arriving frames) queued pending ≡ (continues, queued, pending ++ frames)
unfolding wait_backoff wait_message
wait_backoff-keeps [] queued pending room =
    ap (λ p. (continues, queued, p)) (sym (append-nil pending))
wait_backoff-keeps ((pcm, samples) ∷ frames) queued pending room =
    ap (λ r. after_message r (wait_backoff (arriving frames)))
      (if_false (ltb max_queued_samples queued) _ (none, queued, pending ++ ((pcm, samples) ∷ []))
        (ground (arith, room)))
    ∙ wait_backoff-keeps frames queued (pending ++ ((pcm, samples) ∷ [])) room
    ∙ ap (λ p. (continues, queued, p)) (append_assoc pending ((pcm, samples) ∷ []) frames)

abbrev sending : List Frame → ℕ → Conn → Next × List (List ℕ × ℕ)
sending wire queued c = (goes_on (record c { wire = wire; queued = queued }), [])

send_pending-all :
    (frames : List (List ℕ × ℕ)) (c : Conn)
    → send_pending (unfailing frames) c
      ≡ sending (c.wire ++ all_frames frames) (c.queued - total_samples frames) c
unfolding send_pending release
send_pending-all [] c = ap₂ (λ w q. sending w q c) (sym (append-nil c.wire)) (omega arith)
send_pending-all ((pcm, samples) ∷ frames) c =
    send_pending-all frames (write (binary pcm) (release samples c))
    ∙ ap₂ (λ w q. sending w q c) (append_assoc c.wire (binary pcm ∷ []) (all_frames frames))
        (omega arith)

-- A reconnection loses no audio: while the backlog is within its ceiling, the frames that arrive
-- during the wait are kept behind those that waited before, and when the next connection opens and
-- its writes succeed, all of them are written in that order before anything new, the backlog goes
-- down by their samples, and none waits any longer.
pub outage-keeps :
    (waited arrived : List (List ℕ × ℕ)) (queued : ℕ)
    → queued ≤ max_queued_samples
    → (wait_backoff (arriving arrived) queued waited ≡ (continues, queued, waited ++ arrived))
      × (connect opened (unfailing (waited ++ arrived)) queued ≡ (
        goes_on (record (fresh_conn queued) {
          wire = all_frames (waited ++ arrived);
          queued = queued - total_samples (waited ++ arrived);
        }),
        [],
      ))
unfolding connect
outage-keeps waited arrived queued room = (
  wait_backoff-keeps arrived queued waited room,
  send_pending-all (waited ++ arrived) (fresh_conn queued),
)
