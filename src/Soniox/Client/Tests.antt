-- ===== src/Soniox/Client/Tests.antt =====
-- A connection and a session of reconnections at concrete input, and the theorems at them.
use larmindon_core.Base.{
  arith, All, ℕ, ◌+◌, ◌-◌, ◌*◌, min, ◌≤◌, ◌≡◌, refl, Bool, true, false, none, some, List, [], ◌∷◌,
  ◌++◌,
}
use larmindon_core.Text.{Text, codes}
use larmindon_core.Soniox.Protocol.{SonioxResponse}
use larmindon_core.Soniox.Client.{
  fatal_end, audio, retry, Round, outcome_finished, continues, backoff, backoff_start, backoff_cap,
  lost_message, session, finish, max_queued_samples, wait_message, wait_backoff,
}
use larmindon_core.Soniox.Client.Connection.{
  Conn, binary, Event, outgoing, ping_tick, watchdog, goes_on, step, conn_of, fresh_conn, Opening,
  Written, connect, connect_and_run,
}
use larmindon_core.Soniox.Client.Backlog.{
  ClientCall, sends, finishes, releases, calls, connected, count_finishes, calls-guard,
}
use larmindon_core.Soniox.Client.Outage.{arriving, unfailing, outage-keeps}
use larmindon_core.Soniox.Client.Wire.{HasAudio, receive_all}
use larmindon_core.Soniox.Client.Stream.{connect_and_run-receives}
use larmindon_core.Soniox.Client.Flush.{all_written, all_frames, total_samples, finish-flushes}
use larmindon_core.Soniox.Client.Retry.{
  failures, all_reconnecting, session-gives_up, backoff-doubles, IsLast, session-ends_once,
}

abbrev events : List Event
events =
    outgoing (some (audio (1 ∷ 2 ∷ []) 1)) none [] none
    ∷ ping_tick none
    ∷ outgoing (some finish) none ((audio (3 ∷ 4 ∷ []) 1, none) ∷ []) none
    ∷ outgoing (some (audio (5 ∷ 6 ∷ []) 1)) none [] none
    ∷ watchdog
    ∷ []

abbrev waiting_frames : List ((List ℕ × ℕ) × Written)
waiting_frames = ((7 ∷ 8 ∷ [], 1), none) ∷ []

connect_and_run-receives_example :
    ((over : Bool) × (receive_all false
          (conn_of (connect_and_run Opening.opened waiting_frames 2 events)).wire
        ≡ some over))
    × ((c : Conn)
        → connect_and_run Opening.opened waiting_frames 2 events ≡ goes_on c
        → receive_all false c.wire ≡ some c.finishing)
connect_and_run-receives_example =
    connect_and_run-receives Opening.opened waiting_frames 2 events (refl, tt)
      ((refl, tt), (tt, ((tt, (refl, tt)), ((refl, tt), (tt, tt)))))

abbrev queued_frames : List (List ℕ × ℕ)
queued_frames = (1 ∷ 2 ∷ [], 1) ∷ (3 ∷ 4 ∷ [], 1) ∷ []

finish-flushes_example :
    step (outgoing (some finish) none (all_written queued_frames) none) (fresh_conn 2)
    ≡ goes_on (record (fresh_conn 2) {
      wire = [] ++ (all_frames queued_frames ++ (binary [] ∷ []));
      queued = 2 - total_samples queued_frames;
      finishing = true;
      watchdog_armed = true;
    })
finish-flushes_example = finish-flushes queued_frames none (fresh_conn 2) refl

abbrev reasons : List Text
reasons = codes "a" ∷ codes "b" ∷ codes "c" ∷ codes "d" ∷ codes "e" ∷ []

session-gives_up_example :
    session (failures reasons ++ (([], retry (codes "f") false, continues) ∷ [])) 0
    ≡ all_reconnecting reasons ++ (fatal_end (lost_message (codes "f")) ∷ [])
session-gives_up_example = session-gives_up reasons (codes "f") continues [] 0 refl

abbrev spoken : SonioxResponse
spoken = record {
  tokens = [];
  final_audio_proc_ms = 0;
  total_audio_proc_ms = 0;
  finished = false;
  error_code = none;
  error_type = none;
  error_message = none;
  more_info = none;
  request_id = none;
}

abbrev one_session : List Round
one_session =
    (spoken ∷ spoken ∷ [], retry (codes "a") true, continues)
    ∷ (spoken ∷ [], outcome_finished, continues)
    ∷ (spoken ∷ [], outcome_finished, continues)
    ∷ []

session-ends_once_example : IsLast (session one_session 3)
session-ends_once_example = session-ends_once one_session 3

backoff-doubles_example :
    (backoff 1 ≡ backoff_start)
    × (backoff (4 + 2) ≡ min (2 * backoff (4 + 1)) backoff_cap)
    × (backoff (4 + 1) ≤ backoff (4 + 2))
    × (backoff_start ≤ backoff (4 + 1))
    × (backoff (4 + 1) ≤ backoff_cap)
backoff-doubles_example = backoff-doubles 4

abbrev handle_calls : List ClientCall
handle_calls =
    sends (1 ∷ 2 ∷ []) 400000
    ∷ sends [] 0
    ∷ sends (3 ∷ 4 ∷ []) 400000
    ∷ releases 400000
    ∷ finishes
    ∷ finishes
    ∷ []

calls-guard_example :
    All HasAudio (calls handle_calls (connected true)).sent
    × (count_finishes (calls handle_calls (connected true)).sent ≤ 1)
    × ((calls handle_calls (connected true)).queued_samples ≤ max_queued_samples)
    × ((pcm : List ℕ) (samples : ℕ) (pending : List (List ℕ × ℕ))
        → wait_message
            (some (audio pcm samples))
            (calls handle_calls (connected true)).queued_samples
            pending
          ≡ (
            none,
            (calls handle_calls (connected true)).queued_samples,
            pending ++ ((pcm, samples) ∷ []),
          ))
calls-guard_example = calls-guard handle_calls true

abbrev waited : List (List ℕ × ℕ)
waited = (1 ∷ 2 ∷ [], 1) ∷ []

abbrev arrived : List (List ℕ × ℕ)
arrived = (3 ∷ 4 ∷ [], 1) ∷ (5 ∷ 6 ∷ [], 1) ∷ []

outage-keeps_example :
    (wait_backoff (arriving arrived) 3 waited ≡ (continues, 3, waited ++ arrived))
    × (connect Opening.opened (unfailing (waited ++ arrived)) 3 ≡ (
      goes_on (record (fresh_conn 3) {
        wire = all_frames (waited ++ arrived);
        queued = 3 - total_samples (waited ++ arrived);
      }),
      [],
    ))
outage-keeps_example = outage-keeps waited arrived 3 (omega arith)
