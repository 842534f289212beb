-- ===== src/Engine/Commands/Running.antt =====
-- src/audio_engine.rs: the invariant of the engine over every command, and over any sequence of them.
use larmindon_core.Base.{
  ℕ, ◌≡◌, ◌⊎◌, refl, sym, ap, ◌∙◌, subst, Bool, false, Option, none, some, List, [], ◌∷◌, ◌++◌,
  append-nil, append_assoc, inl, inr, All, All-map, length, Result, ok, err,
}
use larmindon_core.Text.{Text}
use larmindon_core.Asr.Backend.{AsrBackend}
use larmindon_core.Settings.{Host, Settings}
use larmindon_core.Capture.Backend.{AudioCapture}
use larmindon_core.Engine.Commands.{
  Thread, Joined, Command, list_devices, start, stop, reconnect, update_settings, Event,
  AudioEngine, State, raise, stopped_stream, stop_active_session,
}
use larmindon_core.Engine.Commands.Starting.{new}
use larmindon_core.Engine.Commands.Handling.{on_restarted, reconnect_stream, sent, handle, run}
use larmindon_core.Engine.Commands.Threads.{
  spawned_threads, joined_threads, spawned-more, joined-more, stopped_stream-spawned,
  stopped_stream-joined, the_thread, IsRaised,
}
use larmindon_core.Engine.Commands.Stopping.{IsCovered, IsIdle, Kept, stop_active_session-Kept}
use larmindon_core.Engine.Commands.Changes.{Grows, Grows-refl, Grows-raise, same-Kept, IsIdle-same}
use larmindon_core.Engine.Commands.Launching.{restart-Kept}

sent-spawned :
    {F : Type 0} (B V Str : Type 0) (o : Option ℕ) (s : Settings F)
    → spawned_threads (sent {F = F} {B = B} {V = V} {Str = Str} o s) ≡ []
unfolding spawned_threads
sent-spawned B V Str none s = refl
sent-spawned B V Str (some thread) s = refl

sent-joined :
    {F : Type 0} (B V Str : Type 0) (o : Option ℕ) (s : Settings F)
    → joined_threads (sent {F = F} {B = B} {V = V} {Str = Str} o s) ≡ []
unfolding joined_threads
sent-joined B V Str none s = refl
sent-joined B V Str (some thread) s = refl

found_missing : {o : Option ℕ} {n : ℕ} → o ≡ some n → o ≡ none → ⊥
found_missing at gone = cc

told :
    {F B V : Type 0} (flags : List Bool) (active : Option (Thread F B V)) (t : Thread F B V)
    → active ≡ none
    → IsRaised flags t ⊎ (active ≡ some t)
    → IsRaised flags t
told flags active t gone (inl raised) = raised
told flags active t gone (inr running) = cc

-- A change of an engine that leaves its flags and its thread alone.
record Quiet {F B V C Str : Type 0} (e : AudioEngine F B V C Str) (s : State F B V C Str)
    : Type 0 where
  same_flags : s.0.flags ≡ e.flags
  same_thread : s.0.processing_thread ≡ e.processing_thread
  same_flag : s.0.stop_flag ≡ e.stop_flag
  no_spawn : spawned_threads s.1 ≡ []
  no_join : joined_threads s.1 ≡ []

module _ (h : Host) {B V C Str : Type 0} (api : AsrBackend h.F32 B)
    (join : Thread h.F32 B V → Joined B V) (cap : AudioCapture C Str) where
  on_restarted-Quiet :
      (id : Text) (flag : ℕ) (started : Result {0, 0} (Str × ℕ) Text)
      (e : AudioEngine h.F32 B V C Str)
      → Quiet e (on_restarted cap id flag started e)
  unfolding on_restarted spawned_threads joined_threads
  on_restarted-Quiet id flag (ok (stream, _)) e = record {
    same_flags = refl;
    same_thread = refl;
    same_flag = refl;
    no_spawn = refl;
    no_join = refl;
  }
  on_restarted-Quiet id flag (err m) e = record {
    same_flags = refl;
    same_thread = refl;
    same_flag = refl;
    no_spawn = refl;
    no_join = refl;
  }

  reconnect_stream-Kept :
      (id : Text) (o : Option ℕ) (e : AudioEngine h.F32 B V C Str) (es : List (Event h.F32 B V Str))
      → e.active_buffer ≡ o
      → Kept e es
      → Kept (reconnect_stream cap id o e).0 (es ++ (reconnect_stream cap id o e).1)
  unfolding reconnect_stream spawned_threads joined_threads
  reconnect_stream-Kept id none e es at k =
      same-Kept e e es [] k (Grows-refl e.flags) refl refl k.idle refl refl
  reconnect_stream-Kept id (some buffer) e es at k =
      let flags = raise e.capture_stop_flag e.flags in
      let started = cap.start id buffer (length flags) e.capture_backend in
      let waiting : AudioEngine h.F32 B V C Str = record e {
        capture_backend = started.1;
        active_stream = none;
        capture_stop_flag = none;
        flags = flags ++ (false ∷ []);
      } in
      let (e', events) = on_restarted cap id (length flags) started.0 waiting in
      let q = on_restarted-Quiet id (length flags) started.0 waiting in
      let stops = stopped_stream e.active_stream in
      same-Kept e e' es (stops ++ events) k
        (subst (Grows e.flags) (sym q.same_flags) (Grows-raise e.capture_stop_flag e.flags _))
        q.same_thread q.same_flag
        (λ gone. let idle = k.idle gone in absurd (found_missing at idle.no_buffer))
        (spawned-more stops events q.no_spawn
          ∙ (append-nil (spawned_threads stops) ∙ stopped_stream-spawned _ B V Str e.active_stream))
        (joined-more stops events q.no_join
          ∙ (append-nil (joined_threads stops) ∙ stopped_stream-joined _ B V Str e.active_stream))

  handle-Kept :
      (c : Command h.F32) (e : AudioEngine h.F32 B V C Str) (es : List (Event h.F32 B V Str))
      → Kept e es
      → Kept (handle h api join cap c e).0 (es ++ (handle h api join cap c e).1)
  unfolding handle spawned_threads joined_threads
  handle-Kept list_devices e es k =
      let listed = cap.enumerate_devices e.capture_backend in
      same-Kept e (record e { capture_backend = listed.1 }) es _ k (Grows-refl e.flags) refl refl
        (λ gone. IsIdle-same e _ refl refl refl refl refl refl (k.idle gone)) refl refl
  handle-Kept (start device s) e es k =
      let (stopped, idle) = stop_active_session-Kept api join e es k in
      restart-Kept h api join cap device s (stop_active_session api join e).0
        (stop_active_session api join e).1 es idle stopped
  handle-Kept stop e es k = (stop_active_session-Kept api join e es k).0
  handle-Kept (reconnect id) e es k = reconnect_stream-Kept id e.active_buffer e es refl k
  handle-Kept (update_settings s) e es k =
      same-Kept e (record e { diag_enabled = s.diagnostics_enabled }) es (sent e.settings_tx s) k
        (Grows-refl e.flags) refl refl
        (λ gone. IsIdle-same e _ refl refl refl refl refl refl (k.idle gone))
        (sent-spawned B V Str e.settings_tx s) (sent-joined B V Str e.settings_tx s)

  run-Kept_from :
      (cs : List (Command h.F32)) (e : AudioEngine h.F32 B V C Str)
      (es : List (Event h.F32 B V Str))
      → Kept e es
      → Kept (run h api join cap cs e).0 (es ++ (run h api join cap cs e).1)
  unfolding run
  run-Kept_from [] e es k = subst (Kept e) (sym (append-nil es)) k
  run-Kept_from (c ∷ cs) e es k =
      let (e', events) = handle h api join cap c e in
      subst (Kept (run h api join cap cs e').0)
        (append_assoc es events (run h api join cap cs e').1)
        (run-Kept_from cs e' (es ++ events) (handle-Kept c e es k))

  new-Kept : (c : C) (diag : Bool) → Kept {F = h.F32} {B = B} {V = V} {Str = Str} (new c diag) []
  unfolding new spawned_threads joined_threads
  new-Kept c diag = record {
    covered = tt;
    joins = refl;
    linked = λ t e. cc;
    idle = λ _. record {
      no_thread = refl;
      no_buffer = refl;
      no_stream = refl;
      no_capture_flag = refl;
      no_channel = refl;
      no_info = refl;
    };
  }

  -- After any commands to a new engine, whatever the devices, the captures and the threads answer:
  -- every processing thread started so far has been told to stop, or is the one that the engine has;
  -- the threads were joined one by one in the order of their start, each before the next, and all
  -- but the one that the engine has; and an engine that has no thread has no stream, no buffer, no
  -- flag of a capture and no session for the watcher.
  pub run-Kept :
      (cs : List (Command h.F32)) (c : C) (diag : Bool)
      → Kept (run h api join cap cs (new c diag)).0 (run h api join cap cs (new c diag)).1
  run-Kept cs c diag = run-Kept_from cs (new c diag) [] (new-Kept c diag)

  run-append :
      (cs ds : List (Command h.F32)) (e : AudioEngine h.F32 B V C Str)
      → (run h api join cap (cs ++ ds) e).0 ≡ (run h api join cap ds (run h api join cap cs e).0).0
  unfolding run
  run-append [] ds e = refl
  run-append (c ∷ cs) ds e = run-append cs ds (handle h api join cap c e).0

  run_stop-IsIdle :
      (cs : List (Command h.F32)) (e : AudioEngine h.F32 B V C Str)
      (es : List (Event h.F32 B V Str))
      → Kept e es
      → IsIdle (run h api join cap (cs ++ (stop ∷ [])) e).0
  unfolding run handle
  run_stop-IsIdle cs e es k =
      subst IsIdle (sym (run-append cs (stop ∷ []) e))
        (stop_active_session-Kept api join (run h api join cap cs e).0 _
          (run-Kept_from cs e es k)).1

  -- After any commands to a new engine of which the last is a stop, the engine is idle, and every
  -- thread ever started has been told to stop and has been joined, in the order of their start.
  pub stop-leaves_none :
      (cs : List (Command h.F32)) (c : C) (diag : Bool)
      → IsIdle (run h api join cap (cs ++ (stop ∷ [])) (new c diag)).0
        × All
            (IsRaised (run h api join cap (cs ++ (stop ∷ [])) (new c diag)).0.flags)
            (spawned_threads (run h api join cap (cs ++ (stop ∷ [])) (new c diag)).1)
        × (spawned_threads (run h api join cap (cs ++ (stop ∷ [])) (new c diag)).1
            ≡ joined_threads (run h api join cap (cs ++ (stop ∷ [])) (new c diag)).1)
  stop-leaves_none cs c diag =
      let (e, es) = run h api join cap (cs ++ (stop ∷ [])) (new c diag) in
      let k = run-Kept (cs ++ (stop ∷ [])) c diag in
      let idle = run_stop-IsIdle cs (new c diag) [] (new-Kept c diag) in
      (
        idle,
        All-map (IsCovered e.flags e.processing_thread) _ (spawned_threads es)
            (λ t h. told e.flags e.processing_thread t idle.no_thread h.1) k.covered,
        k.joins
            ∙ (ap (λ o. joined_threads es ++ the_thread o) idle.no_thread
                ∙ append-nil (joined_threads es)),
      )
