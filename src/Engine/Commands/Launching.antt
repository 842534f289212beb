-- ===== src/Engine/Commands/Launching.antt =====
-- src/audio_engine.rs: the invariant of the engine over the start of a session.
use larmindon_core.Base.{
  ℕ, ◌+◌, refl, sym, ap, ap₂, ◌∙◌, subst, false, Option, none, some, List, [], ◌∷◌, ◌++◌,
  append-nil, append_assoc, arith, inr, All, All-map, All-append, length, length-append, Result, ok,
  err,
}
use larmindon_core.Text.{Text}
use larmindon_core.Asr.Backend.{AsrBackend}
use larmindon_core.Settings.{Host, Settings}
use larmindon_core.Capture.{for_sample_rate}
use larmindon_core.Capture.Backend.{AudioCapture}
use larmindon_core.Capture.Devices.{AudioDevice}
use larmindon_core.Engine.Commands.{Thread, Joined, Event, spawned, AudioEngine, found_in}
use larmindon_core.Engine.Commands.Starting.{
  Started, new_thread, launch, on_device, on_started, choose_device, start_session,
}
use larmindon_core.Engine.Commands.Handling.{start_error, restart}
use larmindon_core.Engine.Commands.Threads.{
  spawned_threads, joined_threads, spawned-more, joined-more, the_thread,
}
use larmindon_core.Engine.Commands.Stopping.{IsCovered, IsIdle, Kept}
use larmindon_core.Engine.Commands.Changes.{
  Grows-refl, Grows-append, IsCovered-next, flag_of, same-Kept, IsIdle-same,
}

module _ (h : Host) {B V C Str : Type 0} (api : AsrBackend h.F32 B)
    (join : Thread h.F32 B V → Joined B V) (cap : AudioCapture C Str) where
  -- What a start leaves, with its events behind the earlier ones.
  abbrev StartKept : Started h.F32 B V C Str → List (Event h.F32 B V Str) → Type 0
  StartKept r es = Kept r.1.0 (es ++ r.1.1)

  refused-Kept :
      (e : AudioEngine h.F32 B V C Str) (c : C) (es : List (Event h.F32 B V Str))
      → IsIdle e
      → Kept e es
      → Kept (record e { capture_backend = c }) (es ++ [])
  unfolding spawned_threads joined_threads
  refused-Kept e c es idle k =
      same-Kept e (record e { capture_backend = c }) es [] k (Grows-refl e.flags) refl refl
        (λ _. IsIdle-same e _ refl refl refl refl refl refl idle) refl refl

  -- The engine with the flags and the buffer of a start.
  abbrev prepared : AudioEngine h.F32 B V C Str → C → AudioEngine h.F32 B V C Str
  prepared e c = record e {
    capture_backend = c;
    flags = e.flags ++ (false ∷ false ∷ []);
    buffers = e.buffers ++ (for_sample_rate 48000 ∷ []);
  }

  launch-Kept :
      (id : Text) (d : Option AudioDevice) (started : Str × ℕ) (s : Settings h.F32)
      (e : AudioEngine h.F32 B V C Str) (c : C) (es : List (Event h.F32 B V Str))
      → IsIdle e
      → Kept e es
      → StartKept
          (launch h api join cap id d (length e.flags) (length e.buffers) started s (prepared e c))
          es
  unfolding launch new_thread spawned_threads joined_threads
  launch-Kept id d (stream, rate) s e c es idle k =
      let t = new_thread h api join cap (length e.flags) (length e.buffers) rate s (prepared e c) in
      let flags = e.flags ++ (false ∷ false ∷ []) in
      let spawns = spawned-more es (spawned t ∷ []) refl in
      let joins = joined-more es (spawned t ∷ []) refl ∙ append-nil (joined_threads es) in
      let alone =
        k.joins
        ∙ (ap (λ o. joined_threads es ++ the_thread o) idle.no_thread
            ∙ append-nil (joined_threads es)) in
      record {
        covered = subst (All (IsCovered flags (some t))) (sym spawns) (
            All-append (IsCovered flags (some t)) (spawned_threads es) (t ∷ [])
              (All-map (IsCovered e.flags e.processing_thread) _ (spawned_threads es)
                (λ u covered.
                  IsCovered-next e.flags flags e.processing_thread (some t) u idle.no_thread
                    (Grows-append e.flags (false ∷ false ∷ [])) covered)
                k.covered)
              ((omega (arith, length-append e.flags (false ∷ false ∷ [])), inr refl), tt));
        joins = spawns ∙ ap₂ ◌++◌ (alone ∙ sym joins) refl;
        linked = λ u running. ap flag_of running;
        idle = λ gone. cc;
      }

  started-Kept :
      (id : Text) (d : Option AudioDevice) (started : Result {0, 0} (Str × ℕ) Text)
      (s : Settings h.F32) (e : AudioEngine h.F32 B V C Str) (c : C)
      (es : List (Event h.F32 B V Str))
      → IsIdle e
      → Kept e es
      → StartKept
          (on_started h api join cap id d
            (length e.flags)
            (length e.buffers)
            started
            s
            (prepared e c))
          es
  unfolding spawned_threads joined_threads
  started-Kept id d (ok stream) s e c es idle k = launch-Kept id d stream s e c es idle k
  started-Kept id d (err m) s e c es idle k =
      same-Kept e (prepared e c) es [] k (Grows-append e.flags (false ∷ false ∷ [])) refl refl
        (λ _. IsIdle-same e _ refl refl refl refl refl refl idle) refl refl

  device-Kept :
      (r : Result {0, 0} (Option Text) Text × C) (s : Settings h.F32)
      (e : AudioEngine h.F32 B V C Str) (es : List (Event h.F32 B V Str))
      → IsIdle e
      → Kept e es
      → StartKept (on_device h api join cap r s e) es
  unfolding on_device spawned_threads joined_threads
  device-Kept (err m, c) s e es idle k = refused-Kept e c es idle k
  device-Kept (ok none, c) s e es idle k = refused-Kept e c es idle k
  device-Kept (ok (some id), c) s e es idle k =
      let listed = cap.enumerate_devices c in
      let started = cap.start id (length e.buffers) (length e.flags + 1) listed.1 in
      started-Kept id (found_in id listed.0) started.0 s e started.1 es idle k

  start_error-Kept :
      (r : Result {0, 0} Unit Text) (e : AudioEngine h.F32 B V C Str)
      (es fs : List (Event h.F32 B V Str))
      → Kept e (es ++ fs)
      → Kept e (es ++ (fs ++ start_error r))
  unfolding spawned_threads joined_threads
  start_error-Kept (ok _) e es fs k = subst (λ l. Kept e (es ++ l)) (sym (append-nil fs)) k
  start_error-Kept (err m) e es fs k =
      subst (Kept e) (append_assoc es fs _)
        (same-Kept e e (es ++ fs) _ k (Grows-refl e.flags) refl refl k.idle refl refl)

  pub restart-Kept :
      (device : Option Text) (s : Settings h.F32) (e : AudioEngine h.F32 B V C Str)
      (before es : List (Event h.F32 B V Str))
      → IsIdle e
      → Kept e (es ++ before)
      → Kept
          (restart h api join cap device s (e, before)).0
          (es ++ (restart h api join cap device s (e, before)).1)
  unfolding restart start_session
  restart-Kept device s e before es idle k =
      let r = choose_device h api join cap device e.capture_backend in
      let d = device-Kept r s e (es ++ before) idle k in
      let started = on_device h api join cap r s e in
      subst (Kept started.1.0) (append_assoc es before (started.1.1 ++ start_error started.0))
        (start_error-Kept started.0 started.1.0 (es ++ before) started.1.1 d)
