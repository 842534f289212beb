-- ===== src/Engine/Commands/Handling.antt =====
-- src/audio_engine.rs: `reconnect_stream` and the loop of `run` over the commands.
use larmindon_core.Base.{ℕ, false, Option, none, some, List, [], ◌∷◌, ◌++◌, length, Result, ok, err}
use larmindon_core.Text.{Text, codes}
use larmindon_core.Asr.Backend.{AsrBackend}
use larmindon_core.Settings.{Host, Settings}
use larmindon_core.Capture.Backend.{AudioCapture}
use larmindon_core.Capture.Devices.{AudioDevice, sort_devices_by_priority}
use larmindon_core.Engine.Commands.{
  Thread, Joined, Command, list_devices, start, stop, reconnect, update_settings, Event,
  devices_replied, on_error, on_source_switched, settings_sent, AudioEngine, State, raise, found_in,
  session_info, stopped_stream, stop_active_session,
}
use larmindon_core.Engine.Commands.Starting.{start_session}

module _ {F B V C Str : Type 0} (cap : AudioCapture C Str) where
  -- A new stream, or the error of its start. The engine has the new stop flag's place, `flag`.
  unfoldable pub on_restarted :
      Text → ℕ → Result {0, 0} (Str × ℕ) Text → AudioEngine F B V C Str → State F B V C Str
  unfolding session_info
  on_restarted id flag (ok (stream, _)) e =
      let (devices, c) = cap.enumerate_devices e.capture_backend in
      (
        record e {
          capture_backend = c;
          active_stream = some stream;
          capture_stop_flag = some flag;
          active_session_info = session_info id (found_in id devices);
        },
        on_source_switched id ∷ [],
      )
  on_restarted id flag (err m) e = (e, on_error (codes "Reconnect failed: " ++ m) ∷ [])

  -- By the buffer of the session.
  unfoldable pub reconnect_stream : Text → Option ℕ → AudioEngine F B V C Str → State F B V C Str
  unfolding raise on_restarted
  reconnect_stream id none e = (e, [])
  reconnect_stream id (some buffer) e =
      let flags = raise e.capture_stop_flag e.flags in
      let (started, c) = cap.start id buffer (length flags) e.capture_backend in
      let (e', events) = on_restarted id (length flags) started (record e {
        capture_backend = c;
        active_stream = none;
        capture_stop_flag = none;
        flags = flags ++ (false ∷ []);
      }) in
      (e', stopped_stream e.active_stream ++ events)

abbrev listed : Result {0, 0} (List AudioDevice) Text → List AudioDevice
listed (ok devices) = sort_devices_by_priority devices
listed (err m) = []

abbrev pub sent : {F B V Str : Type 0} → Option ℕ → Settings F → List (Event F B V Str)
sent none s = []
sent (some thread) s = settings_sent thread s ∷ []

-- The error of a start that failed.
abbrev pub start_error : {F B V Str : Type 0} → Result {0, 0} Unit Text → List (Event F B V Str)
start_error (ok _) = []
start_error (err m) = on_error (codes "Error: " ++ m) ∷ []

module _ (h : Host) {B V C Str : Type 0} (api : AsrBackend h.F32 B)
    (join : Thread h.F32 B V → Joined B V) (cap : AudioCapture C Str) where
  -- After the session before has been stopped, with its events.
  unfoldable pub restart :
      Option Text → Settings h.F32 → State h.F32 B V C Str → State h.F32 B V C Str
  unfolding start_session
  restart device s (e, before) =
      let (result, (e', events)) = start_session h api join cap device s e in
      (e', before ++ (events ++ start_error result))

  unfoldable pub handle : Command h.F32 → AudioEngine h.F32 B V C Str → State h.F32 B V C Str
  unfolding stop_active_session restart reconnect_stream
  handle list_devices e =
      let (devices, c) = cap.enumerate_devices e.capture_backend in
      (record e { capture_backend = c }, devices_replied (listed devices) ∷ [])
  handle (start device s) e = restart device s (stop_active_session api join e)
  handle stop e = stop_active_session api join e
  handle (reconnect id) e = reconnect_stream cap id e.active_buffer e
  handle (update_settings s) e =
      (record e { diag_enabled = s.diagnostics_enabled }, sent e.settings_tx s)

  -- The commands until the channel is closed.
  unfoldable pub run : List (Command h.F32) → AudioEngine h.F32 B V C Str → State h.F32 B V C Str
  unfolding handle
  run [] e = (e, [])
  run (c ∷ cs) e =
      let (e', events) = handle c e in let (e'', rest) = run cs e' in (e'', events ++ rest)
