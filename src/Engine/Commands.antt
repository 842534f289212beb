-- ===== src/Engine/Commands.antt =====
-- src/audio_engine.rs: the engine's thread, command by command. The flags and buffers that it shares
-- with the other threads are a store: a flag or a buffer is its place in it. A processing thread is
-- what it was started with, and `join` what joining it gives. A stream, the devices and the start of a
-- capture are those of the capture backend, with state `C`.
pub mod Starting
pub mod Handling
pub mod Threads
pub mod Stopping
pub mod Changes
pub mod Launching
pub mod Running
use larmindon_core.Base.{
  ℕ, suc, ◌+◌, ◌*◌, Bool, true, false, ◌&&◌, not, Option, none, some, List, [], ◌∷◌, ◌++◌, ◌==◌,
  if◌then◌else◌, length, set, get_elem?, Result, ok, err,
}
use larmindon_core.Text.{Text, codes, text_eq, opt_text_eq}
use larmindon_core.Asr.Backend.{AsrBackend}
use larmindon_core.Settings.{Host, Settings}
use larmindon_core.Settings.Checks.{expand_tilde}
use larmindon_core.Capture
use larmindon_core.Capture.{CaptureBuffer, for_sample_rate}
use larmindon_core.Capture.Devices.{
  DeviceType, AudioDevice, sort_devices_by_priority, select_default_device,
}
use larmindon_core.Vad.Processor.{VadProcessor}

pub record ActiveSessionInfo : Type 0 where
  pub device_id : Option Text
  pub application_name : Option Text
  pub device_type : Option DeviceType

abbrev pub no_session : ActiveSessionInfo
no_session = record { device_id = none; application_name = none; device_type = none }

pub record Thread (F B V : Type 0) : Type 0 where
  pub stop_flag : ℕ
  pub buffer : ℕ
  pub input_rate : ℕ
  pub needs_resample : Bool
  pub settings : Settings F
  pub cached_backend : Option B
  pub cached_vad : Option V
  pub diag_db_path : Option Text

-- What `join` gives: the models, no models after an error, or a panic.
pub data Joined (B V : Type 0) : Type 0 where
  models : B → V → Joined B V
  no_models : Joined B V
  panicked : Joined B V

pub data Command (F : Type 0) : Type 0 where
  list_devices : Command F
  start : Option Text → Settings F → Command F
  stop : Command F
  reconnect : Text → Command F
  update_settings : Settings F → Command F

-- What the engine does to others. `settings_sent` is by the stop flag of the thread that gets it.
pub data Event (F B V Str : Type 0) : Type 0 where
  devices_replied : List AudioDevice → Event F B V Str
  on_error on_source_switched : Text → Event F B V Str
  stream_stopped : Str → Event F B V Str
  spawned joined : Thread F B V → Event F B V Str
  settings_sent : ℕ → Settings F → Event F B V Str

pub record AudioEngine (F B V C Str : Type 0) : Type 0 where
  pub capture_backend : C
  pub active_stream : Option Str
  pub processing_thread : Option (Thread F B V)
  pub stop_flag : Option ℕ
  pub capture_stop_flag : Option ℕ
  pub active_buffer : Option ℕ
  pub active_session_info : ActiveSessionInfo
  pub settings_tx : Option ℕ
  pub cached_backend : Option B
  pub cached_backend_id : Option Text
  pub cached_vad : Option V
  pub cached_model_path : Option Text
  pub cached_model_config : Option (ℕ × ℕ)
  pub diag_enabled : Bool
  pub flags : List Bool
  pub buffers : List (CaptureBuffer F)

-- `flag.store(true)` on a flag that has been taken.
unfoldable pub raise : Option ℕ → List Bool → List Bool
raise none flags = flags
raise (some i) flags = set flags i true

unfoldable pub find_device : Text → List AudioDevice → Option AudioDevice
unfolding text_eq
find_device id [] = none
find_device id (d ∷ ds) = if text_eq d.id id then some d else find_device id ds

abbrev pub found_in : Text → Result {0, 0} (List AudioDevice) Text → Option AudioDevice
found_in id (ok ds) = find_device id ds
found_in id (err e) = none

unfoldable pub session_info : Text → Option AudioDevice → ActiveSessionInfo
session_info id none = record { device_id = some id; application_name = none; device_type = none }
session_info id (some d) = record {
  device_id = some id;
  application_name = d.application_name;
  device_type = some d.device_type;
}

abbrev same_config : Option (ℕ × ℕ) → ℕ × ℕ → Bool
same_config none config = false
same_config (some (a, b)) (c, d) = a == c && b == d

abbrev stopped_stream : {F B V Str : Type 0} → Option Str → List (Event F B V Str)
stopped_stream none = []
stopped_stream (some s) = stream_stopped s ∷ []

-- The engine and what it has done to others.
abbrev pub State : Type 0 → Type 0 → Type 0 → Type 0 → Type 0 → Type 0
State F B V C Str = AudioEngine F B V C Str × List (Event F B V Str)

module _ {F B V C Str : Type 0} (api : AsrBackend F B) (join : Thread F B V → Joined B V) where
  -- The models of a thread that has been joined.
  unfoldable pub keep_models : Joined B V → AudioEngine F B V C Str → State F B V C Str
  keep_models (models b v) e =
      if api.is_cacheable b
      then (record e { cached_backend = some b; cached_vad = some v }, [])
      else (record e { cached_backend_id = none; cached_vad = some v }, [])
  keep_models no_models e = (record e { cached_backend_id = none }, [])
  keep_models panicked e =
      (record e { cached_backend_id = none }, on_error (codes "Transcription thread crashed.") ∷ [])

  unfoldable pub join_thread : Option (Thread F B V) → AudioEngine F B V C Str → State F B V C Str
  unfolding keep_models
  join_thread none e = (e, [])
  join_thread (some t) e = let (e', events) = keep_models (join t) e in (e', joined t ∷ events)

  unfoldable pub stop_active_session : AudioEngine F B V C Str → State F B V C Str
  unfolding raise join_thread
  stop_active_session e =
      let (e', events) = join_thread e.processing_thread (record e {
        flags = raise e.capture_stop_flag (raise e.stop_flag e.flags);
        stop_flag = none;
        capture_stop_flag = none;
        settings_tx = none;
        active_stream = none;
        processing_thread = none;
      }) in
      (
        record e' { active_buffer = none; active_session_info = no_session },
        stopped_stream e.active_stream ++ events,
      )
