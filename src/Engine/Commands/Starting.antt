-- ===== src/Engine/Commands/Starting.antt =====
-- src/audio_engine.rs: `new` and `start_session`.
use larmindon_core.Base.{
  ℕ, ◌+◌, ◌*◌, Bool, false, ◌&&◌, not, Option, none, some, List, [], ◌∷◌, ◌++◌, ◌==◌, if◌then◌else◌,
  length, set, get_elem?, Result, ok, err,
}
use larmindon_core.Text.{Text, codes, opt_text_eq}
use larmindon_core.Asr.Backend.{AsrBackend}
use larmindon_core.Settings.{Host, Settings}
use larmindon_core.Settings.Checks.{expand_tilde}
use larmindon_core.Capture
use larmindon_core.Capture.{CaptureBuffer, for_sample_rate}
use larmindon_core.Capture.Backend.{AudioCapture}
use larmindon_core.Capture.Devices.{AudioDevice, select_default_device}
use larmindon_core.Engine.Commands.{
  no_session, Thread, Joined, spawned, AudioEngine, State, found_in, session_info, same_config,
}

abbrev pub asr_sample_rate : ℕ
asr_sample_rate = 16000

module _ {F B V C Str : Type 0} where
  unfoldable pub new : C → Bool → AudioEngine F B V C Str
  new capture_backend diag_enabled = record {
    capture_backend = capture_backend;
    active_stream = none;
    processing_thread = none;
    stop_flag = none;
    capture_stop_flag = none;
    active_buffer = none;
    active_session_info = no_session;
    settings_tx = none;
    cached_backend = none;
    cached_backend_id = none;
    cached_vad = none;
    cached_model_path = none;
    cached_model_config = none;
    diag_enabled = diag_enabled;
    flags = [];
    buffers = [];
  }

  -- Whether the cached models fit the path, the threads and the provider.
  unfoldable pub is_compatible : Text → ℕ × ℕ → Text → AudioEngine F B V C Str → Bool
  unfolding opt_text_eq
  is_compatible path config provider e =
      opt_text_eq e.cached_model_path (some path)
      && same_config e.cached_model_config config
      && opt_text_eq e.cached_backend_id (some provider)

abbrev set_buffer :
    {F : Type 0}
    → List (CaptureBuffer F)
    → ℕ
    → Option (CaptureBuffer F)
    → ℕ
    → List (CaptureBuffer F)
set_buffer bs i none capacity = bs
set_buffer bs i (some b) capacity = set bs i (Capture.set_capacity b capacity)

-- What `start_session` returns.
abbrev pub Started : Type 0 → Type 0 → Type 0 → Type 0 → Type 0 → Type 0
Started F B V C Str = Result {0, 0} Unit Text × State F B V C Str

module _ (h : Host) {B V C Str : Type 0} (api : AsrBackend h.F32 B)
    (join : Thread h.F32 B V → Joined B V) (cap : AudioCapture C Str) where
  -- The thread for a stream that has started, with the buffer and the stop flag at their places.
  unfoldable pub new_thread :
      ℕ → ℕ → ℕ → Settings h.F32 → AudioEngine h.F32 B V C Str → Thread h.F32 B V
  unfolding is_compatible expand_tilde
  new_thread flag buffer rate s e =
      let compatible =
        is_compatible (expand_tilde h s.model_path) (s.intra_threads, s.inter_threads)
          s.asr_provider e in
      record {
        stop_flag = flag;
        buffer = buffer;
        input_rate = rate;
        needs_resample = not (rate == asr_sample_rate);
        settings = s;
        cached_backend = if compatible then e.cached_backend else none;
        cached_vad = if compatible then e.cached_vad else none;
        diag_db_path =
            if s.diagnostics_enabled then some (expand_tilde h s.diagnostics_db_path) else none;
      }

  unfoldable pub launch :
      Text
      → Option AudioDevice
      → ℕ
      → ℕ
      → Str × ℕ
      → Settings h.F32
      → AudioEngine h.F32 B V C Str
      → Started h.F32 B V C Str
  unfolding new_thread session_info Capture.set_capacity
  launch id device flag buffer (stream, rate) s e =
      let t = new_thread flag buffer rate s e in
      (
        ok tt,
        (
          record e {
            active_stream = some stream;
            processing_thread = some t;
            stop_flag = some flag;
            capture_stop_flag = some (flag + 1);
            active_buffer = some buffer;
            active_session_info = session_info id device;
            settings_tx = some flag;
            cached_backend = none;
            cached_backend_id = some s.asr_provider;
            cached_vad = none;
            cached_model_path = some (expand_tilde h s.model_path);
            cached_model_config = some (s.intra_threads, s.inter_threads);
            diag_enabled = s.diagnostics_enabled;
            buffers = set_buffer e.buffers buffer (get_elem? e.buffers buffer) (rate * 10);
          },
          spawned t ∷ [],
        ),
      )

  abbrev pub on_started :
      Text
      → Option AudioDevice
      → ℕ
      → ℕ
      → Result {0, 0} (Str × ℕ) Text
      → Settings h.F32
      → AudioEngine h.F32 B V C Str
      → Started h.F32 B V C Str
  on_started id device flag buffer (ok stream) s e = launch id device flag buffer stream s e
  on_started id device flag buffer (err m) s e = (err m, (e, []))

  -- Two flags and a buffer are made, and the capture started with them.
  unfoldable pub on_device :
      Result {0, 0} (Option Text) Text × C
      → Settings h.F32
      → AudioEngine h.F32 B V C Str
      → Started h.F32 B V C Str
  unfolding launch for_sample_rate
  on_device (err m, c) s e = (err m, (record e { capture_backend = c }, []))
  on_device (ok none, c) s e =
      (err (codes "No device available for capture"), (record e { capture_backend = c }, []))
  on_device (ok (some id), c) s e =
      let flag = length e.flags in
      let buffer = length e.buffers in
      let (devices, c₁) = cap.enumerate_devices c in
      let (started, c₂) = cap.start id buffer (flag + 1) c₁ in
      on_started id (found_in id devices) flag buffer started s (record e {
        capture_backend = c₂;
        flags = e.flags ++ (false ∷ false ∷ []);
        buffers = e.buffers ++ (for_sample_rate 48000 ∷ []);
      })

  abbrev default_of : Result {0, 0} (List AudioDevice) Text → Result {0, 0} (Option Text) Text
  default_of (ok devices) = ok (select_default_device devices)
  default_of (err m) = err m

  unfoldable pub choose_device : Option Text → C → Result {0, 0} (Option Text) Text × C
  choose_device (some id) c = (ok (some id), c)
  choose_device none c = let (devices, c') = cap.enumerate_devices c in (default_of devices, c')

  unfoldable pub start_session :
      Option Text → Settings h.F32 → AudioEngine h.F32 B V C Str → Started h.F32 B V C Str
  unfolding choose_device on_device
  start_session device s e = on_device (choose_device device e.capture_backend) s e
