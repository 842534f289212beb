-- ===== src/Capture/Cpal/Tests.antt =====
-- CPAL and the composite backend at concrete input: devices are their names, and one has none.
use larmindon_core.Base.{
  ℕ, ◌+◌, ◌≡◌, refl, none, some, List, [], ◌∷◌, ◌++◌, arith, All, length, ok, err,
}
use larmindon_core.Text.{Text, codes}
use larmindon_core.Capture.{CaptureBuffer}
use larmindon_core.Capture.Bounded.{Accounts}
use larmindon_core.Capture.Backend.{AudioCapture}
use larmindon_core.Capture.Composite
use larmindon_core.Capture.Composite.{
  process_device_id_prefix, apps_or_none, enumerate_devices-best_effort, start-routes,
}
use larmindon_core.Capture.Devices.{DeviceType, monitor, AudioDevice, IsSorted, of_type}
use larmindon_core.Capture.Cpal.{
  CpalHost, macos, cpal_device_id, parse_cpal_device_id, enumerate_devices, input_entry,
  output_entry, push_mono,
}
use larmindon_core.Capture.Cpal.Ids.{
  Chooses, parse_cpal_device_id-cpal_device_id, enumerate_devices-Chooses,
}
use larmindon_core.Capture.Cpal.Mixing.{WholeFrames, IsMixed, push_mono-Accounts}

parse_cpal_device_id-cpal_device_id_example :
    parse_cpal_device_id (cpal_device_id monitor (codes "input:x"))
    ≡ some (monitor, codes "input:x")
parse_cpal_device_id-cpal_device_id_example =
    parse_cpal_device_id-cpal_device_id monitor (codes "input:x") (λ e. cc)

abbrev host : CpalHost Text
host = record {
  input_devices = some (codes "a" ∷ [] ∷ codes "a" ∷ []);
  output_devices = some (codes "b" ∷ []);
  default_input_device = some (codes "a");
  default_output_device = none;
  name = λ d. ok d;
}

abbrev all_devices : List AudioDevice
all_devices =
    input_entry host (codes "a")
    ∷ input_entry host (codes "a")
    ∷ output_entry host macos (codes "b")
    ∷ []

enumerate_devices-Chooses_example : All (Chooses host) all_devices
unfolding enumerate_devices input_entry output_entry
enumerate_devices-Chooses_example = enumerate_devices-Chooses host macos all_devices refl

abbrev first : ℕ → List ℕ → ℕ
first n [] = 0
first n (x ∷ xs) = x

abbrev buffer : CaptureBuffer ℕ
buffer = record { samples = 1 ∷ []; capacity = 2; dropped_samples = 0 }

push_mono-Accounts_example :
    (mono : List ℕ) × (b' : CaptureBuffer ℕ) × (push_mono
        (λ x. x)
        first
        (2 ∷ 3 ∷ 4 ∷ 5 ∷ 6 ∷ [])
        2
        buffer
      ≡ some b')
    × WholeFrames (length mono) 2 5
    × IsMixed (λ x. x) first 2 (2 ∷ 3 ∷ 4 ∷ 5 ∷ 6 ∷ []) mono
    × Accounts b' ((1 ∷ []) ++ mono)
push_mono-Accounts_example =
    push_mono-Accounts (λ x. x) first (2 ∷ 3 ∷ 4 ∷ 5 ∷ 6 ∷ []) 2 buffer (1 ∷ []) (omega arith)
      (omega arith) (record { held = refl; counted = refl })

abbrev cpal : AudioCapture ℕ Text
cpal = record {
  enumerate_devices = λ c. (ok all_devices, c);
  start = λ id b flag c. (ok (id, 48000), c + 1);
}

abbrev wasapi : AudioCapture ℕ Text
wasapi = record {
  enumerate_devices = λ c. (err (codes "no COM"), c);
  start = λ id b flag c. (err id, c);
}

enumerate_devices-best_effort_example :
    ((e : Text)
      → (cpal.enumerate_devices 0).0 ≡ err e
      → (Composite.enumerate_devices cpal wasapi (0, 0)).0 ≡ err e)
    × ((devices : List AudioDevice)
        → (cpal.enumerate_devices 0).0 ≡ ok devices
        → (out : List AudioDevice) × ((Composite.enumerate_devices cpal wasapi (0, 0)).0 ≡ ok out)
          × IsSorted out
          × ((t : DeviceType)
              → of_type t out ≡ of_type t (devices ++ apps_or_none (wasapi.enumerate_devices 0).0)))
enumerate_devices-best_effort_example = enumerate_devices-best_effort cpal wasapi 0 0
