-- ===== src/Capture/Cpal.antt =====
-- src/audio_capture/cpal.rs: device ids, the list of devices, the choice of the device of an id and the
-- mix of interleaved channels to mono. `CpalHost` is the library's host with devices of type `D`; a
-- list that it fails to give is `none`. The stream and its configuration are calls of the library.
pub mod Ids
pub mod Mixing
mod Tests
use larmindon_core.Base.{
  ℕ, zero, suc, ◌&&◌, Bool, true, false, not, Option, none, some, List, [], ◌∷◌, ◌++◌, ◌==◌, leb,
  if◌then◌else◌, ◌>>=◌, is_empty, length, take, drop, Result, ok, err, then_ok,
}
use larmindon_core.Text.{Text, codes, text_eq, opt_text_eq}
use larmindon_core.Text.Parse.{strip_prefix}
use larmindon_core.Capture.{CaptureBuffer, extend_samples}
use larmindon_core.Capture.Devices.{DeviceType, application, input, monitor, AudioDevice}

abbrev pub input_device_id_prefix : Text
input_device_id_prefix = codes "input:"

abbrev pub output_device_id_prefix : Text
output_device_id_prefix = codes "output:"

unfoldable pub cpal_device_id : DeviceType → Text → Text
cpal_device_id input raw_name = input_device_id_prefix ++ raw_name
cpal_device_id monitor raw_name = output_device_id_prefix ++ raw_name
cpal_device_id application raw_name = raw_name

abbrev pub output_or_none : Option Text → Option (DeviceType × Text)
output_or_none none = none
output_or_none (some raw_name) = some (monitor, raw_name)

abbrev pub input_or : Option Text → Option (DeviceType × Text) → Option (DeviceType × Text)
input_or none other = other
input_or (some raw_name) other = some (input, raw_name)

unfoldable pub parse_cpal_device_id : Text → Option (DeviceType × Text)
unfolding strip_prefix
parse_cpal_device_id id =
    input_or (strip_prefix input_device_id_prefix id)
      (output_or_none (strip_prefix output_device_id_prefix id))

pub record CpalHost (D : Type 0) : Type 0 where
  pub input_devices : Option (List D)
  pub output_devices : Option (List D)
  pub default_input_device : Option D
  pub default_output_device : Option D
  pub name : D → Result {0, 0} Text Text

-- The system that the code is built for, of which two list output devices.
pub data Platform : Type 0 where
  linux macos windows : Platform

abbrev pub lists_outputs : Platform → Bool
lists_outputs linux = false
lists_outputs macos = true
lists_outputs windows = true

abbrev pub is_macos : Platform → Bool
is_macos linux = false
is_macos macos = true
is_macos windows = false

abbrev pub devices_or_none : {D : Type 0} → Option (List D) → List D
devices_or_none none = []
devices_or_none (some ds) = ds

module _ {D : Type 0} (host : CpalHost D) where
  abbrev ok_name : Result {0, 0} Text Text → Option Text
  ok_name (ok name) = some name
  ok_name (err e) = none

  abbrev name_of : Option D → Option Text
  name_of none = none
  name_of (some d) = ok_name (host.name d)

  abbrev entry : DeviceType → Text → Text → Bool → AudioDevice
  entry device_type label raw_name is_default = record {
    id = cpal_device_id device_type raw_name;
    name = label ++ raw_name;
    device_type = device_type;
    is_default = is_default;
    application_name = none;
  }

  abbrev pub listed : (Text → AudioDevice) → Text → List AudioDevice → List AudioDevice
  listed make raw_name rest = if is_empty raw_name then rest else make raw_name ∷ rest

  abbrev name_error : Text → Text
  name_error e = codes "Failed to get device name: " ++ e

  abbrev pub listed_first :
      (Text → AudioDevice)
      → Result {0, 0} Text Text
      → Result {0, 0} (List AudioDevice) Text
      → Result {0, 0} (List AudioDevice) Text
  listed_first make (ok raw_name) rest = then_ok rest (λ ds. ok (listed make raw_name ds))
  listed_first make (err e) rest = err (name_error e)

  -- One of the two loops.
  unfoldable pub list_devices :
      (Text → AudioDevice) → List D → Result {0, 0} (List AudioDevice) Text
  unfolding cpal_device_id
  list_devices make [] = ok []
  list_devices make (d ∷ ds) = listed_first make (host.name d) (list_devices make ds)

  unfoldable pub input_entry : Text → AudioDevice
  unfolding cpal_device_id opt_text_eq
  input_entry raw_name =
      entry input (codes "[in] ") raw_name
        (opt_text_eq (name_of host.default_input_device) (some raw_name))

  unfoldable pub output_entry : Platform → Text → AudioDevice
  unfolding cpal_device_id opt_text_eq
  output_entry platform raw_name =
      entry monitor (codes "[out] ") raw_name
        (is_macos platform && opt_text_eq (name_of host.default_output_device) (some raw_name))

  unfoldable pub enumerate_devices : Platform → Result {0, 0} (List AudioDevice) Text
  unfolding list_devices input_entry output_entry
  enumerate_devices platform =
      then_ok (list_devices input_entry (devices_or_none host.input_devices)) λ inputs.
        then_ok
          (if lists_outputs platform
            then list_devices (output_entry platform) (devices_or_none host.output_devices)
            else ok [])
          λ outputs. ok (inputs ++ outputs)

  abbrev pub is_named : Result {0, 0} Text Text → Text → Bool
  is_named (ok name) raw_name = text_eq name raw_name
  is_named (err e) raw_name = false

  unfoldable pub device_name_matches : D → Text → Bool
  unfolding text_eq
  device_name_matches d raw_name = is_named (host.name d) raw_name

  unfoldable pub find_device : Text → List D → Option D
  unfolding device_name_matches
  find_device raw_name [] = none
  find_device raw_name (d ∷ ds) =
      let rest = find_device raw_name ds in if device_name_matches d raw_name then some d else rest

  -- The device, and whether it is an output.
  abbrev pub Choice : Type 0
  Choice = Result {0, 0} (D × Bool) Text

  abbrev pub or_error : Bool → Text → Option D → Result {0, 0} (D × Bool) Text
  or_error is_output message (some d) = ok (d, is_output)
  or_error is_output message none = err message

  abbrev pub input_first : Text → Option D → Option D → Result {0, 0} (D × Bool) Text
  input_first message (some d) other = ok (d, false)
  input_first message none other = or_error true message other

  abbrev find_input : Text → Option D
  find_input raw_name = find_device raw_name (devices_or_none host.input_devices)

  abbrev find_output : Text → Option D
  find_output raw_name = find_device raw_name (devices_or_none host.output_devices)

  -- By what the id is parsed to; one without a prefix is a name from before there were any.
  unfoldable pub choose : Text → Option (DeviceType × Text) → Result {0, 0} (D × Bool) Text
  unfolding find_device
  choose id (some (input, raw_name)) =
      or_error false (codes "No input device found with ID: " ++ id) (find_input raw_name)
  choose id (some (monitor, raw_name)) =
      or_error true (codes "No output device found with ID: " ++ id) (find_output raw_name)
  choose id (some (application, _)) =
      err (codes "CPAL does not support application device ID: " ++ id)
  choose id none =
      input_first (codes "No device found with ID: " ++ id) (find_input id) (find_output id)

  unfoldable pub choose_device : Option Text → Result {0, 0} (D × Bool) Text
  unfolding choose parse_cpal_device_id
  choose_device (some id) = choose id (parse_cpal_device_id id)
  choose_device none =
      or_error false (codes "No default input device found") host.default_input_device

module _ {T F : Type 0} (convert : T → F) (average : ℕ → List F → F) where
  unfoldable pub map_samples : List T → List F
  map_samples [] = []
  map_samples (x ∷ xs) = convert x ∷ map_samples xs

  -- `chunks_exact`, mixed: `average n` is the sum of a frame over `n`. The fuel is the data's length.
  unfoldable pub mix_frames : ℕ → ℕ → List T → List F
  unfolding map_samples
  mix_frames channels zero data_ = []
  mix_frames channels (suc fuel) data_ =
      let rest = mix_frames channels fuel (drop channels data_) in
      if leb channels (length data_)
      then average channels (map_samples (take channels data_)) ∷ rest
      else []

  -- `none` is the panic of `chunks_exact(0)`.
  unfoldable pub downmix : ℕ → List T → Option (List F)
  unfolding mix_frames map_samples
  downmix channels data_ =
      if channels == 0
      then none
      else some
          (if channels == 1 then map_samples data_ else mix_frames channels (length data_) data_)

  -- `push_mono_f32` and, with a conversion of the samples, `push_mono_convert`.
  unfoldable pub push_mono : List T → ℕ → CaptureBuffer F → Option (CaptureBuffer F)
  unfolding downmix extend_samples
  push_mono data_ channels b = downmix channels data_ >>= λ mono. some (extend_samples b mono)
