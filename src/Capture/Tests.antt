-- ===== src/Capture/Tests.antt =====
-- The capture buffer and the device list at concrete input, and the theorems at them.
use larmindon_core.Base.{ℕ, refl, false, none, List, [], ◌∷◌, ◌++◌, arith}
use larmindon_core.Text.{codes}
use larmindon_core.Capture.{CaptureBuffer, extend_samples, set_capacity}
use larmindon_core.Capture.Bounded.{Accounts, extend_samples-Accounts, set_capacity-Accounts}
use larmindon_core.Capture.Devices.{DeviceType, application, input, monitor, AudioDevice}

-- Three samples into a buffer of two.
abbrev full : CaptureBuffer ℕ
full = record { samples = 2 ∷ 3 ∷ []; capacity = 2; dropped_samples = 1 }

full-Accounts : Accounts full (1 ∷ 2 ∷ 3 ∷ [])
full-Accounts = record { held = refl; counted = refl }

extend_samples-Accounts_example :
    Accounts (extend_samples full (4 ∷ 5 ∷ [])) ((1 ∷ 2 ∷ 3 ∷ []) ++ (4 ∷ 5 ∷ []))
extend_samples-Accounts_example =
    extend_samples-Accounts (4 ∷ 5 ∷ []) full (1 ∷ 2 ∷ 3 ∷ []) (omega arith) full-Accounts

set_capacity-Accounts_example : Accounts (set_capacity full 1) (1 ∷ 2 ∷ 3 ∷ [])
set_capacity-Accounts_example =
    set_capacity-Accounts full (1 ∷ 2 ∷ 3 ∷ []) 1 (omega arith) (omega arith) full-Accounts

abbrev device : DeviceType → AudioDevice
device device_type = record {
  id = codes "d";
  name = codes "Device";
  device_type = device_type;
  is_default = false;
  application_name = none;
}

abbrev devices : List AudioDevice
devices = device monitor ∷ device application ∷ device input ∷ device application ∷ []
