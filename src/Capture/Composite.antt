-- ===== src/Capture/Composite.antt =====
-- src/audio_capture/windows_composite.rs: two capture backends as one, over the states of both.
use larmindon_core.Base.{
  ℕ, ◌≡◌, ◌≢◌, refl, ap, Bool, true, false, Option, none, some, List, [], ◌++◌, Result, ok, err,
}
use larmindon_core.Text.{Text, codes}
use larmindon_core.Text.Parse.{strip_prefix}
use larmindon_core.Capture.Backend.{AudioCapture}
use larmindon_core.Capture.Cpal.{cpal_device_id}
use larmindon_core.Capture.Devices.{
  DeviceType, application, input, monitor, AudioDevice, sort_devices_by_priority, IsSorted, of_type,
  sort_devices_by_priority-sorts,
}

abbrev pub process_device_id_prefix : Text
process_device_id_prefix = codes "proc:"

abbrev is_some_rest : Option Text → Bool
is_some_rest none = false
is_some_rest (some _) = true

-- `id.starts_with(PROCESS_DEVICE_ID_PREFIX)`.
unfoldable pub is_process : Text → Bool
unfolding strip_prefix
is_process id = is_some_rest (strip_prefix process_device_id_prefix id)

abbrev pub apps_or_none : Result {0, 0} (List AudioDevice) Text → List AudioDevice
apps_or_none (ok apps) = apps
apps_or_none (err e) = []

module _ {C W Str : Type 0} (cpal : AudioCapture C Str) (wasapi : AudioCapture W Str) where
  abbrev with_apps :
      Result {0, 0} (List AudioDevice) Text × C
      → W
      → Result {0, 0} (List AudioDevice) Text × (C × W)
  with_apps (err e, c) w = (err e, (c, w))
  with_apps (ok devices, c) w =
      let (apps, w') = wasapi.enumerate_devices w in
      (ok (sort_devices_by_priority (devices ++ apps_or_none apps)), (c, w'))

  unfoldable pub enumerate_devices : C × W → Result {0, 0} (List AudioDevice) Text × (C × W)
  enumerate_devices (c, w) = with_apps (cpal.enumerate_devices c) w

  abbrev routed : Bool → Text → ℕ → ℕ → C × W → Result {0, 0} (Str × ℕ) Text × (C × W)
  routed true id buffer flag (c, w) =
      let (started, w') = wasapi.start id buffer flag w in (started, (c, w'))
  routed false id buffer flag (c, w) =
      let (started, c') = cpal.start id buffer flag c in (started, (c', w))

  unfoldable pub start : Text → ℕ → ℕ → C × W → Result {0, 0} (Str × ℕ) Text × (C × W)
  unfolding is_process
  start id buffer flag state = routed (is_process id) id buffer flag state

  -- The devices of CPAL are never hidden: where CPAL lists its devices, the composite lists them and
  -- those of WASAPI, none if that fails, sorted by type and each type in the given order; where CPAL
  -- fails, so does the composite, with its error.
  pub enumerate_devices-best_effort :
      (c : C) (w : W)
      → ((e : Text) → (cpal.enumerate_devices c).0 ≡ err e → (enumerate_devices (c, w)).0 ≡ err e)
        × ((devices : List AudioDevice)
            → (cpal.enumerate_devices c).0 ≡ ok devices
            → (out : List AudioDevice) × ((enumerate_devices (c, w)).0 ≡ ok out)
              × IsSorted out
              × ((t : DeviceType)
                  → of_type t out
                    ≡ of_type t (devices ++ apps_or_none (wasapi.enumerate_devices w).0)))
  unfolding enumerate_devices
  enumerate_devices-best_effort c w =
      let c' = (cpal.enumerate_devices c).1 in
      (
        λ e h. ap (λ r. (with_apps (r, c') w).0) h,
        λ devices h.
            let both = devices ++ apps_or_none (wasapi.enumerate_devices w).0 in
            let (sorted, same) = sort_devices_by_priority-sorts both in
            (sort_devices_by_priority both, ap (λ r. (with_apps (r, c') w).0) h, sorted, same),
      )

  -- An id that CPAL makes for a device goes to CPAL, and one that starts with `proc:` to WASAPI.
  pub start-routes :
      (t : DeviceType) (name pid : Text) (buffer flag : ℕ) (c : C) (w : W)
      → t ≢ application
      → ((start (cpal_device_id t name) buffer flag (c, w)).0
          ≡ (cpal.start (cpal_device_id t name) buffer flag c).0)
        × ((start (process_device_id_prefix ++ pid) buffer flag (c, w)).0
            ≡ (wasapi.start (process_device_id_prefix ++ pid) buffer flag w).0)
  unfolding start is_process cpal_device_id
  start-routes application name pid buffer flag c w h = absurd (h refl)
  start-routes input name pid buffer flag c w h = (refl, refl)
  start-routes monitor name pid buffer flag c w h = (refl, refl)
