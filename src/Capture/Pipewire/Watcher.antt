-- ===== src/Capture/Pipewire/Watcher.antt =====
-- src/audio_capture/pipewire.rs: the watcher's listener of the registry. Its map is an association
-- list with a key once; the order in which `values` gives the entries is a parameter. `device_id` is
-- that of the session's information.
use larmindon_core.Base.{
  ℕ, Option, none, some, List, [], ◌∷◌, ◌++◌, ◌==◌, Bool, true, ◌&&◌, if◌then◌else◌,
}
use larmindon_core.Text.{Text, codes, text_eq, opt_text_eq}
use larmindon_core.Capture.Devices.{monitor, AudioDevice, same_type, sort_devices_by_priority}
use larmindon_core.Capture.Pipewire.{Props, Server, device_from_props}

pub record DeviceEntry : Type 0 where
  pub device : AudioDevice
  pub node_name : Option Text

abbrev pub DeviceMap : Type 0
DeviceMap = List (ℕ × DeviceEntry)

unfoldable pub remove_id : ℕ → DeviceMap → DeviceMap
remove_id id [] = []
remove_id id ((k, e) ∷ m) = let rest = remove_id id m in if k == id then rest else (k, e) ∷ rest

unfoldable pub lookup : ℕ → DeviceMap → Option DeviceEntry
lookup id [] = none
lookup id ((k, e) ∷ m) = let rest = lookup id m in if k == id then some e else rest

abbrev pub insert : ℕ → DeviceEntry → DeviceMap → DeviceMap
insert id e m = (id, e) ∷ remove_id id m

unfoldable pub entries : DeviceMap → List DeviceEntry
entries [] = []
entries ((k, e) ∷ m) = e ∷ entries m

-- `Iterator::find`.
unfoldable pub find_entry : (DeviceEntry → Bool) → List DeviceEntry → Option DeviceEntry
find_entry p [] = none
find_entry p (e ∷ es) = let rest = find_entry p es in if p e then some e else rest

-- What the watcher sends: a command to the engine, an event to the UI.
pub data Sent : Type 0 where
  reconnect : Text → Sent
  devices_changed : List AudioDevice → Sent

pub record Watcher : Type 0 where
  pub devices : DeviceMap
  pub default_sink_name : Option Text
  pub devices_cache : List AudioDevice
  pub device_id : Option Text

-- A monitor that is the default sink's is marked, where both names are known.
abbrev pub mark : Option Text → DeviceEntry → AudioDevice
mark none e = e.device
mark (some dn) e = mark_named dn e.node_name e.device
  where
    mark_named : Text → Option Text → AudioDevice → AudioDevice
    mark_named dn none dev = dev
    mark_named dn (some nn) dev =
        if same_type dev.device_type monitor && text_eq nn dn
        then record dev { is_default = true }
        else dev

unfoldable pub mark_all : Option Text → List DeviceEntry → List AudioDevice
mark_all name [] = []
mark_all name (e ∷ es) = mark name e ∷ mark_all name es

abbrev pub is_monitor : DeviceEntry → Bool
is_monitor e = same_type e.device.device_type monitor

abbrev pub or_entry : Option DeviceEntry → Option DeviceEntry → Option DeviceEntry
or_entry none o = o
or_entry (some e) o = some e

abbrev pub reconnect_to : Option DeviceEntry → List Sent
reconnect_to none = []
reconnect_to (some e) = reconnect e.device.id ∷ []

module _ (values : DeviceMap → List DeviceEntry) where
  unfoldable pub emit_devices_changed : Watcher → Watcher × List Sent
  unfolding mark_all
  emit_devices_changed w =
      let device_list =
        sort_devices_by_priority (mark_all w.default_sink_name (values w.devices)) in
      (record w { devices_cache = device_list }, devices_changed device_list ∷ [])

  -- The listener for an object with properties.
  abbrev pub insert_device_entry : ℕ → Props → Option AudioDevice → Watcher → Watcher × List Sent
  insert_device_entry id props none w = (w, [])
  insert_device_entry id props (some device) w = emit_devices_changed (record w {
    devices =
        insert id (record { device = device; node_name = props (codes "node.name") }) w.devices;
  })

  unfoldable pub global : Server → ℕ → Option Props → Watcher → Watcher × List Sent
  global server id none w = (w, [])
  global server id (some props) w =
      insert_device_entry id props (device_from_props server id props) w

  -- A monitor of the default sink, or any.
  unfoldable pub default_monitor : Option Text → DeviceMap → Option DeviceEntry
  unfolding find_entry opt_text_eq
  default_monitor default_name m =
      or_entry (find_entry (λ e. is_monitor e && opt_text_eq default_name e.node_name) (values m))
        (find_entry is_monitor (values m))

  abbrev pub fall_back : Option DeviceEntry → Watcher → List Sent
  fall_back none w = []
  fall_back (some entry) w =
      if opt_text_eq w.device_id (some entry.device.id)
      then reconnect_to (default_monitor w.default_sink_name w.devices)
      else []

  unfoldable pub global_remove : ℕ → Watcher → Watcher × List Sent
  unfolding default_monitor lookup remove_id emit_devices_changed
  global_remove id w =
      let removed = lookup id w.devices in
      let w₁ : Watcher = record w { devices = remove_id id w.devices } in
      let (w₂, changed) = emit_devices_changed w₁ in (w₂, fall_back removed w₁ ++ changed)
