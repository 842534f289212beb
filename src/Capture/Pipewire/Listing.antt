-- ===== src/Capture/Pipewire/Listing.antt =====
-- src/audio_capture/pipewire.rs: the enumeration against `device_from_props`, which the watcher uses.
use larmindon_core.Base.{◌≡◌, Option, none, some, List, [], ◌∷◌, ◌++◌}
use larmindon_core.Text.{Text}
use larmindon_core.Capture.Devices.{application, input, monitor, AudioDevice, of_type}
use larmindon_core.Capture.Pipewire.{
  Server, device_from_props, MonitorInfo, GlobalObject, metadata, object, Found,
}

abbrev listed : Option AudioDevice → List AudioDevice
listed none = []
listed (some d) = d ∷ []

-- The devices that `device_from_props` makes of what the registry reports, in order.
unfoldable pub devices_of : Server → List GlobalObject → List AudioDevice
unfolding device_from_props
devices_of server [] = []
devices_of server (metadata ∷ gs) = devices_of server gs
devices_of server (object id none ∷ gs) = devices_of server gs
devices_of server (object id (some props) ∷ gs) =
    listed (device_from_props server id props) ++ devices_of server gs

abbrev unmarked : List MonitorInfo → List AudioDevice
unmarked [] = []
unmarked (i ∷ is) = i.device ∷ unmarked is

-- `f'` has the devices of `ds` after those of `f`, by type.
record Adds (ds : List AudioDevice) (f f' : Found) : Type 0 where
  apps : f'.apps ≡ f.apps ++ of_type application ds
  inputs : f'.inputs ≡ f.inputs ++ of_type input ds
  monitors : unmarked f'.monitors ≡ unmarked f.monitors ++ of_type monitor ds
