-- ===== src/Capture/Pipewire/Tests.antt =====
-- PipeWire at concrete input: a server with a sink, and a watcher that has it and an application.
use larmindon_core.Base.{◌≡◌, refl, none, some, List, [], ◌∷◌, if◌then◌else◌}
use larmindon_core.Text.{Text, codes, text_eq}
use larmindon_core.Capture.Devices.{AudioDevice, application, monitor}
use larmindon_core.Capture.Pipewire.{
  Props, Server, device_of, GlobalObject, metadata, object, parse_metadata_name,
}
use larmindon_core.Capture.Pipewire.Watcher.{
  DeviceEntry, DeviceMap, remove_id, entries, lookup, Watcher, global_remove,
}
use larmindon_core.Capture.Pipewire.Fallback.{reconnects, Reaches, global_remove-falls_back}

abbrev server : Server
server = record {
  media_class = codes "media.class";
  node_name = codes "node.name";
  node_description = codes "node.description";
  to_string = λ id. b'0' ∷ [];
}

abbrev props_of : Text → Text → Props
props_of class name key =
    if text_eq key server.media_class
    then some class
    else if text_eq key server.node_name
    then some name
    else none

abbrev sink : Props
sink = props_of (codes "Audio/Sink") (codes "speakers")

abbrev globals : List GlobalObject
globals =
    object 5 (some sink)
    ∷ metadata
    ∷ object 6 (some (props_of (codes "Stream/Output/Audio") (codes "player")))
    ∷ object 7 none
    ∷ []

parse_metadata_name_runs :
    parse_metadata_name (codes " {\"name\":\"alsa_output\"} ") ≡ some (codes "alsa_output")
unfolding parse_metadata_name
parse_metadata_name_runs = refl

parse_metadata_name_spaced : parse_metadata_name (codes "{ \"name\": \"alsa_output\" }") ≡ none
unfolding parse_metadata_name
parse_metadata_name_spaced = refl

abbrev player : AudioDevice
player = device_of server application 6 (props_of (codes "Stream/Output/Audio") (codes "player"))

abbrev player_entry : DeviceEntry
player_entry = record { device = player; node_name = some (codes "player") }

abbrev map : DeviceMap
map =
    (6, player_entry)
    ∷ (5, record { device = device_of server monitor 5 sink; node_name = some (codes "speakers") })
    ∷ []

abbrev watcher : Watcher
watcher = record {
  devices = map;
  default_sink_name = none;
  devices_cache = [];
  device_id = some player.id;
}

global_remove-falls_back_example :
    Reaches (entries (remove_id 6 map)) (reconnects (global_remove entries 6 watcher).1)
unfolding lookup
global_remove-falls_back_example =
    global_remove-falls_back entries (λ p m. refl) 6 watcher player_entry refl refl
