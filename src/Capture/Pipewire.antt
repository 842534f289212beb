-- ===== src/Capture/Pipewire.antt =====
-- src/audio_capture/pipewire.rs: the devices that a node of the audio server stands for, their
-- enumeration, and what `start` reads off an id. What the server calls back with, the keys of its
-- properties and the text of a u32 are parameters.

pub mod Listing
mod Tests
pub mod Watcher
pub mod Fallback
pub mod Stream
use larmindon_core.Base.{
  ℕ, ◌+◌, ◌^◌, Bool, true, false, Option, none, some, List, [], ◌∷◌, ◌++◌, ◌>>=◌, or_default, ◌==◌,
  if◌then◌else◌, Result, ok, err,
}
use larmindon_core.Text.{Text, codes, text_eq, opt_text_eq, trim}
use larmindon_core.Text.Parse.{strip_prefix, parse_unsigned}
use larmindon_core.Capture.Devices.{
  DeviceType, application, input, monitor, AudioDevice, same_type, or_else,
}

-- `DictRef::get`.
abbrev pub Props : Type 0
Props = Text → Option Text

pub record Server : Type 0 where
  pub media_class : Text
  pub node_name : Text
  pub node_description : Text
  pub to_string : ℕ → Text

-- What follows the first `key` of a text.
unfoldable pub after : Text → Text → Option Text
unfolding strip_prefix
after key [] = strip_prefix key []
after key (c ∷ cs) = or_else (strip_prefix key (c ∷ cs)) (after key cs)

-- What precedes the first `end` of a text.
unfoldable pub up_to : ℕ → Text → Option Text
up_to end [] = none
up_to end (c ∷ cs) =
    let rest = up_to end cs in if c == end then some [] else (rest >>= (λ t. some (c ∷ t)))

unfoldable pub parse_metadata_name : Text → Option Text
unfolding trim strip_prefix after up_to
parse_metadata_name json_value =
    let trimmed = trim json_value in
    strip_prefix (codes "{") trimmed
    >>= (λ _. after (codes "\"name\":\"") trimmed >>= (λ rest. up_to b'"' rest))

-- The media classes of the nodes that are devices.
unfoldable pub class_type : Text → Option DeviceType
unfolding text_eq
class_type c =
    if text_eq c (codes "Stream/Output/Audio")
    then some application
    else if text_eq c (codes "Audio/Source")
    then some input
    else if text_eq c (codes "Audio/Sink")
    then some monitor
    else none

module _ (server : Server) where
  abbrev pub node_id : ℕ → Props → Text
  node_id global_id props = or_default (props (codes "object.serial")) (server.to_string global_id)

  -- The property `key`, else the name of the node, else `unknown`.
  abbrev pub named : Props → Text → Text → Text
  named props key unknown = or_default (or_else (props key) (props server.node_name)) unknown

  unfoldable pub device_of : DeviceType → ℕ → Props → AudioDevice
  device_of application global_id props =
      let app_name = named props (codes "application.name") (codes "Unknown App") in
      record {
        id = node_id global_id props;
        name = codes "[app] " ++ app_name;
        device_type = application;
        is_default = false;
        application_name = some app_name;
      }
  device_of input global_id props =
      let desc = named props server.node_description (codes "Unknown Input") in
      record {
        id = node_id global_id props;
        name = codes "[in] " ++ desc;
        device_type = input;
        is_default = false;
        application_name = none;
      }
  device_of monitor global_id props =
      let desc = named props server.node_description (codes "Unknown Output") in
      record {
        id = node_id global_id props;
        name = codes "[out] Monitor of " ++ desc;
        device_type = monitor;
        is_default = false;
        application_name = none;
      }

  -- The type of the device that a node is, if it is one.
  abbrev pub type_of : Props → Option DeviceType
  type_of props = props server.media_class >>= class_type

  unfoldable pub device_from_props : ℕ → Props → Option AudioDevice
  unfolding class_type device_of
  device_from_props global_id props = type_of props >>= (λ t. some (device_of t global_id props))

pub record MonitorInfo : Type 0 where
  pub device : AudioDevice
  pub node_name : Text

-- What the registry reports: metadata, or another object with the properties it may have.
pub data GlobalObject : Type 0 where
  metadata : GlobalObject
  object : ℕ → Option Props → GlobalObject

pub record Found : Type 0 where
  pub apps : List AudioDevice
  pub inputs : List AudioDevice
  pub monitors : List MonitorInfo
  pub metadata_globals : ℕ

-- The same classes, in the listener's own match.
unfoldable pub listed_type : Text → Option DeviceType
unfolding text_eq
listed_type c =
    if text_eq c (codes "Stream/Output/Audio")
    then some application
    else if text_eq c (codes "Audio/Source")
    then some input
    else if text_eq c (codes "Audio/Sink")
    then some monitor
    else none

module _ (server : Server) where
  abbrev pub push_device : Option DeviceType → ℕ → Props → Found → Found
  push_device none global_id props f = f
  push_device (some application) global_id props f =
      let app_name = named server props (codes "application.name") (codes "Unknown App") in
      record f {
        apps =
            f.apps
            ++ (record {
              id = node_id server global_id props;
              name = codes "[app] " ++ app_name;
              device_type = application;
              is_default = false;
              application_name = some app_name;
            }
                ∷ []);
      }
  push_device (some input) global_id props f =
      let desc = named server props server.node_description (codes "Unknown Input") in
      record f {
        inputs =
            f.inputs
            ++ (record {
              id = node_id server global_id props;
              name = codes "[in] " ++ desc;
              device_type = input;
              is_default = false;
              application_name = none;
            }
                ∷ []);
      }
  push_device (some monitor) global_id props f =
      let desc = named server props server.node_description (codes "Unknown Output") in
      record f {
        monitors =
            f.monitors
            ++ (record {
              device = record {
                id = node_id server global_id props;
                name = codes "[out] Monitor of " ++ desc;
                device_type = monitor;
                is_default = false;
                application_name = none;
              };
              node_name = or_default (props server.node_name) [];
            }
                ∷ []);
      }

  -- The listener of the registry.
  unfoldable pub on_global : GlobalObject → Found → Found
  unfolding listed_type
  on_global metadata f = record f { metadata_globals = f.metadata_globals + 1 }
  on_global (object global_id none) f = f
  on_global (object global_id (some props)) f = push_device (type_of server props) global_id props f

  unfoldable pub collect : List GlobalObject → Found → Found
  unfolding on_global
  collect [] f = f
  collect (g ∷ gs) f = collect gs (on_global g f)

abbrev pub nothing : Found
nothing = record { apps = []; inputs = []; monitors = []; metadata_globals = 0 }

-- The listener of the metadata, for a property's key and value.
unfoldable pub on_property : Option Text × Option Text → Option Text → Option Text
unfolding parse_metadata_name opt_text_eq
on_property (key, value) default_sink_name =
    if opt_text_eq key (some (codes "default.audio.sink"))
    then or_else (value >>= parse_metadata_name) default_sink_name
    else default_sink_name

unfoldable pub default_sink : List (Option Text × Option Text) → Option Text → Option Text
unfolding on_property
default_sink [] name = name
default_sink (e ∷ es) name = default_sink es (on_property e name)

unfoldable pub mark_default : Option Text → List MonitorInfo → List AudioDevice
unfolding text_eq
mark_default none [] = []
mark_default none (i ∷ is) = i.device ∷ mark_default none is
mark_default (some name) [] = []
mark_default (some name) (i ∷ is) =
    let rest = mark_default (some name) is in
    (if text_eq i.node_name name then record i.device { is_default = true } else i.device) ∷ rest

-- `enumerate_devices_thread`, once the server is connected: metadata are asked for their properties
-- only if there are any.
unfoldable pub enumerate_devices_thread :
    Server → List GlobalObject → List (Option Text × Option Text) → List AudioDevice
unfolding collect default_sink mark_default
enumerate_devices_thread server globals properties =
    let found = collect server globals nothing in
    let default_name = if found.metadata_globals == 0 then none else default_sink properties none in
    found.apps ++ (found.inputs ++ mark_default default_name found.monitors)
