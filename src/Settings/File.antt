-- ===== src/Settings/File.antt =====
-- src/settings.rs: the defaults, `load` and `save`. The JSON of serde is a parameter.
use larmindon_core.Base.{true, false, Option, none, some, [], Result, ok, err}
use larmindon_core.Text.{Text, codes}
use larmindon_core.Settings.{Host, Settings}
use larmindon_core.Settings.Checks.{Invalid, Checked, home_dir, validate}

pub data SaveError (F : Type 0) : Type 0 where
  invalid : Invalid F → SaveError F
  cannot_create_config_dir : Text → Text → SaveError F
  cannot_serialize : Text → SaveError F
  cannot_write : Text → Text → SaveError F

module _ (h : Host) where
  abbrev under_config : Option Text → Text
  under_config (some home) = h.join (h.join home (codes ".config")) (codes "larmindon")
  under_config none = h.join (codes ".config") (codes "larmindon")

  unfoldable pub config_dir : Text
  unfolding home_dir
  config_dir = under_config (home_dir h)

  unfoldable pub settings_path : Text
  unfolding config_dir
  settings_path = h.join config_dir (codes "settings.json")

  unfoldable pub default_diag_db_path : Text
  unfolding config_dir
  default_diag_db_path = h.join config_dir (codes "larmindon_diag.sqlite")

  unfoldable pub default : Settings h.F32
  unfolding default_diag_db_path
  default = record {
    asr_provider = codes "nemotron";
    model_path = codes "~/projects/prs-nemotron/";
    chunk_ms = 560;
    intra_threads = 2;
    inter_threads = 1;
    punctuation_reset = true;
    empty_reset_threshold = 6;
    font_family = [];
    font_size_px = 0;
    theme_mode = codes "dark";
    vad_threshold_start = h.tenths 5;
    vad_threshold_end = h.tenths 3;
    diagnostics_enabled = false;
    diagnostics_db_path = default_diag_db_path;
    agc_enabled = false;
    agc_target_rms_dbfs = h.neg (h.tenths 200);
    agc_max_gain_db = h.tenths 300;
    agc_attack_ms = h.tenths 200;
    agc_release_ms = h.tenths 4000;
    soniox_api_key = [];
    soniox_model = codes "stt-rt-v5";
    soniox_language_hints = codes "en";
    soniox_diarization = true;
    soniox_endpoint_detection = false;
  }

-- `to_string_pretty` and `from_str` of serde_json, on the settings.
pub record Json (F : Type 0) : Type 0 where
  pub to_string_pretty : Settings F → Result Text Text
  pub from_str : Text → Option (Settings F)

module _ (h : Host) (json : Json h.F32) where
  abbrev pub parsed_or_default : Option (Settings h.F32) → Settings h.F32
  parsed_or_default (some s) = s
  parsed_or_default none = default h

  abbrev pub read_or_default : Option Text → Settings h.F32
  read_or_default (some contents) = parsed_or_default (json.from_str contents)
  read_or_default none = default h

  unfoldable pub load : h.Disk → Settings h.F32
  unfolding settings_path default
  load d = read_or_default (h.read_to_string d (settings_path h))

  abbrev pub Saved : Type 0
  Saved = h.Disk × Result Unit (SaveError h.F32)

  abbrev pub written : h.Disk × Option Text → Saved
  written (d, none) = (d, ok tt)
  written (d, some e) = (d, err (cannot_write (settings_path h) e))

  abbrev pub write_json : Result Text Text → h.Disk → Saved
  write_json (ok text) d = written (h.write d (settings_path h) text)
  write_json (err e) d = (d, err (cannot_serialize e))

  abbrev pub in_config_dir : Settings h.F32 → h.Disk × Option Text → Saved
  in_config_dir s (d, none) = write_json (json.to_string_pretty s) d
  in_config_dir s (d, some e) = (d, err (cannot_create_config_dir (config_dir h) e))

  abbrev pub if_valid : Settings h.F32 → Checked h → Saved
  if_valid s (d, ok _) = in_config_dir s (h.create_dir_all d (config_dir h))
  if_valid s (d, err e) = (d, err (invalid e))

  unfoldable pub save : Settings h.F32 → h.Disk → Saved
  unfolding validate config_dir settings_path
  save s d = if_valid s (validate h s d)
