-- ===== src/Settings/Tests.antt =====
-- The settings at concrete input: numbers in tenths with a sign, and a disk of files.
use larmindon_core.Base.{
  ℕ, ◌≡◌, ◌≤◌, refl, ap, subst, Bool, true, false, Option, none, some, [], ◌++◌, ok, leb, ltb,
  if◌then◌else◌,
}
use larmindon_core.Text.{Text, codes, text_eq, text_eq_iff}
use larmindon_core.Settings.{Host, Settings, chunk_ms_to_samples}
use larmindon_core.Settings.Checks.{validate}
use larmindon_core.Settings.Overrides.{with_env_overrides}
use larmindon_core.Settings.File.{Json, default, load, save}
use larmindon_core.Settings.Valid.{with_env_overrides-valid}
use larmindon_core.Settings.Stored.{save-load, with_env_overrides-bounds}

data Tenths : Type 0 where
  plus minus : ℕ → Tenths

abbrev le : Tenths → Tenths → Bool
le (plus a) (plus b) = leb a b
le (plus a) (minus b) = false
le (minus a) (plus b) = true
le (minus a) (minus b) = leb b a

abbrev lt : Tenths → Tenths → Bool
lt (plus a) (plus b) = ltb a b
lt (plus a) (minus b) = false
lt (minus a) (plus b) = true
lt (minus a) (minus b) = ltb b a

abbrev neg : Tenths → Tenths
neg (plus a) = minus a
neg (minus a) = plus a

-- The last file written, and its path.
abbrev Disk : Type 0
Disk = Option (Text × Text)

abbrev read : Disk → Text → Option Text
read none path = none
read (some (p, text)) path = if text_eq p path then some text else none

abbrev var : Text → Option Text
var name =
    if text_eq name (codes "HOME")
    then some (codes "/home/u")
    else (if text_eq name (codes "CHUNK_MS")
        then some (codes "1120")
        else (if text_eq name (codes "INTRA_THREADS") then some (codes "0") else none))

abbrev host : Host
host = record {
  F32 = Tenths;
  lt = lt;
  le = le;
  tenths = plus;
  neg = neg;
  Disk = Disk;
  path_exists = λ d path. true;
  create_dir_all = λ d path. (d, none);
  read_to_string = read;
  write = λ d path text. (some (path, text), none);
  var = var;
  join = λ a b. a ++ (codes "/" ++ b);
  parent = λ path. none;
}

abbrev chosen : Settings Tenths
chosen = record {
  asr_provider = codes "soniox";
  model_path = codes "m";
  chunk_ms = 560;
  intra_threads = 2;
  inter_threads = 1;
  punctuation_reset = true;
  empty_reset_threshold = 6;
  font_family = [];
  font_size_px = 0;
  theme_mode = codes "dark";
  vad_threshold_start = plus 5;
  vad_threshold_end = plus 3;
  diagnostics_enabled = true;
  diagnostics_db_path = codes "~/d";
  agc_enabled = false;
  agc_target_rms_dbfs = minus 200;
  agc_max_gain_db = plus 300;
  agc_attack_ms = plus 200;
  agc_release_ms = plus 4000;
  soniox_api_key = codes "k";
  soniox_model = codes "stt-rt-v5";
  soniox_language_hints = codes "en";
  soniox_diarization = true;
  soniox_endpoint_detection = false;
}

abbrev json : Json Tenths
json = record { to_string_pretty = λ s. ok (codes "{}"); from_str = λ text. some chosen }

read-write :
    (d₁ d₂ : Disk) (path text : Text)
    → host.write d₁ path text ≡ (d₂, none)
    → host.read_to_string d₂ path ≡ some text
read-write d₁ d₂ path text e =
    let same : text_eq path path ≡ true = (text_eq_iff path path).1 refl in
    subst (λ d. read d path ≡ some text) (ap (λ r. r.0) e) (rw same)

saved : Disk
unfolding save
saved = (save host json chosen none).0

save-load_example : load host json saved ≡ chosen
unfolding save validate saved
save-load_example = save-load host json chosen none saved read-write (λ text e. refl) refl

default_runs : (validate host (default host) none).1 ≡ ok tt
unfolding validate default
default_runs = refl

overridden_runs : (with_env_overrides host chosen).chunk_ms ≡ 1120
unfolding with_env_overrides
overridden_runs = refl

with_env_overrides-valid_example :
    validate host (with_env_overrides host chosen) none ≡ validate host chosen none
unfolding validate
with_env_overrides-valid_example = with_env_overrides-valid host chosen none refl

with_env_overrides-bounds_example :
    (1280 ≤ chunk_ms_to_samples (with_env_overrides host chosen).chunk_ms)
    × (chunk_ms_to_samples (with_env_overrides host chosen).chunk_ms ≤ 17920)
    × (1 ≤ (with_env_overrides host chosen).intra_threads)
    × (1 ≤ (with_env_overrides host chosen).inter_threads)
unfolding validate
with_env_overrides-bounds_example = with_env_overrides-bounds host chosen none refl
