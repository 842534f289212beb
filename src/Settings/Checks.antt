-- ===== src/Settings/Checks.antt =====
-- src/settings.rs, `validate`. An `Invalid` stands for the message, with what it is formatted from.
use larmindon_core.Base.{
  ℕ, Bool, true, false, not, ◌&&◌, ◌||◌, List, [], ◌∷◌, Option, none, some, Result, ok, err,
  first_failure, ◌++◌, ltb, ◌==◌, if◌then◌else◌, is_empty,
}
use larmindon_core.Text.{Text, codes, text_eq, contains_text, is_blank}
use larmindon_core.Text.Parse.{strip_prefix}
use larmindon_core.Settings.{Host, Settings}

abbrev pub valid_chunk_ms : List ℕ
valid_chunk_ms = 80 ∷ 160 ∷ 560 ∷ 1120 ∷ []

abbrev pub valid_themes : List Text
valid_themes = codes "light" ∷ codes "dark" ∷ codes "system" ∷ []

-- With the feature asr-soniox, a default one.
abbrev pub valid_asr_providers : List Text
valid_asr_providers = codes "nemotron" ∷ codes "soniox" ∷ []

pub data Invalid (F : Type 0) : Type 0 where
  invalid_asr_provider : Text → Invalid F
  soniox_key_required : Invalid F
  invalid_chunk_ms : ℕ → Invalid F
  intra_threads_zero inter_threads_zero empty_reset_threshold_zero : Invalid F
  model_path_empty : Invalid F
  invalid_theme_mode : Text → Invalid F
  vad_threshold_start_range vad_threshold_end_range : F → Invalid F
  vad_thresholds_crossed : F → F → Invalid F
  diagnostics_db_path_empty : Invalid F
  cannot_create_parent : Text → Text → Invalid F
  agc_target_rms_dbfs_range agc_max_gain_db_range : F → Invalid F
  agc_attack_ms_range agc_release_ms_range : F → Invalid F

abbrev pub Verdict : Type 0 → Type 0
Verdict F = Result {0, 0} Unit (Invalid F)

-- `slice.contains(&n)`.
unfoldable pub contains_num : List ℕ → ℕ → Bool
contains_num [] n = false
contains_num (m ∷ ms) n = m == n || contains_num ms n

unfoldable pub session_checks : {F : Type 0} → Settings F → List (Bool × Invalid F)
unfolding contains_text contains_num is_blank text_eq
session_checks s =
    (not (contains_text valid_asr_providers s.asr_provider), invalid_asr_provider s.asr_provider)
    ∷ (text_eq s.asr_provider (codes "soniox") && is_blank s.soniox_api_key, soniox_key_required)
    ∷ (not (contains_num valid_chunk_ms s.chunk_ms), invalid_chunk_ms s.chunk_ms)
    ∷ (ltb s.intra_threads 1, intra_threads_zero)
    ∷ (ltb s.inter_threads 1, inter_threads_zero)
    ∷ (ltb s.empty_reset_threshold 1, empty_reset_threshold_zero)
    ∷ (is_blank s.model_path, model_path_empty)
    ∷ (not (contains_text valid_themes s.theme_mode), invalid_theme_mode s.theme_mode)
    ∷ []

module _ (h : Host) where
  -- `(lo..=hi).contains(&x)`.
  unfoldable pub in_range : h.F32 → h.F32 → h.F32 → Bool
  in_range lo hi x = h.le lo x && h.le x hi

  unfoldable pub vad_checks : Settings h.F32 → List (Bool × Invalid h.F32)
  unfolding in_range
  vad_checks s =
      (
        not (in_range (h.tenths 0) (h.tenths 10) s.vad_threshold_start),
        vad_threshold_start_range s.vad_threshold_start,
      )
      ∷ (
        not (in_range (h.tenths 0) (h.tenths 10) s.vad_threshold_end),
        vad_threshold_end_range s.vad_threshold_end,
      )
      ∷ (
        h.lt s.vad_threshold_start s.vad_threshold_end,
        vad_thresholds_crossed s.vad_threshold_start s.vad_threshold_end,
      )
      ∷ []

  unfoldable pub agc_checks : Settings h.F32 → List (Bool × Invalid h.F32)
  unfolding in_range
  agc_checks s =
      (
        not (in_range (h.neg (h.tenths 600)) (h.tenths 0) s.agc_target_rms_dbfs),
        agc_target_rms_dbfs_range s.agc_target_rms_dbfs,
      )
      ∷ (
        not (in_range (h.tenths 0) (h.tenths 600) s.agc_max_gain_db),
        agc_max_gain_db_range s.agc_max_gain_db,
      )
      ∷ (
        not (in_range (h.tenths 10) (h.tenths 10000) s.agc_attack_ms),
        agc_attack_ms_range s.agc_attack_ms,
      )
      ∷ (
        not (in_range (h.tenths 10) (h.tenths 50000) s.agc_release_ms),
        agc_release_ms_range s.agc_release_ms,
      )
      ∷ []

  -- The value of a variable that is set and not empty.
  abbrev not_empty : Option Text → Option Text
  not_empty none = none
  not_empty (some []) = none
  not_empty (some (c ∷ cs)) = some (c ∷ cs)

  unfoldable pub env_path : Text → Option Text
  env_path key = not_empty (h.var key)

  abbrev both : Option Text → Option Text → Option Text
  both (some drive) (some path) = some (drive ++ path)
  both _ _ = none

  abbrev or_else : Option Text → Option Text → Option Text
  or_else (some path) _ = some path
  or_else none other = other

  unfoldable pub home_dir : Option Text
  unfolding env_path
  home_dir = or_else (env_path (codes "HOME")) (
      or_else (env_path (codes "USERPROFILE"))
        (both (env_path (codes "HOMEDRIVE")) (env_path (codes "HOMEPATH"))))

  abbrev under_home : Text → Option Text → Option Text → Text
  under_home path (some stripped) (some home) = h.join home stripped
  under_home path _ _ = path

  unfoldable pub expand_tilde : Text → Text
  unfolding strip_prefix home_dir
  expand_tilde path = under_home path (strip_prefix (codes "~/") path) home_dir

  abbrev pub Checked : Type 0
  Checked = h.Disk × Verdict h.F32

  abbrev created : Text → h.Disk × Option Text → Checked
  created dir (d, none) = (d, ok tt)
  created dir (d, some e) = (d, err (cannot_create_parent dir e))

  unfoldable pub ensure_parent : Option Text → h.Disk → Checked
  ensure_parent none d = (d, ok tt)
  ensure_parent (some dir) d =
      if is_empty dir || h.path_exists d dir
      then (d, ok tt)
      else created dir (h.create_dir_all d dir)

  unfoldable pub check_diagnostics : Bool → Text → h.Disk → Checked
  unfolding expand_tilde ensure_parent is_blank
  check_diagnostics false path d = (d, ok tt)
  check_diagnostics true path d =
      if is_blank path
      then (d, err diagnostics_db_path_empty)
      else ensure_parent (h.parent (expand_tilde path)) d

  -- `?` and early returns: what follows runs where nothing has failed.
  abbrev pub and_then : Checked → (h.Disk → Checked) → Checked
  and_then (d, ok _) f = f d
  and_then (d, err e) f = (d, err e)

  unfoldable pub validate : Settings h.F32 → h.Disk → Checked
  unfolding session_checks vad_checks agc_checks check_diagnostics
  validate s d =
      and_then
        (and_then
          (and_then (d, first_failure (session_checks s)) (λ d. (d, first_failure (vad_checks s))))
          (check_diagnostics s.diagnostics_enabled s.diagnostics_db_path))
        (λ d. (d, first_failure (agc_checks s)))
