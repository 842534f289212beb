-- ===== src/Settings/Stored.antt =====
-- src/settings.rs: `save`, then `load` and `with_env_overrides`, as at the next start of the program.
use larmindon_core.Base.{
  ℕ, ◌≤◌, ◌≡◌, ◌⊎◌, refl, ap, ◌∙◌, Bool, true, false, Option, none, some, arith, Result, ok, err,
  not, inl, inr,
}
use larmindon_core.Text.{Text}
use larmindon_core.Settings.{Host, Settings, chunk_ms_to_samples}
use larmindon_core.Settings.Checks.{Checked, session_checks, validate, valid_chunk_ms, contains_num}
use larmindon_core.Settings.Overrides.{with_env_overrides}
use larmindon_core.Settings.File.{
  Json, load, save, settings_path, config_dir, parsed_or_default, read_or_default, written,
  write_json, in_config_dir, if_valid,
}
use larmindon_core.Settings.Valid.{validate-session, with_env_overrides-valid}

module _ (h : Host) (json : Json h.F32) where
  if_valid-ok :
      (s : Settings h.F32) (c : Checked h) (d' : h.Disk)
      → if_valid h json s c ≡ (d', ok tt)
      → (c.1 ≡ ok tt) × (in_config_dir h json s (h.create_dir_all c.0 (config_dir h)) ≡ (d', ok tt))
  if_valid-ok s (d, ok _) d' e = (refl, e)
  if_valid-ok s (d, err x) d' e = cc

  in_config_dir-ok :
      (s : Settings h.F32) (r : h.Disk × Option Text) (d' : h.Disk)
      → in_config_dir h json s r ≡ (d', ok tt)
      → write_json h json (json.to_string_pretty s) r.0 ≡ (d', ok tt)
  in_config_dir-ok s (d, none) d' e = e
  in_config_dir-ok s (d, some x) d' e = cc

  write_json-ok :
      (r : Result Text Text) (d d' : h.Disk)
      → write_json h json r d ≡ (d', ok tt)
      → (text : Text) × (r ≡ ok text)
        × (written h json (h.write d (settings_path h) text) ≡ (d', ok tt))
  write_json-ok (ok text) d d' e = (text, refl, e)
  write_json-ok (err x) d d' e = cc

  written-ok :
      (r : h.Disk × Option Text) (d' : h.Disk) → written h json r ≡ (d', ok tt) → r ≡ (d', none)
  written-ok (d, none) d' e = ap (λ c. (c.0, none)) e
  written-ok (d, some x) d' e = cc

  -- A save that succeeds has validated the settings, and has written their JSON as the file.
  save-writes :
      (s : Settings h.F32) (d d' : h.Disk)
      → save h json s d ≡ (d', ok tt)
      → ((validate h s d).1 ≡ ok tt)
        × (text : Text) × (d₁ : h.Disk) × (json.to_string_pretty s ≡ ok text)
        × (h.write d₁ (settings_path h) text ≡ (d', none))
  unfolding save
  save-writes s d d' e =
      let (valid, e₁) = if_valid-ok s (validate h s d) d' e in
      let made = h.create_dir_all (validate h s d).0 (config_dir h) in
      let e₂ = in_config_dir-ok s made d' e₁ in
      let (text, is_json, e₃) = write_json-ok (json.to_string_pretty s) made.0 d' e₂ in
      (valid, text, made.0, is_json, written-ok (h.write made.0 (settings_path h) text) d' e₃)

  -- Settings that `save` has accepted are what `load` returns: for every settings and disk, where
  -- what a write puts into a file is read back, and where the JSON of those settings is parsed to them.
  pub save-load :
      (s : Settings h.F32) (d d' : h.Disk)
      → (read-write : (d₁ d₂ : h.Disk) (path text : Text)
          → h.write d₁ path text ≡ (d₂, none)
          → h.read_to_string d₂ path ≡ some text)
      → (from_str-to_string : (text : Text)
          → json.to_string_pretty s ≡ ok text
          → json.from_str text ≡ some s)
      → save h json s d ≡ (d', ok tt)
      → load h json d' ≡ s
  unfolding load
  save-load s d d' read-write from_str-to_string e =
      let (_, text, d₁, is_json, wrote) = save-writes s d d' e in
      ap (read_or_default h json) (read-write d₁ d' (settings_path h) text wrote)
      ∙ ap (parsed_or_default h json) (from_str-to_string text is_json)

valid_chunk :
    (ms : ℕ)
    → contains_num valid_chunk_ms ms ≡ true
    → (ms ≡ 80) ⊎ ((ms ≡ 160) ⊎ ((ms ≡ 560) ⊎ (ms ≡ 1120)))
unfolding contains_num
valid_chunk ms e = ground (arith, e)

chunk-bounds :
    (ms : ℕ)
    → contains_num valid_chunk_ms ms ≡ true
    → (1280 ≤ chunk_ms_to_samples ms) × (chunk_ms_to_samples ms ≤ 17920)
unfolding chunk_ms_to_samples
chunk-bounds ms e = elim (valid_chunk ms e) [
  | inl e₁ ↦ (omega arith, omega arith)
  | inr (inl e₂) ↦ (omega arith, omega arith)
  | inr (inr (inl e₃)) ↦ (omega arith, omega arith)
  | inr (inr (inr e₄)) ↦ (omega arith, omega arith)
]

holds_by_not : (b : Bool) → not b ≡ false → b ≡ true
holds_by_not true e = refl
holds_by_not false e = cc

module _ (h : Host) where
  -- Settings that `validate` accepts give, with the overrides of any environment, a chunk of 1280 to
  -- 17920 samples, which is not 0, and at least one thread of each kind.
  pub with_env_overrides-bounds :
      (s : Settings h.F32) (d : h.Disk)
      → (validate h s d).1 ≡ ok tt
      → (1280 ≤ chunk_ms_to_samples (with_env_overrides h s).chunk_ms)
        × (chunk_ms_to_samples (with_env_overrides h s).chunk_ms ≤ 17920)
        × (1 ≤ (with_env_overrides h s).intra_threads)
        × (1 ≤ (with_env_overrides h s).inter_threads)
  unfolding session_checks
  with_env_overrides-bounds s d e =
      let s' : Settings h.F32 = with_env_overrides h s in
      let again = ap (λ c. c.1) (with_env_overrides-valid h s d e) ∙ e in
      let (_, (_, (chunk, (intra, (inter, _))))) = validate-session h s' d again in
      let (low, high) =
        chunk-bounds s'.chunk_ms (holds_by_not (contains_num valid_chunk_ms s'.chunk_ms) chunk) in
      (low, high, ground (arith, intra), ground (arith, inter))
