-- ===== src/Settings/Overrides.antt =====
-- src/settings.rs, `with_env_overrides`: each variable, where it is set, against what is accepted.
use larmindon_core.Base.{ℕ, true, false, ◌||◌, Option, none, some, leb, if◌then◌else◌}
use larmindon_core.Text.{Text, codes, text_eq, is_blank}
use larmindon_core.Text.Parse.{parse_unsigned, to_lowercase}
use larmindon_core.Settings.{Host, Settings, usize_mod}
use larmindon_core.Settings.Checks.{valid_chunk_ms, contains_num}

module _ {F : Type 0} where
  -- By the number that `CHUNK_MS` parses to.
  unfoldable pub override_chunk_ms : Option ℕ → Settings F → Settings F
  unfolding contains_num
  override_chunk_ms none s = s
  override_chunk_ms (some ms) s =
      if contains_num valid_chunk_ms ms then record s { chunk_ms = ms } else s

  unfoldable pub override_intra_threads : Option ℕ → Settings F → Settings F
  override_intra_threads none s = s
  override_intra_threads (some n) s = if leb 1 n then record s { intra_threads = n } else s

  unfoldable pub override_inter_threads : Option ℕ → Settings F → Settings F
  override_inter_threads none s = s
  override_inter_threads (some n) s = if leb 1 n then record s { inter_threads = n } else s

  -- By the value of `PUNCTUATION_RESET`, in lower case.
  unfoldable pub override_punctuation_reset : Option Text → Settings F → Settings F
  unfolding text_eq
  override_punctuation_reset none s = s
  override_punctuation_reset (some v) s =
      if text_eq v (codes "0") || text_eq v (codes "false") || text_eq v (codes "no")
      then record s { punctuation_reset = false }
      else (if text_eq v (codes "1") || text_eq v (codes "true") || text_eq v (codes "yes")
          then record s { punctuation_reset = true }
          else s)

  unfoldable pub override_soniox_api_key : Option Text → Settings F → Settings F
  unfolding is_blank
  override_soniox_api_key none s = s
  override_soniox_api_key (some v) s = if is_blank v then s else record s { soniox_api_key = v }

-- What the variables hold: parsed, in lower case, or as they are.
pub record Variables : Type 0 where
  pub chunk_ms : Option ℕ
  pub intra_threads : Option ℕ
  pub inter_threads : Option ℕ
  pub punctuation_reset : Option Text
  pub soniox_api_key : Option Text

unfoldable pub overridden : {F : Type 0} → Variables → Settings F → Settings F
unfolding override_chunk_ms override_intra_threads override_inter_threads override_punctuation_reset
    override_soniox_api_key
overridden v s = override_soniox_api_key v.soniox_api_key (
    override_punctuation_reset v.punctuation_reset (
      override_inter_threads v.inter_threads
        (override_intra_threads v.intra_threads (override_chunk_ms v.chunk_ms s))))

-- A function of a variable's value, where it is set.
abbrev of_value {ℓ} : {A : Type ℓ} → (Text → Option A) → Option Text → Option A
of_value f none = none
of_value f (some v) = f v

abbrev parse_usize : Option Text → Option ℕ
parse_usize = of_value (parse_unsigned usize_mod)

unfoldable pub variables : Host → Variables
unfolding parse_unsigned to_lowercase
variables h = record {
  chunk_ms = parse_usize (h.var (codes "CHUNK_MS"));
  intra_threads = parse_usize (h.var (codes "INTRA_THREADS"));
  inter_threads = parse_usize (h.var (codes "INTER_THREADS"));
  punctuation_reset = of_value (λ v. some (to_lowercase v)) (h.var (codes "PUNCTUATION_RESET"));
  soniox_api_key = h.var (codes "SONIOX_API_KEY");
}

unfoldable pub with_env_overrides : (h : Host) → Settings h.F32 → Settings h.F32
unfolding overridden variables
with_env_overrides h s = overridden (variables h) s
