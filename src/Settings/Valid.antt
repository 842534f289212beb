-- ===== src/Settings/Valid.antt =====
-- src/settings.rs: settings that `validate` accepts, through the environment overrides and the file.
use larmindon_core.Base.{
  ℕ, ◌≡◌, refl, sym, ap, ◌∙◌, Bool, true, false, Option, none, some, arith, ok, err, first_failure,
  first_failure-pass, first_failure-AllPass, AllPass, if_holds, leb, not, ◌||◌, ◌&&◌,
}
use larmindon_core.Text.{Text, codes, text_eq, is_blank}
use larmindon_core.Settings.{Host, Settings}
use larmindon_core.Settings.Checks.{
  Verdict, Checked, session_checks, vad_checks, agc_checks, check_diagnostics, and_then, validate,
  valid_chunk_ms, contains_num,
}
use larmindon_core.Settings.Overrides.{
  override_chunk_ms, override_intra_threads, override_inter_threads, override_punctuation_reset,
  override_soniox_api_key, Variables, variables, overridden, with_env_overrides,
}

module _ (h : Host) where
  -- The checks after those of the session.
  abbrev later_checks : Settings h.F32 → h.Disk → Checked h
  later_checks s d =
      and_then h
        (and_then h (d, first_failure (vad_checks h s))
          (check_diagnostics h s.diagnostics_enabled s.diagnostics_db_path))
        (λ d. (d, first_failure (agc_checks h s)))

  -- A change of the session's settings that no check minds.
  record Keeps (s s' : Settings h.F32) : Type 0 where
    session : AllPass (session_checks s) → AllPass (session_checks s')
    later : (d : h.Disk) → later_checks s' d ≡ later_checks s d

  Keeps-trans : (s₁ s₂ s₃ : Settings h.F32) → Keeps s₁ s₂ → Keeps s₂ s₃ → Keeps s₁ s₃
  Keeps-trans s₁ s₂ s₃ v w = record {
    session = λ p. w.session (v.session p);
    later = λ d. w.later d ∙ v.later d;
  }

  Keeps-refl : (s : Settings h.F32) → Keeps s s
  Keeps-refl s = record { session = λ p. p; later = λ d. refl }

  override_chunk_ms-Keeps : (o : Option ℕ) (s : Settings h.F32) → Keeps s (override_chunk_ms o s)
  unfolding override_chunk_ms session_checks vad_checks agc_checks
  override_chunk_ms-Keeps none s = Keeps-refl s
  override_chunk_ms-Keeps (some ms) s =
      if_holds (Keeps s) (contains_num valid_chunk_ms ms) (record s { chunk_ms = ms }) s
        (λ e. record {
          session = λ (p, (key, (_, rest))). (p, (key, (ap not e, rest)));
          later = λ d. refl;
        })
        (λ _. Keeps-refl s)

  override_intra_threads-Keeps :
      (o : Option ℕ) (s : Settings h.F32) → Keeps s (override_intra_threads o s)
  unfolding override_intra_threads session_checks vad_checks agc_checks
  override_intra_threads-Keeps none s = Keeps-refl s
  override_intra_threads-Keeps (some n) s =
      if_holds (Keeps s) (leb 1 n) (record s { intra_threads = n }) s
        (λ e. record {
          session =
              λ (p, (key, (chunk, (_, rest)))). (p, (key, (chunk, (ground (arith, e), rest))));
          later = λ d. refl;
        })
        (λ _. Keeps-refl s)

  override_inter_threads-Keeps :
      (o : Option ℕ) (s : Settings h.F32) → Keeps s (override_inter_threads o s)
  unfolding override_inter_threads session_checks vad_checks agc_checks
  override_inter_threads-Keeps none s = Keeps-refl s
  override_inter_threads-Keeps (some n) s =
      if_holds (Keeps s) (leb 1 n) (record s { inter_threads = n }) s
        (λ e. record {
          session = λ (p, (key, (chunk, (intra, (_, rest))))).
              (p, (key, (chunk, (intra, (ground (arith, e), rest)))));
          later = λ d. refl;
        })
        (λ _. Keeps-refl s)

  punctuation_reset-Keeps :
      (s : Settings h.F32) (b : Bool) → Keeps s (record s { punctuation_reset = b })
  unfolding session_checks vad_checks agc_checks
  punctuation_reset-Keeps s b = record { session = λ p. p; later = λ d. refl }

  override_punctuation_reset-Keeps :
      (o : Option Text) (s : Settings h.F32) → Keeps s (override_punctuation_reset o s)
  unfolding override_punctuation_reset
  override_punctuation_reset-Keeps none s = Keeps-refl s
  override_punctuation_reset-Keeps (some v) s =
      if_holds (Keeps s)
        (text_eq v (codes "0") || text_eq v (codes "false") || text_eq v (codes "no"))
        (record s { punctuation_reset = false }) _ (λ _. punctuation_reset-Keeps s false)
        (λ _.
          if_holds (Keeps s)
            (text_eq v (codes "1") || text_eq v (codes "true") || text_eq v (codes "yes"))
            (record s { punctuation_reset = true }) s (λ _. punctuation_reset-Keeps s true)
            (λ _. Keeps-refl s))

  and_false : (b c : Bool) → c ≡ false → (b && c) ≡ false
  and_false b c e = ground arith

  override_soniox_api_key-Keeps :
      (o : Option Text) (s : Settings h.F32) → Keeps s (override_soniox_api_key o s)
  unfolding override_soniox_api_key session_checks vad_checks agc_checks
  override_soniox_api_key-Keeps none s = Keeps-refl s
  override_soniox_api_key-Keeps (some v) s =
      if_holds (Keeps s) (is_blank v) s (record s { soniox_api_key = v }) (λ _. Keeps-refl s)
        (λ e. record {
          session = λ (p, (_, rest)).
              (p, (and_false (text_eq s.asr_provider (codes "soniox")) (is_blank v) e, rest));
          later = λ d. refl;
        })

  overridden-Keeps : (v : Variables) (s : Settings h.F32) → Keeps s (overridden v s)
  unfolding overridden
  overridden-Keeps v s =
      let s₁ = override_chunk_ms v.chunk_ms s in
      let s₂ = override_intra_threads v.intra_threads s₁ in
      let s₃ = override_inter_threads v.inter_threads s₂ in
      let s₄ = override_punctuation_reset v.punctuation_reset s₃ in
      Keeps-trans s s₄ (override_soniox_api_key v.soniox_api_key s₄)
        (Keeps-trans s s₃ s₄
          (Keeps-trans s s₂ s₃
            (Keeps-trans s s₁ s₂ (override_chunk_ms-Keeps v.chunk_ms s)
              (override_intra_threads-Keeps v.intra_threads s₁))
            (override_inter_threads-Keeps v.inter_threads s₂))
          (override_punctuation_reset-Keeps v.punctuation_reset s₃))
        (override_soniox_api_key-Keeps v.soniox_api_key s₄)

  with_env_overrides-Keeps : (s : Settings h.F32) → Keeps s (with_env_overrides h s)
  unfolding with_env_overrides
  with_env_overrides-Keeps s = overridden-Keeps (variables h) s

  start_of : Settings h.F32 → h.Disk → Verdict h.F32 → Checked h
  start_of s d r =
      and_then h
        (and_then h (and_then h (d, r) (λ d. (d, first_failure (vad_checks h s))))
          (check_diagnostics h s.diagnostics_enabled s.diagnostics_db_path))
        (λ d. (d, first_failure (agc_checks h s)))

  validate-start_of :
      (s : Settings h.F32) (d : h.Disk)
      → validate h s d ≡ start_of s d (first_failure (session_checks s))
  unfolding validate start_of
  validate-start_of s d = refl

  start_of-ok :
      (s : Settings h.F32) (d : h.Disk) (r : Verdict h.F32) → (start_of s d r).1 ≡ ok tt → r ≡ ok tt
  unfolding start_of
  start_of-ok s d (ok _) e = refl
  start_of-ok s d (err x) e = cc

  -- Accepted settings pass the checks of the session.
  pub validate-session :
      (s : Settings h.F32) (d : h.Disk) → (validate h s d).1 ≡ ok tt → AllPass (session_checks s)
  validate-session s d e = first_failure-AllPass (session_checks s) (
      start_of-ok s d (first_failure (session_checks s))
        (sym (ap (λ c. c.1) (validate-start_of s d)) ∙ e))

  validate-later :
      (s : Settings h.F32) (d : h.Disk)
      → AllPass (session_checks s)
      → validate h s d ≡ later_checks s d
  unfolding start_of
  validate-later s d p =
      validate-start_of s d ∙ ap (start_of s d) (first_failure-pass (session_checks s) p)

  -- The environment never makes accepted settings unacceptable: with the overrides, `validate` accepts
  -- them again, whatever the variables hold, and does the same to the disk.
  pub with_env_overrides-valid :
      (s : Settings h.F32) (d : h.Disk)
      → (validate h s d).1 ≡ ok tt
      → validate h (with_env_overrides h s) d ≡ validate h s d
  with_env_overrides-valid s d e =
      let k = with_env_overrides-Keeps s in
      let p = validate-session s d e in
      validate-later (with_env_overrides h s) d (k.session p)
      ∙ k.later d
      ∙ sym (validate-later s d p)
