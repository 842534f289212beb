-- ===== src/Settings/Hidden.antt =====
-- src/settings.rs: what leaves the settings without the API key.
use larmindon_core.Base.{◌≡◌, ◌≢◌, refl, false, [], ◌∷◌}
use larmindon_core.Text.{Text}
use larmindon_core.Settings.{Settings, redacted, has_soniox_api_key, debug_key, debug_fields}

-- The redacted copy is the same whatever the API key is, and says that there is none; the output of
-- `Debug` is the same for any two keys that are not empty.
pub redacted-hides :
    {F : Type 0} (s : Settings F) (k l : Text)
    → k ≢ []
    → l ≢ []
    → (redacted (record s { soniox_api_key = k }) ≡ redacted (record s { soniox_api_key = l }))
      × (has_soniox_api_key (redacted s) ≡ false)
      × (debug_fields (record s { soniox_api_key = k })
          ≡ debug_fields (record s { soniox_api_key = l }))
unfolding redacted has_soniox_api_key debug_fields debug_key
redacted-hides s [] l p q = absurd (p refl)
redacted-hides s (c ∷ k) [] p q = absurd (q refl)
redacted-hides s (c ∷ k) (c' ∷ l) p q = (refl, refl, refl)
