-- ===== src/Soniox/Backend/Hints.antt =====
-- src/asr/soniox/backend.rs, `parse_language_hints`.
use larmindon_core.Base.{ℕ, List, [], ◌∷◌, is_empty, if◌then◌else◌, ◌==◌}
use larmindon_core.Text.{Text, trim}

-- `split(',')`: the pieces between commas, one at least.
abbrev prepend_char : ℕ → List Text → List Text
prepend_char c [] = (c ∷ []) ∷ []
prepend_char c (piece ∷ pieces) = (c ∷ piece) ∷ pieces

abbrev pub comma : ℕ
comma = 44

abbrev pub split_commas : Text → List Text
split_commas [] = [] ∷ []
split_commas (c ∷ cs) =
    let pieces = split_commas cs in if c == comma then [] ∷ pieces else prepend_char c pieces

abbrev pub trimmed_hints : List Text → List Text
trimmed_hints [] = []
trimmed_hints (piece ∷ pieces) =
    let rest = trimmed_hints pieces in if is_empty (trim piece) then rest else trim piece ∷ rest

unfoldable pub parse_language_hints : Text → List Text
parse_language_hints raw = trimmed_hints (split_commas raw)
