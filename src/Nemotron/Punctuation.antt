-- ===== src/Nemotron/Punctuation.antt =====
-- src/asr/nemotron.rs, `ends_with_sentence_punctuation`. Every byte it looks at is ASCII, so it is
-- the same over characters.
use larmindon_core.Base.{
  ◌≡◌, refl, Bool, true, false, not, ◌&&◌, ◌||◌, [], ◌∷◌, ◌==◌, if◌then◌else◌,
}
use mathlib.Core.List.{reverse}
use larmindon_core.Text.{Text, codes, is_ascii_digit, trim_end}

-- `ends_with("...")`, from the end and after the first dot.
is_ellipsis : Text → Bool
is_ellipsis [] = false
is_ellipsis (c ∷ []) = false
is_ellipsis (c ∷ d ∷ cs) = c == b'.' && d == b'.'

starts_with_digit : Text → Bool
starts_with_digit [] = false
starts_with_digit (c ∷ cs) = is_ascii_digit c

-- From the end: the last character and what is before it.
reversed_ends : Text → Bool
unfolding is_ellipsis starts_with_digit
reversed_ends [] = false
reversed_ends (c ∷ cs) =
    if c == b'?' || c == b'!'
    then true
    else if c == b'.'
    then (if is_ellipsis cs
        then false
        else not (starts_with_digit (reverse (trim_end (reverse cs)))))
    else false

unfoldable pub ends_with_sentence_punctuation : Text → Bool
unfolding reversed_ends trim_end
ends_with_sentence_punctuation text = reversed_ends (reverse (trim_end text))

ends_cases :
    (ends_with_sentence_punctuation (codes "Hello. ") ≡ true)
    × (ends_with_sentence_punctuation (codes "Wait...") ≡ false)
    × (ends_with_sentence_punctuation (codes "costs 3.") ≡ false)
unfolding ends_with_sentence_punctuation is_ascii_digit
ends_cases = (refl, refl, refl)
