-- ===== src/Soniox/Accumulator/Sentence.antt =====
-- src/asr/soniox/accumulator.rs: `ends_sentence` and `join_fragments`.
use larmindon_core.Base.{ℕ, Bool, true, false, not, ◌&&◌, ◌||◌, [], ◌∷◌, ◌++◌, ◌==◌, if◌then◌else◌}
use mathlib.Core.List.{reverse}
use larmindon_core.Text.{Text, codes, is_whitespace, is_ascii_digit, contains_char, trim_end}

abbrev terminators : Text
terminators = codes ".!?。！？"

abbrev closers : Text
closers = codes "\"'”’)]}"

abbrev no_space_before : Text
no_space_before = codes ".,!?;:)]}”’"

-- `skip_while` over the characters from the end.
skip_closers : Text → Text
skip_closers [] = []
skip_closers (c ∷ cs) =
    let rest = skip_closers cs in if contains_char closers c then rest else c ∷ cs

-- `is_none_or` on the character two before the dot: a boundary makes the letter stand alone.
abbrev is_boundary : Text → Bool
is_boundary [] = true
is_boundary (before ∷ cs) = is_whitespace before || before == b'.'

module _ (alphabetic : ℕ → Bool) where
  -- What precedes a dot, from the end: a digit or a lone letter rejects it.
  dot_ends : Text → Bool
  dot_ends [] = true
  dot_ends (prev ∷ cs) =
      if is_ascii_digit prev then false else if alphabetic prev then not (is_boundary cs) else true

  candidate_ends : Text → Bool
  unfolding dot_ends
  candidate_ends [] = false
  candidate_ends (candidate ∷ cs) =
      if not (contains_char terminators candidate)
      then false
      else if candidate == b'.'
      then dot_ends cs
      else true

  unfoldable pub ends_sentence : Text → Bool
  unfolding candidate_ends skip_closers
  ends_sentence text = candidate_ends (skip_closers (reverse (trim_end text)))

ends_with_whitespace : Text → Bool
ends_with_whitespace [] = false
ends_with_whitespace (c ∷ []) = is_whitespace c
ends_with_whitespace (c ∷ d ∷ cs) = ends_with_whitespace (d ∷ cs)

abbrev starts_with : (ℕ → Bool) → Text → Bool
starts_with p [] = false
starts_with p (c ∷ cs) = p c

unfoldable pub join_fragments : Text → Text → Text
unfolding ends_with_whitespace
join_fragments [] right = right
join_fragments (c ∷ cs) [] = c ∷ cs
join_fragments (c ∷ cs) (d ∷ ds) =
    if not (ends_with_whitespace (c ∷ cs))
      && not (starts_with is_whitespace (d ∷ ds))
      && not (starts_with (contains_char no_space_before) (d ∷ ds))
    then (c ∷ cs) ++ codes " " ++ (d ∷ ds)
    else (c ∷ cs) ++ (d ∷ ds)
