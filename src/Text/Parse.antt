-- ===== src/Text/Parse.antt =====
-- Functions of Rust's `str` that read a text: `parse` of an unsigned integer below `bound`,
-- `strip_prefix`, and `to_lowercase` on ASCII.
use larmindon_core.Base.{
  ℕ, ◌+◌, ◌-◌, ◌*◌, ◌≡◌, refl, ◌&&◌, [], ◌∷◌, ◌++◌, Option, none, some, leb, ltb, ◌==◌, ==_refl,
  if◌then◌else◌, if_true,
}
use larmindon_core.Text.{Text, is_ascii_digit}

-- The digits from here on, after the number `n`.
unfoldable pub digits : ℕ → ℕ → Text → Option ℕ
unfolding is_ascii_digit
digits bound n [] = some n
digits bound n (c ∷ cs) =
    let m = n * 10 + (c - b'0') in
    let rest = digits bound m cs in if is_ascii_digit c && ltb m bound then rest else none

-- One leading `+` is allowed, and a digit is needed.
unfoldable pub parse_unsigned : ℕ → Text → Option ℕ
unfolding digits
parse_unsigned bound [] = none
parse_unsigned bound (c ∷ []) = digits bound 0 (c ∷ [])
parse_unsigned bound (c ∷ d ∷ cs) = digits bound 0 (if c == b'+' then d ∷ cs else c ∷ d ∷ cs)

unfoldable pub strip_prefix : Text → Text → Option Text
strip_prefix [] t = some t
strip_prefix (p ∷ ps) [] = none
strip_prefix (p ∷ ps) (c ∷ cs) = let rest = strip_prefix ps cs in if p == c then rest else none

abbrev lower : ℕ → ℕ
lower c = if leb b'A' c && leb c b'Z' then c + 32 else c

unfoldable pub to_lowercase : Text → Text
to_lowercase [] = []
to_lowercase (c ∷ cs) = lower c ∷ to_lowercase cs

pub strip_prefix-append : (p t : Text) → strip_prefix p (p ++ t) ≡ some t
unfolding strip_prefix
strip_prefix-append [] t = refl
strip_prefix-append (c ∷ cs) t =
    rw (if_true (c == c) (strip_prefix cs (cs ++ t)) none (==_refl c)) (strip_prefix-append cs t)
