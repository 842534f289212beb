-- ===== src/Text.antt =====
-- Text as the list of its Unicode scalar values, with the functions of Rust's `str` and `char` that
-- the crate calls: `trim`, `trim_end`, `is_empty`, `char::is_whitespace`, `is_ascii_digit`,
-- `split` and equality; `Parse` has those that read a number or a prefix.
pub mod Visible
pub mod Parse
use Prim.Native.Char.{code}
use Prim.Native.String.{String}
use larmindon_core.Base.{
  ℕ, ◌≡◌, refl, ap₂, ◌↔◌, Bool, true, false, ◌&&◌, ◌||◌, List, [], ◌∷◌, Option, none, some, arith,
  leb, ◌==◌, ==_iff, Bool-cases, is_empty, if◌then◌else◌,
}

abbrev pub Text : Type 0
Text = List ℕ

-- `String` has its own `[]` and `∷`.
abbrev pub codes : String → Text
codes String.[] = []
codes (String.◌∷◌ c s) = code c ∷ codes s

-- `char::is_whitespace`: the code points with the property White_Space.
unfoldable pub is_whitespace : ℕ → Bool
is_whitespace c =
    (leb 9 c && leb c 13)
    || c == 32
    || c == 0x85
    || c == 0xa0
    || c == 0x1680
    || (leb 0x2000 c && leb c 0x200a)
    || c == 0x2028
    || c == 0x2029
    || c == 0x202f
    || c == 0x205f
    || c == 0x3000

unfoldable pub is_ascii_digit : ℕ → Bool
is_ascii_digit c = leb b'0' c && leb c b'9'

unfoldable pub text_eq : Text → Text → Bool
text_eq [] [] = true
text_eq [] (d ∷ ds) = false
text_eq (c ∷ cs) [] = false
text_eq (c ∷ cs) (d ∷ ds) = c == d && text_eq cs ds

pub text_eq_iff : (s t : Text) → (text_eq s t ≡ true) ↔ (s ≡ t)
unfolding text_eq
text_eq_iff [] [] = (λ _. refl, λ _. refl)
text_eq_iff [] (d ∷ ds) = (λ h. cc, λ h. cc)
text_eq_iff (c ∷ cs) [] = (λ h. cc, λ h. cc)
text_eq_iff (c ∷ cs) (d ∷ ds) = ground (arith, text_eq_iff cs ds)

-- `Option<String>` equality.
unfoldable pub opt_text_eq : Option Text → Option Text → Bool
opt_text_eq none none = true
opt_text_eq none (some t) = false
opt_text_eq (some s) none = false
opt_text_eq (some s) (some t) = text_eq s t

-- `contains` of a slice of texts, or of characters.
unfoldable pub contains_text : List Text → Text → Bool
contains_text [] t = false
contains_text (s ∷ ss) t = text_eq s t || contains_text ss t

unfoldable pub contains_char : Text → ℕ → Bool
contains_char [] c = false
contains_char (d ∷ ds) c = c == d || contains_char ds c

unfoldable pub trim_start : Text → Text
unfolding is_whitespace
trim_start [] = []
trim_start (c ∷ cs) = let rest = trim_start cs in if is_whitespace c then rest else c ∷ cs

-- Drops `c` where only whitespace that has been dropped follows it.
unfoldable pub end_cons : ℕ → Text → Text
unfolding is_whitespace
end_cons c rest = if is_empty rest && is_whitespace c then [] else c ∷ rest

unfoldable pub trim_end : Text → Text
unfolding end_cons
trim_end [] = []
trim_end (c ∷ cs) = end_cons c (trim_end cs)

unfoldable pub trim : Text → Text
unfolding trim_start trim_end
trim t = trim_end (trim_start t)

-- `t.trim().is_empty()`.
unfoldable pub is_blank : Text → Bool
unfolding trim
is_blank t = is_empty (trim t)

trim_runs : trim (codes "  <end> ") ≡ codes "<end>"
unfolding trim
trim_runs = refl
