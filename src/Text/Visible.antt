-- ===== src/Text/Visible.antt =====
-- The characters of a text that are not whitespace: what trimming cannot lose.
use larmindon_core.Base.{
  ℕ, ◌≡◌, refl, sym, ap, ◌∙◌, true, [], ◌∷◌, ◌++◌, arith, Bool-cases, inl, inr, is_empty,
  if◌then◌else◌,
}
use larmindon_core.Text.{Text, is_whitespace, trim_start, end_cons, trim_end, trim, is_blank}

pub visible : Text → Text
visible [] = []
visible (c ∷ cs) = if is_whitespace c then visible cs else c ∷ visible cs

pub visible-nil : visible [] ≡ []
unfolding visible
visible-nil = refl

pub visible-append : (s t : Text) → visible (s ++ t) ≡ visible s ++ visible t
unfolding visible
visible-append [] t = refl
visible-append (c ∷ cs) t = elim (Bool-cases (is_whitespace c)) [
  | inl e ↦ rw e (visible-append cs t)
  | inr e ↦ rw e (ap (◌∷◌ c) (visible-append cs t))
]

pub visible-trim_start : (t : Text) → visible (trim_start t) ≡ visible t
unfolding visible trim_start
visible-trim_start [] = refl
visible-trim_start (c ∷ cs) = ground (arith, visible-trim_start cs)

visible-end_cons : (c : ℕ) (r : Text) → visible (end_cons c r) ≡ visible (c ∷ r)
unfolding visible end_cons
visible-end_cons c [] = ground arith
visible-end_cons c (d ∷ r) = ground arith

visible-cons : (c : ℕ) (s t : Text) → visible s ≡ visible t → visible (c ∷ s) ≡ visible (c ∷ t)
unfolding visible
visible-cons c s t h = ground arith

pub visible-trim_end : (t : Text) → visible (trim_end t) ≡ visible t
unfolding trim_end
visible-trim_end [] = refl
visible-trim_end (c ∷ cs) =
    visible-end_cons c (trim_end cs) ∙ visible-cons c (trim_end cs) cs (visible-trim_end cs)

pub visible-trim : (t : Text) → visible (trim t) ≡ visible t
unfolding trim
visible-trim t = visible-trim_end (trim_start t) ∙ visible-trim_start t

visible_of_empty : (t : Text) → is_empty t ≡ true → visible t ≡ []
visible_of_empty [] h = visible-nil
visible_of_empty (c ∷ cs) h = cc

-- A text that trims to nothing holds whitespace only.
pub visible-blank : (t : Text) → is_blank t ≡ true → visible t ≡ []
unfolding is_blank
visible-blank t h = sym (visible-trim t) ∙ visible_of_empty (trim t) h
