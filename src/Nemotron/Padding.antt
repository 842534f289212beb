-- ===== src/Nemotron/Padding.antt =====
-- src/asr/nemotron.rs, `pad_to_chunk_boundary`: lemmas on the length it reaches.
use larmindon_core.Base.{
  ℕ, ◌+◌, ◌-◌, ◌*◌, ◌/◌, ◌%◌, ◌≤◌, ◌<◌, ◌≡◌, refl, sym, ap, ◌∙◌, append-nil, is_empty, ◌||◌, inl,
  inr, Bool, true, false, List, [], ◌∷◌, ◌++◌, arith, length, length-append, length-replicate,
  replicate, leb, leb→le, ◌==◌, ==_iff, if◌then◌else◌, Bool-cases,
}
use native.Mathlib.Nat.{zero-mod, mod-lt, mod-eq_of_lt, div-add-mod', add-mod_right, mul-mod_left}
use larmindon_core.Nemotron.{pad_to_chunk_boundary}

padded_mod {ℓ} :
    {A : Type ℓ} (buffer : List A) (silence : A) (size : ℕ)
    → 0 < size
    → length (buffer ++ replicate (size - length buffer % size) silence) % size ≡ 0
padded_mod buffer silence size pos =
    let n = length buffer in
    let parts = div-add-mod' n size in
    let short = mod-lt n pos in
    let sum : (length (buffer ++ replicate (size - n % size) silence) ≡ n / size * size + size) =
      omega (
        arith,
        length-append buffer (replicate (size - n % size) silence),
        length-replicate (size - n % size) silence,
        parts,
        short,
      ) in
    ap (λ k. k % size) sum ∙ add-mod_right (n / size * size) size ∙ mul-mod_left (n / size) size

if-IsWhole {ℓ} :
    {A : Type ℓ} (b : Bool) (xs ys : List A) (size : ℕ)
    → (b ≡ true → length xs % size ≡ 0)
    → (b ≡ false → length ys % size ≡ 0)
    → length (if b then xs else ys) % size ≡ 0
if-IsWhole true xs ys size whole_x whole_y = whole_x refl
if-IsWhole false xs ys size whole_x whole_y = whole_y refl

-- Padding reaches a whole number of chunks.
pub pad_to_chunk_boundary-IsWhole {ℓ} :
    {A : Type ℓ} (silence : A) (buffer : List A) (size : ℕ)
    → 0 < size
    → length (pad_to_chunk_boundary silence buffer size) % size ≡ 0
unfolding pad_to_chunk_boundary
pad_to_chunk_boundary-IsWhole silence [] size pos = zero-mod size
pad_to_chunk_boundary-IsWhole silence (x ∷ xs) size pos =
    let buffer = x ∷ xs in
    let padded = buffer ++ replicate (size - length buffer % size) silence in
    if-IsWhole (size == 0) buffer (if length buffer % size == 0 then buffer else padded) size
      (λ e. absurd (ground (arith, e, pos)))
      (λ _.
        if-IsWhole (length buffer % size == 0) buffer padded size
          (λ e. (==_iff (length buffer % size) 0).0 e) (λ _. padded_mod buffer silence size pos))

pub pad_to_chunk_boundary-grows {ℓ} :
    {A : Type ℓ} (silence : A) (buffer : List A) (size : ℕ)
    → length buffer ≤ length (pad_to_chunk_boundary silence buffer size)
unfolding pad_to_chunk_boundary
pad_to_chunk_boundary-grows silence buffer size =
    ground (arith, length-append buffer (replicate (size - length buffer % size) silence))

if-adds {ℓ} :
    {A : Type ℓ} (b : Bool) (silence : A) (buffer ys : List A) (size : ℕ)
    → 0 < size
    → (b ≡ false → (n : ℕ) × (n < size) × (ys ≡ buffer ++ replicate n silence))
    → (n : ℕ) × (n < size) × ((if b then buffer else ys) ≡ buffer ++ replicate n silence)
if-adds true silence buffer ys size pos h = (0, pos, sym (append-nil buffer))
if-adds false silence buffer ys size pos h = h refl

-- The buffer is kept, and what follows it is less than a chunk of silence.
pub pad_to_chunk_boundary-adds {ℓ} :
    {A : Type ℓ} (silence : A) (buffer : List A) (size : ℕ)
    → 0 < size
    → (n : ℕ) × (n < size)
      × (pad_to_chunk_boundary silence buffer size ≡ buffer ++ replicate n silence)
unfolding pad_to_chunk_boundary
pad_to_chunk_boundary-adds silence buffer size pos =
    if-adds (is_empty buffer || size == 0) silence buffer _ size pos λ _.
      if-adds (length buffer % size == 0) silence buffer _ size pos
        λ e. (size - length buffer % size, ground (arith, e, pos, mod-lt (length buffer) pos), refl)

pub whole-at_least : (n size : ℕ) → n % size ≡ 0 → 0 < n → size ≤ n
whole-at_least n size whole pos = elim (Bool-cases (leb size n)) [
  | inl e ↦ leb→le size n e
  | inr e ↦
      let short : (n < size) = ground (arith, e) in
      absurd (omega (arith, mod-eq_of_lt short, whole, pos))
]
