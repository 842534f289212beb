-- ===== src/Engine/Frames.antt =====
-- src/audio_engine.rs, `take_complete_frames`: whole frames for the resampler, and what is left over.
-- `Option` is the panic of a division by a frame size of 0.
use larmindon_core.Base.{
  ℕ, joined, ◌+◌, ◌*◌, ◌/◌, ◌<◌, ◌≡◌, refl, sym, ap, ◌∙◌, Option, none, some, inl, inr, Bool-cases,
  List, [], ◌∷◌, ◌++◌, append_assoc, append-nil, arith, ltb, ◌==◌, if◌then◌else◌, ◌>>=◌, length,
  length-append, take, drop, length-take, length-drop, take-append-drop,
}
use native.Mathlib.Nat.{div-add-mod', mod-lt}

-- `input.len() / frame_size * frame_size`.
abbrev complete_len : ℕ → ℕ → ℕ
complete_len n frame_size = n / frame_size * frame_size

module _ {ℓ} {A : Type ℓ} where
  -- The frames and the new leftover.
  unfoldable pub take_complete_frames : List A → List A → ℕ → Option (List A × List A)
  take_complete_frames leftover drained frame_size =
      let input : List A = leftover ++ drained in
      let n = length input / frame_size * frame_size in
      if frame_size == 0
      then none
      else (if ltb n (length input) then some (take n input, drop n input) else some (input, []))

  -- The calls of the loop, each with what was drained: the frames put out and the last leftover.
  unfoldable pub frame_all : List A → List (List A) → ℕ → Option (List A × List A)
  frame_all leftover [] frame_size = some ([], leftover)
  frame_all leftover (d ∷ ds) frame_size = do
    (out, left) ← take_complete_frames leftover d frame_size
    (outs, last) ← frame_all left ds frame_size
    some (out ++ outs, last)

  cut :
      (input : List A) (frame_size : ℕ)
      → 0 < frame_size
      → (length (drop (complete_len (length input) frame_size) input) < frame_size)
        × (length (take (complete_len (length input) frame_size) input)
            ≡ complete_len (length input) frame_size)
  cut input frame_size pos =
      let n = length input in
      let parts = div-add-mod' n frame_size in
      let short = mod-lt n pos in
      (
        omega (arith, parts, short, length-drop (complete_len n frame_size) input),
        omega (arith, parts, length-take (complete_len n frame_size) input),
      )

  -- One call: whole frames and a leftover shorter than a frame, which together are the old leftover
  -- and what was drained.
  pub take_complete_frames_lem :
      (leftover drained : List A) (frame_size : ℕ)
      → 0 < frame_size
      → (out : List A) × (left : List A) × (frames : ℕ) × (take_complete_frames leftover drained
            frame_size
          ≡ some (out, left))
        × (out ++ left ≡ leftover ++ drained)
        × (length left < frame_size)
        × (length out ≡ frames * frame_size)
  unfolding take_complete_frames
  take_complete_frames_lem leftover drained frame_size pos =
      let input : List A = leftover ++ drained in
      let n = complete_len (length input) frame_size in
      let (short, whole) = cut input frame_size pos in
      elim (Bool-cases (ltb n (length input))) [
        | inl e ↦ (
          take n input,
          drop n input,
          length input / frame_size,
          ground (arith, e),
          take-append-drop n input,
          short,
          whole,
        )
        | inr e ↦ (
          input,
          [],
          length input / frame_size,
          ground (arith, e),
          append-nil input,
          pos,
          ground (arith, e, whole, length-take n input),
        )
      ]

  -- Over any sequence of calls no sample is lost, repeated or reordered: the frames put out and the
  -- last leftover are the first leftover and all that was drained, the leftover is shorter than a
  -- frame, and what was put out is whole frames, for every positive frame size.
  pub frame_all_lem :
      (leftover : List A) (ds : List (List A)) (frame_size : ℕ)
      → 0 < frame_size
      → length leftover < frame_size
      → (out : List A) × (last : List A) × (frames : ℕ) × (frame_all leftover ds frame_size
          ≡ some (out, last))
        × (out ++ last ≡ leftover ++ joined ds)
        × (length last < frame_size)
        × (length out ≡ frames * frame_size)
  unfolding frame_all
  frame_all_lem leftover [] frame_size pos short =
      ([], leftover, 0, refl, sym (append-nil leftover), short, omega arith)
  frame_all_lem leftover (d ∷ ds) frame_size pos short =
      let (out, left, k, ok, kept, short', whole) =
        take_complete_frames_lem leftover d frame_size pos in
      let (outs, last, m, ok', kept', short'', whole') =
        frame_all_lem left ds frame_size pos short' in
      (
        out ++ outs,
        last,
        k + m,
        rw (ok, ok'),
        append_assoc out outs last
            ∙ ap (◌++◌ out) kept'
            ∙ sym (append_assoc out left (joined ds))
            ∙ ap (λ xs. xs ++ joined ds) kept
            ∙ append_assoc leftover d (joined ds),
        short'',
        omega (arith, length-append out outs, whole, whole'),
      )
