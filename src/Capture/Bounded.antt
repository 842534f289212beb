-- ===== src/Capture/Bounded.antt =====
-- src/audio_capture/mod.rs, `CaptureBuffer`, against the list of all the samples that came in.
use larmindon_core.Base.{
  ℕ, suc, ◌+◌, ◌-◌, ◌%◌, ◌≤◌, ◌<◌, ◌≡◌, ◌≢◌, refl, sym, ap, subst, ◌∙◌, List, [], ◌∷◌, ◌++◌, arith,
  length, length-append, drop, append-nil, append_assoc, inl, inr, Bool-cases, ltb, ◌==◌, if_true,
  if_false, drop-append, drop-drop, length-drop, drop_ge, drop-nil, nil_of_length,
}
use larmindon_core.Capture.{
  CaptureBuffer, u64_mod, drop_oldest, push_sample, extend_samples, shed, set_capacity,
}

module _ {ℓ} {A : Type ℓ} where
  -- The newest `cap` samples.
  abbrev pub newest : ℕ → List A → List A
  newest cap xs = drop (length xs - cap) xs

  -- What the buffer holds and has counted, of all the samples `xs` that came in.
  pub record Accounts (b : CaptureBuffer A) (xs : List A) : Type ℓ where
    pub held : b.samples ≡ newest b.capacity xs
    pub counted : b.dropped_samples + length b.samples ≡ length xs

  -- How many samples the newest are.
  length-held :
      (b : CaptureBuffer A) (xs : List A)
      → Accounts b xs
      → length b.samples ≡ length xs - (length xs - b.capacity)
  length-held b xs v = ap length v.held ∙ length-drop (length xs - b.capacity) xs

  newest-push :
      (cap : ℕ) (xs : List A) (s : A)
      → 0 < cap
      → drop (length xs + 1 - cap) xs ++ (s ∷ []) ≡ newest cap (xs ++ (s ∷ []))
  newest-push cap xs s pos =
      sym (drop-append (length xs + 1 - cap) xs (s ∷ []) (omega arith))
      ∙ ap (λ n. drop (n - cap) (xs ++ (s ∷ []))) (sym (length-append xs (s ∷ [])))

  pushed_full :
      (b : CaptureBuffer A) (xs : List A)
      → Accounts b xs
      → length b.samples ≡ b.capacity
      → drop 1 b.samples ≡ drop (length xs + 1 - b.capacity) xs
  pushed_full b xs v full =
      ap (drop 1) v.held
      ∙ drop-drop 1 (length xs - b.capacity) xs
      ∙ ap (λ n. drop n xs) (omega (arith, length-held b xs v))

  pushed_short :
      (b : CaptureBuffer A) (xs : List A)
      → Accounts b xs
      → length b.samples ≢ b.capacity
      → b.samples ≡ drop (length xs + 1 - b.capacity) xs
  pushed_short b xs v short = v.held ∙ ap (λ n. drop n xs) (omega (arith, length-held b xs v))

  -- A sample that comes in is accounted for.
  push_sample-Accounts :
      (b : CaptureBuffer A) (xs : List A) (s : A)
      → length xs + 1 < u64_mod
      → Accounts b xs
      → Accounts (push_sample b s) (xs ++ (s ∷ [])) × ((push_sample b s).capacity ≡ b.capacity)
  unfolding push_sample drop_oldest
  push_sample-Accounts b xs s room v = elim (Bool-cases (b.capacity == 0)) [
    | inl e ↦
        let none_kept : b.capacity ≡ 0 = ground arith in
        let empty : length b.samples ≡ 0 = omega (arith, length-held b xs v) in
        rw (if_true (b.capacity == 0) _ _ e) (
          record {
            held =
                nil_of_length b.samples empty
                ∙ sym
                    (drop_ge (length (xs ++ (s ∷ [])) - b.capacity) (xs ++ (s ∷ [])) (omega arith));
            counted = omega (arith, v.counted, length-append xs (s ∷ []));
          },
          refl,
        )
    | inr e ↦
        let pos : 0 < b.capacity = ground arith in
        rw (if_false (b.capacity == 0) _ _ e) (elim (Bool-cases (length b.samples == b.capacity)) [
          | inl f ↦
              let full : length b.samples ≡ b.capacity = ground arith in
              rw (if_true (length b.samples == b.capacity) _ _ f) (
                record {
                  held =
                      ap (λ ys. ys ++ (s ∷ [])) (pushed_full b xs v full)
                      ∙ newest-push b.capacity xs s pos;
                  counted = omega (
                    arith,
                    v.counted,
                    length-append xs (s ∷ []),
                    length-append (drop 1 b.samples) (s ∷ []),
                    length-drop 1 b.samples,
                  );
                },
                refl,
              )
          | inr f ↦
              let short : length b.samples ≢ b.capacity = ground arith in
              rw (if_false (length b.samples == b.capacity) _ _ f) (
                record {
                  held =
                      ap (λ ys. ys ++ (s ∷ [])) (pushed_short b xs v short)
                      ∙ newest-push b.capacity xs s pos;
                  counted = omega (
                    arith,
                    v.counted,
                    length-append xs (s ∷ []),
                    length-append b.samples (s ∷ []),
                  );
                },
                refl,
              )
        ])
  ]

  -- Of all samples that came in since the last drain, the buffer holds the newest up to its capacity,
  -- oldest first, and its count and the held ones make up the total.
  pub extend_samples-Accounts :
      (ss : List A) (b : CaptureBuffer A) (xs : List A)
      → length xs + length ss < u64_mod
      → Accounts b xs
      → Accounts (extend_samples b ss) (xs ++ ss)
  unfolding extend_samples
  extend_samples-Accounts [] b xs room v = rw append-nil v
  extend_samples-Accounts (s ∷ ss) b xs room v =
      let (v', _) = push_sample-Accounts b xs s (omega arith) v in
      subst (Accounts (extend_samples (push_sample b s) ss)) (append_assoc xs (s ∷ []) ss) (
        extend_samples-Accounts ss (push_sample b s) (xs ++ (s ∷ []))
          (omega (arith, length-append xs (s ∷ []))) v')

  shed-newest :
      (cap : ℕ) (xs : List A) (dropped : ℕ)
      → dropped + length xs < u64_mod
      → ((shed cap xs dropped).0 ≡ newest cap xs)
        × ((shed cap xs dropped).1 + length (shed cap xs dropped).0 ≡ dropped + length xs)
  unfolding shed
  shed-newest cap [] dropped room = (sym (drop-nil (0 - cap)), refl)
  shed-newest cap (x ∷ xs) dropped room = elim (Bool-cases (ltb cap (suc (length xs)))) [
    | inl e ↦
        let over : cap < suc (length xs) = ground arith in
        let (ih, total) = shed-newest cap xs ((dropped + 1) % u64_mod) (omega arith) in
        let shift : suc (length xs) - cap ≡ suc (length xs - cap) = omega arith in
        rw (if_true (ltb cap (suc (length xs))) _ _ e, shift) (ih, omega (arith, total))
    | inr e ↦
        let fits : suc (length xs) ≤ cap = ground arith in
        let none_over : suc (length xs) - cap ≡ 0 = omega arith in
        rw (if_false (ltb cap (suc (length xs))) _ _ e, none_over) (refl, refl)
  ]

  newest-newest : (m n : ℕ) (xs : List A) → m ≤ n → newest m (newest n xs) ≡ newest m xs
  newest-newest m n xs h =
      drop-drop (length (newest n xs) - m) (length xs - n) xs
      ∙ ap (λ k. drop k xs) (omega (arith, length-drop (length xs - n) xs))

  -- A smaller capacity sheds the oldest samples and counts them.
  pub set_capacity-Accounts :
      (b : CaptureBuffer A) (xs : List A) (capacity : ℕ)
      → length xs < u64_mod
      → capacity ≤ b.capacity
      → Accounts b xs
      → Accounts (set_capacity b capacity) xs
  unfolding set_capacity
  set_capacity-Accounts b xs capacity room h v =
      let (kept, total) =
        shed-newest capacity b.samples b.dropped_samples (omega (arith, v.counted)) in
      record {
        held = kept ∙ ap (newest capacity) v.held ∙ newest-newest capacity b.capacity xs h;
        counted = total ∙ v.counted;
      }
