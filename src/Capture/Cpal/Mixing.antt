-- ===== src/Capture/Cpal/Mixing.antt =====
-- src/audio_capture/cpal.rs: interleaved audio as mono in the capture buffer.
use larmindon_core.Base.{
  ℕ, zero, suc, ◌+◌, ◌*◌, ◌≤◌, ◌<◌, ◌≡◌, ◌≢◌, false, refl, sym, ap, ap₂, subst, ◌∙◌, ◌⊎◌, inl, inr,
  Bool-cases, All, joined, or_default, append_assoc, take-append-drop, length-take, if_true, none,
  some, List, [], ◌∷◌, ◌++◌, arith, leb, leb→le, ◌==◌, ==_iff, length, take, drop, length-drop,
  if_false, if_holds, if◌then◌else◌,
}
use larmindon_core.Capture.{CaptureBuffer, extend_samples, u64_mod}
use larmindon_core.Capture.Bounded.{Accounts, extend_samples-Accounts}
use larmindon_core.Capture.Cpal.{map_samples, mix_frames, downmix, push_mono}

-- As many as there are whole frames of the channels.
abbrev pub WholeFrames : ℕ → ℕ → ℕ → Type 0
WholeFrames frames channels n = (frames * channels ≤ n) × (n < frames * channels + channels)

suc_mul : (k c : ℕ) → suc k * c ≡ k * c + c
suc_mul k c = omega arith

le_mul : (k c : ℕ) → 0 < c → k ≤ k * c
le_mul zero c pos = omega arith
le_mul (suc k) c pos = omega (arith, le_mul k c pos, suc_mul k c)

no_more : (k c n m : ℕ) → 0 < c → k * c ≤ n → m + n < u64_mod → m + k < u64_mod
no_more k c n m pos low room = omega (arith, le_mul k c pos)

-- The audio in order is frames of a sample for each channel and then less than a frame.
abbrev pub IsCut : {T : Type 0} → ℕ → List T → List (List T) → Type 0
IsCut {T = T} channels data_ frames =
    (left : List T) × (data_ ≡ joined frames ++ left)
    × All (λ f. length f ≡ channels) frames
    × (length left < channels)

module _ {T F : Type 0} (convert : T → F) (average : ℕ → List F → F) where
  abbrev pub converted : List T → List F
  converted [] = []
  converted (x ∷ xs) = convert x ∷ converted xs

  -- The average of each frame, over all its channels.
  abbrev pub means : ℕ → List (List T) → List F
  means channels [] = []
  means channels (f ∷ fs) = average channels (converted f) ∷ means channels fs

  map_samples-converted : (xs : List T) → map_samples convert average xs ≡ converted xs
  unfolding map_samples
  map_samples-converted [] = refl
  map_samples-converted (x ∷ xs) = ap (λ ys. convert x ∷ ys) (map_samples-converted xs)

  -- One channel is only converted; of more, each whole frame is averaged.
  abbrev pub IsMixed : ℕ → List T → List F → Type 0
  IsMixed channels data_ mono =
      ((channels ≡ 1) × (mono ≡ converted data_))
      ⊎ ((channels ≢ 1)
          × ((frames : List (List T)) × IsCut channels data_ frames
              × (mono ≡ means channels frames)))

  mix_frames-means :
      (channels fuel : ℕ) (xs : List T)
      → 0 < channels
      → length xs ≤ fuel
      → (frames : List (List T)) × IsCut channels xs frames
        × (mix_frames convert average channels fuel xs ≡ means channels frames)
  unfolding mix_frames
  mix_frames-means channels zero xs pos enough = ([], (xs, refl, tt, omega arith), refl)
  mix_frames-means channels (suc fuel) xs pos enough =
      let rest = mix_frames convert average channels fuel (drop channels xs) in
      let frame = average channels (map_samples convert average (take channels xs)) in
      elim (Bool-cases (leb channels (length xs))) [
        | inl e ↦
            let whole = leb→le channels (length xs) e in
            let shorter = length-drop channels xs in
            let (frames, (left, cut, sized, short), mixed) =
              mix_frames-means channels fuel (drop channels xs) pos (omega arith) in
            let first = take channels xs in
            (
              first ∷ frames,
              (
                left,
                sym (take-append-drop channels xs)
                    ∙ ap (λ ys. first ++ ys) cut
                    ∙ sym (append_assoc first (joined frames) left),
                (omega (arith, length-take channels xs, whole), sized),
                short,
              ),
              if_true (leb channels (length xs)) (frame ∷ rest) [] e
                  ∙ ap₂ ◌∷◌ (ap (average channels) (map_samples-converted first)) mixed,
            )
        | inr e ↦ (
          [],
          (xs, refl, tt, ground (arith, e)),
          if_false (leb channels (length xs)) (frame ∷ rest) [] e,
        )
      ]

  several : (channels : ℕ) → (channels == 1) ≡ false → channels ≢ 1
  several channels h one = ground (arith, h, one)

  downmix-IsMixed :
      (channels : ℕ) (xs : List T) (mono : List F)
      → 0 < channels
      → downmix convert average channels xs ≡ some mono
      → IsMixed channels xs mono
  unfolding downmix
  downmix-IsMixed channels xs mono pos e =
      let copied = map_samples convert average xs in
      let mixed = mix_frames convert average channels (length xs) xs in
      let given = if channels == 1 then copied else mixed in
      let same : given ≡ mono =
        ap (λ o. or_default o [])
          (sym (if_false (channels == 0) none (some given) (ground arith)) ∙ e) in
      subst (IsMixed channels xs) same (
        if_holds (IsMixed channels xs) (channels == 1) copied mixed
          (λ h. inl ((==_iff channels 1).0 h, map_samples-converted xs))
          (λ h.
            inr (several channels h, mix_frames-means channels (length xs) xs pos (omega arith))))

  length-map_samples : (xs : List T) → length (map_samples convert average xs) ≡ length xs
  unfolding map_samples
  length-map_samples [] = refl
  length-map_samples (x ∷ xs) = ap suc (length-map_samples xs)

  mix_frames-WholeFrames :
      (channels fuel : ℕ) (xs : List T)
      → 0 < channels
      → length xs ≤ fuel
      → WholeFrames (length (mix_frames convert average channels fuel xs)) channels (length xs)
  unfolding mix_frames
  mix_frames-WholeFrames channels zero xs pos enough = (omega arith, omega arith)
  mix_frames-WholeFrames channels (suc fuel) xs pos enough =
      let rest = mix_frames convert average channels fuel (drop channels xs) in
      let frame = average channels (map_samples convert average (take channels xs)) in
      if_holds (λ mono. WholeFrames (length mono) channels (length xs)) (leb channels (length xs))
        (frame ∷ rest) []
        (λ e.
          let whole = leb→le channels (length xs) e in
          let left = length-drop channels xs in
          let (low, high) =
            mix_frames-WholeFrames channels fuel (drop channels xs) pos (omega arith) in
          let more = suc_mul (length rest) channels in
          (omega (arith, low, left, more), omega (arith, high, left, more)))
        (λ e. (omega arith, ground (arith, e)))

  downmix-WholeFrames :
      (channels : ℕ) (xs : List T)
      → 0 < channels
      → (mono : List F) × (downmix convert average channels xs ≡ some mono)
        × WholeFrames (length mono) channels (length xs)
  unfolding downmix
  downmix-WholeFrames channels xs pos =
      let copied = map_samples convert average xs in
      let mixed = mix_frames convert average channels (length xs) xs in
      let mono = if channels == 1 then copied else mixed in
      (
        mono,
        if_false (channels == 0) none (some mono) (ground arith),
        if_holds (λ mono. WholeFrames (length mono) channels (length xs)) (channels == 1) copied
            mixed
            (λ e.
              let one = (==_iff channels 1).0 e in
              subst (λ c. WholeFrames (length copied) c (length xs)) (sym one)
                (omega (arith, length-map_samples xs), omega (arith, length-map_samples xs)))
            (λ _. mix_frames-WholeFrames channels (length xs) xs pos (omega arith)),
      )

  -- A block of interleaved samples of one channel or more is mixed to one sample for each whole
  -- frame: the converted sample of the one channel, or the average of the converted samples of the
  -- frame, in order. The capture buffer accounts for all that came in before and for these, while the
  -- samples of both are fewer than 2^64.
  pub push_mono-Accounts :
      (data_ : List T) (channels : ℕ) (b : CaptureBuffer F) (xs : List F)
      → 0 < channels
      → length xs + length data_ < u64_mod
      → Accounts b xs
      → (mono : List F) × (b' : CaptureBuffer F) × (push_mono convert average data_ channels b
          ≡ some b')
        × WholeFrames (length mono) channels (length data_)
        × IsMixed channels data_ mono
        × Accounts b' (xs ++ mono)
  unfolding push_mono
  push_mono-Accounts data_ channels b xs pos room v =
      let (mono, mixed, whole) = downmix-WholeFrames channels data_ pos in
      (
        mono,
        extend_samples b mono,
        rw mixed,
        whole,
        downmix-IsMixed channels data_ mono pos mixed,
        extend_samples-Accounts mono b xs
            (no_more (length mono) channels (length data_) (length xs) pos whole.0 room) v,
      )
