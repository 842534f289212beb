-- ===== src/Agc/Tracking.antt =====
-- src/agc.rs: what the gain control does over blocks of samples and changes of its parameters.
use larmindon_core.Base.{◌≡◌, refl, sym, subst, ap₂, Bool, List, [], ◌∷◌, ◌++◌}
use larmindon_core.Agc.{Arithmetic, AgcProcessor, track, sample, process, update_params}

-- What happens to the gain control in a session.
pub data Use (F : Type 0) : Type 0 where
  block : List F → Use F
  update : Bool → F → F → F → F → Use F

module _ {F : Type 0} (f : Arithmetic F) where
  unfoldable pub use_all : List (Use F) → AgcProcessor F → List F × AgcProcessor F
  unfolding process update_params
  use_all [] p = ([], p)
  use_all (block xs ∷ us) p =
      let (ys, p') = process f xs p in let (zs, p'') = use_all us p' in (ys ++ zs, p'')
  use_all (update enabled target gain attack release ∷ us) p =
      use_all us (update_params f enabled target gain attack release p)

  -- All the samples of the blocks.
  abbrev pub samples : List (Use F) → List F
  samples [] = []
  samples (block xs ∷ us) = xs ++ samples us
  samples (update _ _ _ _ _ ∷ us) = samples us

  -- The mean square of two gain controls that hear the same.
  record SameLevel (p q : AgcProcessor F) : Type 0 where
    alpha : p.rms_alpha ≡ q.rms_alpha
    level : p.rms_sq_ema ≡ q.rms_sq_ema

  process-SameLevel :
      (xs : List F) (p q : AgcProcessor F)
      → SameLevel p q
      → SameLevel (process f xs p).1 (process f xs q).1
  unfolding process sample track
  process-SameLevel [] p q s = s
  process-SameLevel (x ∷ xs) p q s =
      process-SameLevel xs (sample f p x).1 (sample f q x).1 (record {
        alpha = s.alpha;
        level = ap₂ (λ a e. f.add (f.mul (f.mul a x) x) (f.mul (f.sub f.one a) e)) s.alpha s.level;
      })

  process-append :
      (xs ys : List F) (p : AgcProcessor F)
      → (process f (xs ++ ys) p).1 ≡ (process f ys (process f xs p).1).1
  unfolding process
  process-append [] ys p = refl
  process-append (x ∷ xs) ys p = process-append xs ys (sample f p x).1

  use_all-SameLevel :
      (us : List (Use F)) (p q : AgcProcessor F)
      → SameLevel p q
      → SameLevel (use_all us p).1 (process f (samples us) q).1
  unfolding use_all process
  use_all-SameLevel [] p q s = s
  use_all-SameLevel (block xs ∷ us) p q s =
      subst (SameLevel (use_all us (process f xs p).1).1) (sym (process-append xs (samples us) q))
        (use_all-SameLevel us (process f xs p).1 (process f xs q).1 (process-SameLevel xs p q s))
  use_all-SameLevel (update _ _ _ _ _ ∷ us) p q s =
      use_all-SameLevel us _ q (record { alpha = s.alpha; level = s.level })

  -- The tracked level does not depend on whether the gain control is enabled, on its parameters, on
  -- their changes or on how the audio is cut into blocks: it is that of a gain control which is given
  -- all the samples at once and never changed, with any settings, if it has the same weight and the
  -- same level to begin with.
  pub use_all-level :
      (us : List (Use F)) (p q : AgcProcessor F)
      → p.rms_alpha ≡ q.rms_alpha
      → p.rms_sq_ema ≡ q.rms_sq_ema
      → (use_all us p).1.rms_sq_ema ≡ (process f (samples us) q).1.rms_sq_ema
  use_all-level us p q a l = (use_all-SameLevel us p q (record { alpha = a; level = l })).level
