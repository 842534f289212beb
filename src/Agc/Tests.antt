-- ===== src/Agc/Tests.antt =====
-- The gain control at concrete input, with numbers for f32.
use larmindon_core.Base.{
  ℕ, ◌+◌, ◌-◌, ◌*◌, ◌≡◌, refl, Bool, true, false, List, [], ◌∷◌, leb, ltb, if◌then◌else◌,
}
use larmindon_core.Agc.{Arithmetic, AgcProcessor, process}
use larmindon_core.Agc.Tracking.{Use, block, update, use_all, samples, use_all-level}

abbrev numbers : Arithmetic ℕ
numbers = record {
  zero = 0;
  one = 1;
  twenty = 20;
  thousand = 1000;
  epsilon = 1;
  tiny = 1;
  add = λ a b. a + b;
  sub = λ a b. a - b;
  mul = λ a b. a * b;
  div = λ a b. a - b;
  neg = λ a. a;
  abs = λ a. a;
  max = λ a b. if leb a b then b else a;
  clamp = λ x lo hi. if ltb x lo then lo else (if ltb hi x then hi else x);
  sqrt = λ a. a;
  exp = λ a. a;
  pow10 = λ a. a;
  log10 = λ a. a;
  lt = ltb;
  le = leb;
}

abbrev agc : Bool → AgcProcessor ℕ
agc enabled = record {
  enabled = enabled;
  target_rms = 5;
  max_gain = 4;
  min_gain = 1;
  rms_alpha = 1;
  attack_alpha = 1;
  release_alpha = 1;
  rms_sq_ema = 0;
  current_gain = 1;
  sample_rate = 16;
}

abbrev uses : List (Use ℕ)
uses = block (1 ∷ 2 ∷ []) ∷ update false 1 2 3 4 ∷ block (3 ∷ []) ∷ []

use_all-level_example :
    (use_all numbers uses (agc true)).1.rms_sq_ema
    ≡ (process numbers (samples numbers uses) (agc false)).1.rms_sq_ema
use_all-level_example = use_all-level numbers uses (agc true) (agc false) refl refl
