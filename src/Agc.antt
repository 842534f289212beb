-- ===== src/Agc.antt =====
-- src/agc.rs: the automatic gain control, over the operations of f32 that it uses.
pub mod Tracking
mod Tests
use larmindon_core.Base.{Bool, true, false, List, [], ◌∷◌, if◌then◌else◌}

-- `tiny` is 1e-6, `epsilon` 1e-10 and `pow10` is `10.0_f32.powf`; the other literals are their names.
pub record Arithmetic (F : Type 0) : Type 0 where
  pub zero : F
  pub one : F
  pub twenty : F
  pub thousand : F
  pub epsilon : F
  pub tiny : F
  pub add : F → F → F
  pub sub : F → F → F
  pub mul : F → F → F
  pub div : F → F → F
  pub neg : F → F
  pub abs : F → F
  pub max : F → F → F
  pub clamp : F → F → F → F
  pub sqrt : F → F
  pub exp : F → F
  pub pow10 : F → F
  pub log10 : F → F
  pub lt : F → F → Bool
  pub le : F → F → Bool

pub record AgcProcessor (F : Type 0) : Type 0 where
  pub enabled : Bool
  pub target_rms : F
  pub max_gain : F
  pub min_gain : F
  pub rms_alpha : F
  pub attack_alpha : F
  pub release_alpha : F
  pub rms_sq_ema : F
  pub current_gain : F
  pub sample_rate : F

module _ {F : Type 0} (f : Arithmetic F) where
  unfoldable pub db_to_linear : F → F
  db_to_linear db = f.pow10 (f.div db f.twenty)

  unfoldable pub linear_to_db : F → F
  linear_to_db linear = f.mul f.twenty (f.log10 (f.max linear f.epsilon))

  unfoldable pub time_constant_to_alpha : F → F → F
  time_constant_to_alpha s sample_rate =
      if f.le s f.zero
      then f.one
      else f.sub f.one (f.exp (f.div (f.neg f.one) (f.mul s sample_rate)))

  unfoldable pub new : Bool → F → F → F → F → F → AgcProcessor F
  unfolding db_to_linear time_constant_to_alpha
  new enabled target_rms_dbfs max_gain_db attack_ms release_ms sample_rate = record {
    enabled = enabled;
    target_rms = db_to_linear target_rms_dbfs;
    max_gain = db_to_linear max_gain_db;
    min_gain = f.div f.one (db_to_linear f.twenty);
    rms_alpha = time_constant_to_alpha f.one sample_rate;
    attack_alpha = time_constant_to_alpha (f.div attack_ms f.thousand) sample_rate;
    release_alpha = time_constant_to_alpha (f.div release_ms f.thousand) sample_rate;
    rms_sq_ema = f.zero;
    current_gain = f.one;
    sample_rate = sample_rate;
  }

  unfoldable pub track : AgcProcessor F → F → F
  track p x = f.add (f.mul (f.mul p.rms_alpha x) x) (f.mul (f.sub f.one p.rms_alpha) p.rms_sq_ema)

  -- A step towards a gain: fast down, slow up.
  unfoldable pub toward : AgcProcessor F → F → F
  toward p gain =
      let alpha = if f.lt gain p.current_gain then p.attack_alpha else p.release_alpha in
      f.add p.current_gain (f.mul alpha (f.sub gain p.current_gain))

  -- The gain after a sample, where the mean square is up to date.
  unfoldable pub next_gain : Bool → AgcProcessor F → F
  unfolding toward
  next_gain true p =
      toward p
        (f.clamp (f.div p.target_rms (f.max (f.sqrt p.rms_sq_ema) f.epsilon)) p.min_gain p.max_gain)
  next_gain false p =
      if f.lt (f.abs (f.sub p.current_gain f.one)) f.tiny then f.one else toward p f.one

  unfoldable pub sample : AgcProcessor F → F → F × AgcProcessor F
  unfolding track next_gain
  sample p x =
      let p' : AgcProcessor F = record p { rms_sq_ema = track p x } in
      let gain = next_gain p'.enabled p' in (f.mul x gain, record p' { current_gain = gain })

  unfoldable pub process : List F → AgcProcessor F → List F × AgcProcessor F
  unfolding sample
  process [] p = ([], p)
  process (x ∷ xs) p = let (y, p') = sample p x in let (ys, p'') = process xs p' in (y ∷ ys, p'')

  unfoldable pub current_gain_db : AgcProcessor F → F
  unfolding linear_to_db
  current_gain_db p = linear_to_db p.current_gain

  unfoldable pub update_params : Bool → F → F → F → F → AgcProcessor F → AgcProcessor F
  unfolding db_to_linear time_constant_to_alpha
  update_params enabled target_rms_dbfs max_gain_db attack_ms release_ms p = record p {
    enabled = enabled;
    target_rms = db_to_linear target_rms_dbfs;
    max_gain = db_to_linear max_gain_db;
    attack_alpha = time_constant_to_alpha (f.div attack_ms f.thousand) p.sample_rate;
    release_alpha = time_constant_to_alpha (f.div release_ms f.thousand) p.sample_rate;
  }

  unfoldable pub reset : AgcProcessor F → AgcProcessor F
  reset p = record p { rms_sq_ema = f.zero; current_gain = f.one }
