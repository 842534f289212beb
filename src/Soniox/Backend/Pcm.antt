-- ===== src/Soniox/Backend/Pcm.antt =====
-- src/asr/soniox/protocol.rs: `f32_to_pcm_s16le`. A sample's f32 operations are parameters, and an i16
-- is the number of its 16 bits.
use larmindon_core.Base.{ℕ, ◌+◌, ◌*◌, ◌/◌, ◌%◌, List, [], ◌∷◌}
use larmindon_core.Soniox.Backend.{pcm_bytes}

-- `clamp(-1.0, 1.0)`, the product with 32767.0, and `as i16`.
pub record PcmArithmetic (F : Type 0) : Type 0 where
  pub clamp_unit : F → F
  pub scale : F → F
  pub as_i16 : F → ℕ

-- The words of little-endian bytes.
unfoldable pub from_s16le : List ℕ → List ℕ
from_s16le (low ∷ high ∷ bytes) = (low + 256 * high) ∷ from_s16le bytes
from_s16le _ = []

module _ {F : Type 0} (f : PcmArithmetic F) where
  abbrev pub word : F → ℕ
  word s = let clamped = f.clamp_unit s in f.as_i16 (f.scale clamped)

  -- `to_le_bytes` of one sample.
  unfoldable pub s16_le : F → ℕ × ℕ
  s16_le s = (word s % 256, word s / 256)

  unfoldable pub f32_to_pcm_s16le : List F → List ℕ
  unfolding s16_le pcm_bytes
  f32_to_pcm_s16le samples = pcm_bytes s16_le samples

  abbrev pub words : List F → List ℕ
  words [] = []
  words (s ∷ ss) = word s ∷ words ss
