-- ===== src/Capture.antt =====
-- src/audio_capture/mod.rs: the bounded capture buffer and, in child modules, the choice of a device and
-- the backends. Samples are only moved, so their type is any. The u64 count of dropped samples wraps.
pub mod Bounded
pub mod Devices
pub mod Backend
pub mod Cpal
pub mod Composite
pub mod Pipewire
mod Tests
use larmindon_core.Base.{
  ℕ, suc, ◌+◌, ◌*◌, ◌%◌, ◌^◌, List, [], ◌∷◌, ◌++◌, length, drop, ltb, ◌==◌, if◌then◌else◌,
}

abbrev pub u64_mod : ℕ
u64_mod = 2 ^ 64

pub record CaptureBuffer {ℓ} (A : Type ℓ) : Type ℓ where
  pub samples : List A
  pub capacity : ℕ
  pub dropped_samples : ℕ

module _ {ℓ} {A : Type ℓ} where
  unfoldable pub with_capacity : ℕ → CaptureBuffer A
  with_capacity capacity = record { samples = []; capacity = capacity; dropped_samples = 0 }

  -- 10 seconds.
  unfoldable pub for_sample_rate : ℕ → CaptureBuffer A
  unfolding with_capacity
  for_sample_rate sample_rate = with_capacity (sample_rate * 10)

  -- `pop_front`, counted.
  unfoldable pub drop_oldest : CaptureBuffer A → CaptureBuffer A
  drop_oldest b = record b {
    samples = drop 1 b.samples;
    dropped_samples = (b.dropped_samples + 1) % u64_mod;
  }

  unfoldable pub push_sample : CaptureBuffer A → A → CaptureBuffer A
  unfolding drop_oldest
  push_sample b sample =
      if b.capacity == 0
      then record b { dropped_samples = (b.dropped_samples + 1) % u64_mod }
      else (let b' : CaptureBuffer A =
            if length b.samples == b.capacity then drop_oldest b else b in
          record b' { samples = b'.samples ++ (sample ∷ []) })

  unfoldable pub extend_samples : CaptureBuffer A → List A → CaptureBuffer A
  unfolding push_sample
  extend_samples b [] = b
  extend_samples b (s ∷ ss) = extend_samples (push_sample b s) ss

  unfoldable pub drain_all : CaptureBuffer A → (List A × ℕ) × CaptureBuffer A
  drain_all b = ((b.samples, b.dropped_samples), record b { samples = []; dropped_samples = 0 })

  -- `while self.samples.len() > self.capacity`, over the samples.
  unfoldable pub shed : ℕ → List A → ℕ → List A × ℕ
  shed capacity [] dropped = ([], dropped)
  shed capacity (s ∷ ss) dropped =
      let rest = shed capacity ss ((dropped + 1) % u64_mod) in
      if ltb capacity (suc (length ss)) then rest else (s ∷ ss, dropped)

  unfoldable pub set_capacity : CaptureBuffer A → ℕ → CaptureBuffer A
  unfolding shed
  set_capacity b capacity =
      let (samples, dropped) = shed capacity b.samples b.dropped_samples in
      record { samples = samples; capacity = capacity; dropped_samples = dropped }
