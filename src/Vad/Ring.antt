-- ===== src/Vad/Ring.antt =====
-- src/vad.rs, `PreSpeechRingBuffer`: the samples before an onset. `Option` is a panic: an index out of
-- range, or `% 0` in a buffer of capacity 0. Samples are only moved, so their type is any.
pub mod Window
pub mod Drain
pub mod Refines
use larmindon_core.Base.{
  ℕ, zero, suc, ◌+◌, ◌%◌, min, Option, none, some, List, [], ◌∷◌, ltb, ◌==◌, if◌then◌else◌, ◌>>=◌,
  length, set, replicate, get_elem?,
}

pub record RingBuffer {ℓ} (A : Type ℓ) : Type ℓ where
  pub items : List A
  pub capacity : ℕ
  pub write_pos : ℕ
  pub len : ℕ

module _ {ℓ} {A : Type ℓ} where
  -- `silence` is `0.0`.
  unfoldable pub new : A → ℕ → RingBuffer A
  new silence capacity = record {
    items = replicate capacity silence;
    capacity = capacity;
    write_pos = 0;
    len = 0;
  }

  -- One round of the loop of `push_slice`.
  unfoldable pub write : RingBuffer A → A → Option (RingBuffer A)
  write b s =
      if ltb b.write_pos (length b.items)
      then (if b.capacity == 0
          then none
          else some (record b {
            items = set b.items b.write_pos s;
            write_pos = (b.write_pos + 1) % b.capacity;
          }))
      else none

  unfoldable pub write_all : List A → RingBuffer A → Option (RingBuffer A)
  unfolding write
  write_all [] b = some b
  write_all (s ∷ ss) b = write b s >>= write_all ss

  unfoldable pub push_slice : List A → RingBuffer A → Option (RingBuffer A)
  unfolding write_all
  push_slice samples b = do
    b' ← write_all samples b
    some (record b' { len = min (b'.len + length samples) b'.capacity })

  -- The loop of `drain_all`, over the `n` positions from `i` on.
  unfoldable pub read : List A → ℕ → ℕ → ℕ → ℕ → Option (List A)
  read items capacity from i zero = some []
  read items capacity from i (suc n) =
      let rest = read items capacity from (i + 1) n in
      if capacity == 0
      then none
      else (get_elem? items ((from + i) % capacity) >>= λ x. rest >>= λ xs. some (x ∷ xs))

  unfoldable pub drain_all : RingBuffer A → Option (List A × RingBuffer A)
  unfolding read
  drain_all b = if b.len == 0 then some ([], b) else (do
    out ← read b.items b.capacity (if ltb b.len b.capacity then 0 else b.write_pos) 0 b.len
    some (out, record b { len = 0; write_pos = 0 }))
