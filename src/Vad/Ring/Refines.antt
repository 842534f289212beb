-- ===== src/Vad/Ring/Refines.antt =====
-- src/vad.rs: the ring buffer against a list, over sequences of its calls.
use larmindon_core.Base.{ℕ, ◌<◌, ◌≡◌, refl, ap, ◌∙◌, Option, some, List, [], ◌∷◌, ◌++◌, ◌>>=◌}
use larmindon_core.Vad.Ring.{RingBuffer, new, push_slice, drain_all}
use larmindon_core.Vad.Ring.Drain.{drain_all-Buffers}
use larmindon_core.Vad.Ring.Window.{window, Buffers, push_slice-Buffers, new-Buffers}

-- A client's calls.
pub data Op {ℓ} (A : Type ℓ) : Type ℓ where
  pushes : List A → Op A
  drains : Op A

module _ {ℓ} {A : Type ℓ} where
  pub run : List (Op A) → RingBuffer A → Option (List (List A))
  run [] b = some []
  run (pushes ss ∷ ops) b = push_slice ss b >>= run ops
  run (drains ∷ ops) b = drain_all b >>= λ (out, b'). run ops b' >>= λ outs. some (out ∷ outs)

  -- The specification: a list, of which a drain gives the last `capacity` samples.
  pub run_spec : ℕ → List (Op A) → List A → List (List A)
  run_spec capacity [] xs = []
  run_spec capacity (pushes ss ∷ ops) xs = run_spec capacity ops (xs ++ ss)
  run_spec capacity (drains ∷ ops) xs = window capacity xs ∷ run_spec capacity ops []

  run_refines_from :
      (ops : List (Op A)) (b : RingBuffer A) (xs : List A)
      → Buffers b xs
      → run ops b ≡ some (run_spec b.capacity ops xs)
  unfolding run run_spec
  run_refines_from [] b xs v = refl
  run_refines_from (pushes ss ∷ ops) b xs v =
      let (b', ok, v', cap) = push_slice-Buffers ss b xs v in
      rw ok (run_refines_from ops b' (xs ++ ss) v' ∙ ap (λ c. some (run_spec c ops (xs ++ ss))) cap)
  run_refines_from (drains ∷ ops) b xs v =
      let (b', ok, v', cap) = drain_all-Buffers b xs v in
      rw (ok, run_refines_from ops b' [] v', cap)

  -- A ring buffer of positive capacity never panics, and no sequence of `push_slice` and `drain_all`
  -- tells it from a list of which each drain gives the last `capacity` samples pushed since the drain
  -- before, oldest first.
  pub run_refines :
      (silence : A) (capacity : ℕ) (ops : List (Op A))
      → 0 < capacity
      → run ops (new silence capacity) ≡ some (run_spec capacity ops [])
  unfolding new
  run_refines silence capacity ops pos =
      run_refines_from ops (new silence capacity) [] (new-Buffers silence capacity pos)
