-- ===== src/Vad/Ring/Drain.antt =====
-- src/vad.rs: `drain_all` of the ring buffer, against the window.
use larmindon_core.Base.{
  ℕ, zero, suc, ◌+◌, ◌-◌, ◌%◌, ◌<◌, ◌≡◌, refl, sym, ap, subst, ◌∙◌, some, List, [], arith, ltb,
  lt→ltb, ◌==◌, if◌then◌else◌, length, get_elem?, get_elem?-some, nil_of_length, drop, drop-nil,
  drop-get_elem?, drop_ge, if_true, if_false, Bool-cases, inl, inr, ==_iff,
}
use native.Mathlib.Decide.{dec_lt}
use native.Mathlib.Nat.{mod-eq_of_lt}
use larmindon_core.Vad.Ring.{RingBuffer, read, drain_all}
use larmindon_core.Vad.Ring.Window.{window, Buffers, mod_turn}

module _ {ℓ} {A : Type ℓ} where
  -- The loop reads the samples of `xs` from `k` on, if each place holds its sample.
  read-drop :
      (items : List A) (cap from : ℕ) (xs : List A) (n i k : ℕ)
      → 0 < cap
      → k + n ≡ length xs
      → ((t : ℕ) → t < n → get_elem? items ((from + (i + t)) % cap) ≡ get_elem? xs (k + t))
      → read items cap from i n ≡ some (drop k xs)
  unfolding read
  read-drop items cap from xs zero i k pos e h = ap some (sym (drop_ge k xs (omega arith)))
  read-drop items cap from xs (suc n) i k pos e h =
      let (x, found) = get_elem?-some xs k (omega arith) in
      let i0 : i + 0 ≡ i = omega arith in
      let k0 : k + 0 ≡ k = omega arith in
      let first : (get_elem? items ((from + i) % cap) ≡ some x) =
        ap (λ m. get_elem? items ((from + m) % cap)) (sym i0)
        ∙ h 0 (omega arith)
        ∙ ap (get_elem? xs) k0
        ∙ found in
      let rest = read-drop items cap from xs n (i + 1) (suc k) pos (omega arith) λ t lt.
        ap (λ m. get_elem? items ((from + m) % cap)) (omega arith)
        ∙ h (t + 1) (omega arith)
        ∙ ap (get_elem? xs) (omega arith) in
      ground (arith, first, rest, drop-get_elem? xs k found)

  abbrev first_place : RingBuffer A → ℕ
  first_place b = if ltb b.len b.capacity then 0 else b.write_pos

  read-window :
      (b : RingBuffer A) (xs : List A)
      → Buffers b xs
      → read b.items b.capacity (first_place b) 0 b.len ≡ some (window b.capacity xs)
  read-window b xs v =
      read-drop b.items b.capacity (first_place b) xs b.len 0 (length xs - b.capacity)
        v.holds.positive (omega (arith, v.count))
        λ t lt.
          let near : length xs - b.capacity + t < length xs = omega (arith, v.count) in
          let found = v.holds.samples (length xs - b.capacity + t) near (omega arith) in
          elim (dec_lt (length xs) b.capacity) [
            | yes short ↦
                let start : first_place b ≡ 0 =
                  if_true (ltb b.len b.capacity) 0 b.write_pos
                    (lt→ltb b.len b.capacity (omega (arith, v.count))) in
                ap (λ m. get_elem? b.items (m % b.capacity)) (omega (arith, start)) ∙ found
            | no full ↦
                let start : (first_place b ≡ length xs % b.capacity) =
                  ground (arith, v.count, v.holds.place) in
                let turned : ((first_place b + (0 + t)) % b.capacity
                    ≡ (length xs - b.capacity + t) % b.capacity) =
                  ap (λ m. (m + (0 + t)) % b.capacity) start
                  ∙ mod_turn b.capacity (length xs) (0 + t) (omega arith)
                  ∙ ap (λ m. m % b.capacity) (omega arith) in
                ap (get_elem? b.items) turned ∙ found
          ]

  emptied :
      (b : RingBuffer A) (xs : List A)
      → Buffers b xs
      → Buffers (record b { len = 0; write_pos = 0 }) []
  emptied b xs v = record {
    holds = record {
      size = v.holds.size;
      positive = v.holds.positive;
      place = omega (arith, mod-eq_of_lt v.holds.positive);
      samples = λ j below near. absurd (omega arith);
    };
    count = omega arith;
  }

  -- Draining gives the window, and leaves the buffer empty.
  pub drain_all-Buffers :
      (b : RingBuffer A) (xs : List A)
      → Buffers b xs
      → (b' : RingBuffer A) × (drain_all b ≡ some (window b.capacity xs, b'))
        × Buffers b' []
        × (b'.capacity ≡ b.capacity)
  unfolding drain_all
  drain_all-Buffers b xs v = elim (Bool-cases (b.len == 0)) [
    | inl e ↦
        let none_left : (xs ≡ []) =
          nil_of_length xs (omega (arith, (==_iff b.len 0).0 e, v.count, v.holds.positive)) in
        (
          b,
          if_true (b.len == 0) _ _ e
              ∙ ap (λ ys. some (ys, b)) (sym (drop-nil (0 - b.capacity)))
              ∙ ap (λ ys. some (window b.capacity ys, b)) (sym none_left),
          subst (Buffers b) none_left v,
          refl,
        )
    | inr e ↦ (
      record b { len = 0; write_pos = 0 },
      if_false (b.len == 0) _ _ e ∙ rw (read-window b xs v),
      emptied b xs v,
      refl,
    )
  ]
