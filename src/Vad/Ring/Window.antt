-- ===== src/Vad/Ring/Window.antt =====
-- src/vad.rs: what a ring buffer stands for, the window on the last `capacity` samples of those pushed
-- since it was empty.
use larmindon_core.Base.{
  ℕ, ◌+◌, ◌-◌, ◌%◌, ◌≤◌, ◌<◌, ◌≡◌, ◌≢◌, refl, sym, ap, subst, ◌∙◌, min, some, List, [], ◌∷◌, ◌++◌,
  append_assoc, append-nil, arith, ◌>>=◌, length, length-append, set, length-set, length-replicate,
  get_elem?, get_elem?-append, get_elem?-last, get_elem?-set_self, get_elem?-set_ne, drop,
}
use native.Mathlib.Decide.{dec_lt}
use native.Mathlib.Nat.{mod-lt, mod-add-mod, mod-eq_of_lt, mod-eq-sub-mod}
use larmindon_core.Vad.Ring.{RingBuffer, new, write, write_all, push_slice}

-- Fewer than `cap` steps apart, two positions are not the same place.
mod_ne : (cap j n : ℕ) → j < n → n < j + cap → n % cap ≢ j % cap
mod_ne cap j n h k e =
    let r = j % cap in
    let d = n - j in
    let below : r < cap = mod-lt j (omega arith) in
    let step : ((r + d) % cap ≡ n % cap) = mod-add-mod j cap d ∙ ap (λ m. m % cap) (omega arith) in
    elim (dec_lt (r + d) cap) [
      | yes less ↦ omega (arith, step, e, mod-eq_of_lt {n = r + d} {m = cap} less)
      | no more ↦ omega (
        arith,
        step,
        e,
        mod-eq-sub-mod {n = r + d} {m = cap} (omega arith),
        mod-eq_of_lt {n = r + d - cap} {m = cap} (omega arith),
      )
    ]

-- A full turn ends at the same place.
pub mod_turn : (cap n i : ℕ) → cap ≤ n → (n % cap + i) % cap ≡ (n - cap + i) % cap
mod_turn cap n i k =
    mod-add-mod n cap i
    ∙ mod-eq-sub-mod {n = n + i} {m = cap} (omega arith)
    ∙ ap (λ m. m % cap) (omega arith)

module _ {ℓ} {A : Type ℓ} where
  -- The last `cap` of the samples.
  abbrev pub window : ℕ → List A → List A
  window cap xs = drop (length xs - cap) xs

  -- The places of the buffer hold the last samples of `xs`.
  pub record Holds (b : RingBuffer A) (xs : List A) : Type ℓ where
    pub size : length b.items ≡ b.capacity
    pub positive : 0 < b.capacity
    pub place : b.write_pos ≡ length xs % b.capacity
    pub samples :
        (j : ℕ)
        → j < length xs
        → length xs ≤ j + b.capacity
        → get_elem? b.items (j % b.capacity) ≡ get_elem? xs j

  pub record Buffers (b : RingBuffer A) (xs : List A) : Type ℓ where
    pub holds : Holds b xs
    pub count : b.len ≡ min (length xs) b.capacity

  set_samples :
      (b : RingBuffer A) (xs : List A) (s : A) (j : ℕ)
      → Holds b xs
      → j < length xs + 1
      → length xs + 1 ≤ j + b.capacity
      → get_elem? (set b.items b.write_pos s) (j % b.capacity) ≡ get_elem? (xs ++ (s ∷ [])) j
  set_samples b xs s j v below near = elim (dec_lt j (length xs)) [
    | yes old ↦
        get_elem?-set_ne b.items s (rw v.place (mod_ne b.capacity j (length xs) old (omega arith)))
        ∙ v.samples j old (omega arith)
        ∙ sym (get_elem?-append xs (s ∷ []) j old)
    | no new_one ↦
        let at_end : j ≡ length xs = omega arith in
        let place_j : (j % b.capacity ≡ b.write_pos) =
          ap (λ k. k % b.capacity) at_end ∙ sym v.place in
        let inside : b.write_pos < length b.items =
          omega (arith, v.size, v.place, mod-lt (length xs) v.positive) in
        ap (get_elem? (set b.items b.write_pos s)) place_j
        ∙ get_elem?-set_self b.items b.write_pos s inside
        ∙ sym (ap (get_elem? (xs ++ (s ∷ []))) at_end ∙ get_elem?-last xs s)
  ]

  write-Holds :
      (b : RingBuffer A) (xs : List A) (s : A)
      → Holds b xs
      → (b' : RingBuffer A) × (write b s ≡ some b')
        × Holds b' (xs ++ (s ∷ []))
        × (b'.capacity ≡ b.capacity)
        × (b'.len ≡ b.len)
  unfolding write
  write-Holds b xs s v =
      let inside : b.write_pos < length b.items =
        omega (arith, v.size, v.place, mod-lt (length xs) v.positive) in
      let longer = length-append xs (s ∷ []) in
      (
        record b { items = set b.items b.write_pos s; write_pos = (b.write_pos + 1) % b.capacity },
        ground (arith, v.positive, inside),
        record {
          size = length-set b.items b.write_pos s ∙ v.size;
          positive = v.positive;
          place =
              rw v.place
                (mod-add-mod (length xs) b.capacity 1 ∙ ap (λ k. k % b.capacity) (sym longer));
          samples = λ j below near.
              set_samples b xs s j v (omega (arith, longer)) (omega (arith, longer));
        },
        refl,
        refl,
      )

  write_all-Holds :
      (ss : List A) (b : RingBuffer A) (xs : List A)
      → Holds b xs
      → (b' : RingBuffer A) × (write_all ss b ≡ some b')
        × Holds b' (xs ++ ss)
        × (b'.capacity ≡ b.capacity)
        × (b'.len ≡ b.len)
  unfolding write_all
  write_all-Holds [] b xs v = (b, refl, rw append-nil v, refl, refl)
  write_all-Holds (s ∷ ss) b xs v =
      let (t, ok, v', cap, len) = write-Holds b xs s v in
      let (b', ok', v'', cap', len') = write_all-Holds ss t (xs ++ (s ∷ [])) v' in
      (
        b',
        ap (λ o. o >>= write_all ss) ok ∙ ok',
        subst (Holds b') (append_assoc xs (s ∷ []) ss) v'',
        cap' ∙ cap,
        len' ∙ len,
      )

  -- Pushing a slice appends it to what the buffer stands for.
  pub push_slice-Buffers :
      (ss : List A) (b : RingBuffer A) (xs : List A)
      → Buffers b xs
      → (b' : RingBuffer A) × (push_slice ss b ≡ some b')
        × Buffers b' (xs ++ ss)
        × (b'.capacity ≡ b.capacity)
  unfolding push_slice
  push_slice-Buffers ss b xs v =
      let (t, ok, h, cap, len) = write_all-Holds ss b xs v.holds in
      (
        record t { len = min (t.len + length ss) t.capacity },
        rw ok,
        record {
          holds = record {
            size = h.size;
            positive = h.positive;
            place = h.place;
            samples = h.samples;
          };
          count = omega (arith, v.count, len, cap, length-append xs ss);
        },
        cap,
      )

  pub new-Buffers : (silence : A) (capacity : ℕ) → 0 < capacity → Buffers (new silence capacity) []
  unfolding new
  new-Buffers silence capacity pos = record {
    holds = record {
      size = length-replicate capacity silence;
      positive = pos;
      place = omega (arith, mod-eq_of_lt pos);
      samples = λ j below near. absurd (omega arith);
    };
    count = omega arith;
  }
