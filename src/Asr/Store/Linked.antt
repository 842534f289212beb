-- ===== src/Asr/Store/Linked.antt =====
-- A store that is in step with a backend: the backend's counter is the store's next id, and the ids
-- that the backend holds open are shown there, distinct and in order.
use larmindon_core.Base.{
  ℕ, ◌+◌, ◌%◌, ◌≤◌, ◌<◌, ◌≡◌, true, false, List, [], ◌∷◌, ◌++◌, some, arith, All,
}
use larmindon_core.Asr.{TranscriptUpdate}
use larmindon_core.Asr.SegmentIds
use larmindon_core.Asr.SegmentIds.{u64_mod}
use larmindon_core.Asr.Store.{Store, Phase, shown, closed, set_phase, accept}
use larmindon_core.Asr.Store.Contract.{IsBounded}

-- Ascending ids from `lo` up to `hi`, which is left out.
abbrev pub Between : ℕ → ℕ → List ℕ → Type 0
Between lo hi [] = lo ≤ hi
Between lo hi (i ∷ is) = (lo ≤ i) × Between (i + 1) hi is

abbrev pub AllShown : (ℕ → Phase) → List ℕ → Type 0
AllShown f = All (λ i. f i ≡ shown)

pub record Linked (st : Store) (counter : ℕ) (open_ids : List ℕ) : Type 0 where
  pub counts : st.next ≡ counter
  pub bounded : IsBounded st
  pub ascending : Between 0 counter open_ids
  pub all_shown : AllShown st.phase open_ids

Between-le : (lo hi : ℕ) (is : List ℕ) → Between lo hi is → lo ≤ hi
Between-le lo hi [] b = b
Between-le lo hi (i ∷ is) b = omega (arith, Between-le (i + 1) hi is b.1)

Between-weaken : (lo lo' hi : ℕ) (is : List ℕ) → lo' ≤ lo → Between lo hi is → Between lo' hi is
Between-weaken lo lo' hi [] h b = omega arith
Between-weaken lo lo' hi (i ∷ is) h b = (omega arith, b.1)

pub Between-remove :
    (lo hi : ℕ) (xs : List ℕ) (j : ℕ) (ys : List ℕ)
    → Between lo hi (xs ++ (j ∷ ys))
    → Between lo hi (xs ++ ys)
Between-remove lo hi [] j ys b = Between-weaken (j + 1) lo hi ys (omega arith) b.1
Between-remove lo hi (x ∷ xs) j ys b = (b.0, Between-remove (x + 1) hi xs j ys b.1)

Between-extend :
    (lo hi : ℕ) (is : List ℕ) → Between lo hi is → Between lo (hi + 1) (is ++ (hi ∷ []))
Between-extend lo hi [] b = omega arith
Between-extend lo hi (i ∷ is) b = (b.0, Between-extend (i + 1) hi is b.1)

Between-below : (lo hi : ℕ) (is : List ℕ) → Between lo hi is → All (λ i. i < hi) is
Between-below lo hi [] b = tt
Between-below lo hi (i ∷ is) b =
    (omega (arith, Between-le (i + 1) hi is b.1), Between-below (i + 1) hi is b.1)

-- Closing an id below `lo` leaves the others shown.
AllShown-below :
    (f : ℕ → Phase) (p : Phase) (lo hi j : ℕ) (is : List ℕ)
    → j < lo
    → Between lo hi is
    → AllShown f is
    → AllShown (set_phase f j p) is
AllShown-below f p lo hi j [] h b s = tt
AllShown-below f p lo hi j (i ∷ is) h b s =
    (ground arith, AllShown-below f p (i + 1) hi j is (omega arith) b.1 s.1)

AllShown-remove :
    (f : ℕ → Phase) (p : Phase) (lo hi : ℕ) (xs : List ℕ) (j : ℕ) (ys : List ℕ)
    → Between lo hi (xs ++ (j ∷ ys))
    → AllShown f (xs ++ (j ∷ ys))
    → (lo ≤ j) × AllShown (set_phase f j p) (xs ++ ys)
AllShown-remove f p lo hi [] j ys b s =
    (b.0, AllShown-below f p (j + 1) hi j ys (omega arith) b.1 s.1)
AllShown-remove f p lo hi (x ∷ xs) j ys b s =
    let (le, rest) = AllShown-remove f p (x + 1) hi xs j ys b.1 s.1 in
    (omega arith, (ground arith, rest))

AllShown-middle :
    (f : ℕ → Phase) (xs : List ℕ) (j : ℕ) (ys : List ℕ) → AllShown f (xs ++ (j ∷ ys)) → f j ≡ shown
AllShown-middle f [] j ys s = s.0
AllShown-middle f (x ∷ xs) j ys s = AllShown-middle f xs j ys s.1

AllShown-reshow :
    (f : ℕ → Phase) (j : ℕ) (is : List ℕ) → AllShown f is → AllShown (set_phase f j shown) is
AllShown-reshow f j [] s = tt
AllShown-reshow f j (i ∷ is) s = (ground arith, AllShown-reshow f j is s.1)

AllShown-extend :
    (f : ℕ → Phase) (n : ℕ) (is : List ℕ)
    → AllShown f is
    → AllShown (set_phase f n shown) (is ++ (n ∷ []))
AllShown-extend f n [] s = (ground arith, tt)
AllShown-extend f n (i ∷ is) s = (ground arith, AllShown-extend f n is s.1)

Between-middle :
    (lo hi : ℕ) (xs : List ℕ) (j : ℕ) (ys : List ℕ) → Between lo hi (xs ++ (j ∷ ys)) → j < hi
Between-middle lo hi [] j ys b = omega (arith, Between-le (j + 1) hi ys b.1)
Between-middle lo hi (x ∷ xs) j ys b = Between-middle (x + 1) hi xs j ys b.1

-- The steps of a backend, as the store sees them.
module _ {st : Store} {n : ℕ} (u : TranscriptUpdate) where
  pub close_open :
      (xs : List ℕ) (j : ℕ) (ys : List ℕ)
      → Linked st n (xs ++ (j ∷ ys))
      → u.is_final ≡ true
      → u.segment_id ≡ j
      → (st' : Store) × (accept st u ≡ some st') × Linked st' n (xs ++ ys)
  unfolding accept
  close_open xs j ys l final same =
      let shown_j = AllShown-middle st.phase xs j ys l.all_shown in
      let j_lt = Between-middle 0 n xs j ys l.ascending in
      (
        record st { phase = set_phase st.phase j closed },
        ground arith,
        record {
          counts = l.counts;
          bounded = λ i h. ground (arith, l.bounded i, l.counts);
          ascending = Between-remove 0 n xs j ys l.ascending;
          all_shown = (AllShown-remove st.phase closed 0 n xs j ys l.ascending l.all_shown).1;
        },
      )

  pub revise_open :
      (xs : List ℕ) (j : ℕ) (ys : List ℕ)
      → Linked st n (xs ++ (j ∷ ys))
      → u.is_final ≡ false
      → u.segment_id ≡ j
      → (st' : Store) × (accept st u ≡ some st') × Linked st' n (xs ++ (j ∷ ys))
  unfolding accept
  revise_open xs j ys l final same =
      let shown_j = AllShown-middle st.phase xs j ys l.all_shown in
      let j_lt = Between-middle 0 n xs j ys l.ascending in
      (
        record st { phase = set_phase st.phase j shown },
        ground arith,
        record {
          counts = l.counts;
          bounded = λ i h. ground (arith, l.bounded i, l.counts);
          ascending = l.ascending;
          all_shown = AllShown-reshow st.phase j (xs ++ (j ∷ ys)) l.all_shown;
        },
      )

  -- A new id, while the counter has room.
  pub open_next :
      (is : List ℕ)
      → Linked st n is
      → n + 1 < u64_mod
      → u.is_final ≡ false
      → u.segment_id ≡ n
      → (st' : Store) × (accept st u ≡ some st') × Linked st' (SegmentIds.next n).1 (is ++ (n ∷ []))
  unfolding accept SegmentIds.next
  open_next is l room final same =
      let fresh = l.bounded n (omega (arith, l.counts)) in
      let same_next : ((n + 1) % u64_mod ≡ n + 1) = omega arith in
      (
        record { phase = set_phase st.phase n shown; next = st.next + 1 },
        ground (arith, l.counts),
        rw same_next (record {
          counts = omega (arith, l.counts);
          bounded = λ i h. ground (arith, l.bounded i, l.counts);
          ascending = Between-extend 0 n is l.ascending;
          all_shown = AllShown-extend st.phase n is l.all_shown;
        }),
      )

  pub emit_next :
      Linked st n []
      → n + 1 < u64_mod
      → u.is_final ≡ true
      → u.segment_id ≡ n
      → (st' : Store) × (accept st u ≡ some st') × Linked st' (SegmentIds.next n).1 []
  unfolding accept SegmentIds.next
  emit_next l room final same =
      let fresh = l.bounded n (omega (arith, l.counts)) in
      let same_next : ((n + 1) % u64_mod ≡ n + 1) = omega arith in
      (
        record { phase = set_phase st.phase n closed; next = st.next + 1 },
        ground (arith, l.counts),
        rw same_next (record {
          counts = omega (arith, l.counts);
          bounded = λ i h. ground (arith, l.bounded i, l.counts);
          ascending = omega arith;
          all_shown = tt;
        }),
      )
