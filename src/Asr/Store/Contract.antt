-- ===== src/Asr/Store/Contract.antt =====
-- What a store that accepts a list of updates says of the list.
use larmindon_core.Base.{
  ℕ, ◌+◌, ◌≤◌, ◌<◌, ◌≡◌, ◌≢◌, ◌⊎◌, inl, inr, true, List, [], ◌∷◌, some, arith, All, Option-cases,
}
use larmindon_core.Asr.{TranscriptUpdate}
use larmindon_core.Asr.Store.{Store, unseen, closed, accept, accept_all}

-- An id is final at most once, and is not emitted again after that.
abbrev pub Contract : List TranscriptUpdate → Type 0
Contract [] = Unit
Contract (u ∷ us) = (u.is_final ≡ true → All (λ v. v.segment_id ≢ u.segment_id) us) × Contract us

-- Each update is of an id below `n`, or of `n` itself, which is then the newest.
abbrev pub Consecutive : ℕ → List TranscriptUpdate → Type 0
Consecutive n [] = Unit
Consecutive n (u ∷ us) =
    ((u.segment_id < n) × Consecutive n us) ⊎ ((u.segment_id ≡ n) × Consecutive (n + 1) us)

accept-closed_stays :
    (st : Store) (u : TranscriptUpdate) (i : ℕ) {st' : Store}
    → st.phase i ≡ closed
    → accept st u ≡ some st'
    → (u.segment_id ≢ i) × (st'.phase i ≡ closed)
unfolding accept
accept-closed_stays st u i h e = ground arith

accept-closes :
    (st : Store) (u : TranscriptUpdate) {st' : Store}
    → u.is_final ≡ true
    → accept st u ≡ some st'
    → st'.phase u.segment_id ≡ closed
unfolding accept
accept-closes st u h e = ground arith

closed_stays :
    (st : Store) (us : List TranscriptUpdate) (i : ℕ) {st' : Store}
    → st.phase i ≡ closed
    → accept_all st us ≡ some st'
    → All (λ v. v.segment_id ≢ i) us
unfolding accept_all
closed_stays st [] i h e = tt
closed_stays st (u ∷ us) i h e = elim (Option-cases (accept st u)) [
  | inl none_e ↦ absurd (ground arith)
  | inr (st', some_e) ↦
      let kept = accept-closed_stays st u i h some_e in
      (kept.0, closed_stays st' us i kept.1 (rw some_e at e))
]

-- What the store accepts keeps the contract.
pub accept_all-Contract :
    (st : Store) (us : List TranscriptUpdate) {st' : Store}
    → accept_all st us ≡ some st'
    → Contract us
unfolding accept_all
accept_all-Contract st [] e = tt
accept_all-Contract st (u ∷ us) e = elim (Option-cases (accept st u)) [
  | inl none_e ↦ absurd (ground arith)
  | inr (st', some_e) ↦ (
    λ final. closed_stays st' us u.segment_id (accept-closes st u final some_e) (rw some_e at e),
    accept_all-Contract st' us (rw some_e at e),
  )
]

-- Ids that the store has are below its next id.
abbrev pub IsBounded : Store → Type 0
IsBounded st = (i : ℕ) → st.next ≤ i → st.phase i ≡ unseen

accept-IsBounded :
    (st : Store) (u : TranscriptUpdate) {st' : Store}
    → IsBounded st
    → accept st u ≡ some st'
    → IsBounded st'
      × (((u.segment_id < st.next) × (st'.next ≡ st.next))
          ⊎ ((u.segment_id ≡ st.next) × (st'.next ≡ st.next + 1)))
unfolding accept
accept-IsBounded st u b e =
    (λ i h. ground (arith, b i, b u.segment_id), ground (arith, b u.segment_id))

-- Ids first appear in order, each one more than the last.
pub accept_all-Consecutive :
    (st : Store) (us : List TranscriptUpdate) {st' : Store}
    → IsBounded st
    → accept_all st us ≡ some st'
    → Consecutive st.next us
unfolding accept_all
accept_all-Consecutive st [] b e = tt
accept_all-Consecutive st (u ∷ us) b e = elim (Option-cases (accept st u)) [
  | inl none_e ↦ absurd (ground arith)
  | inr (st', some_e) ↦
      let (b', order) = accept-IsBounded st u b some_e in
      let rest = accept_all-Consecutive st' us b' (rw some_e at e) in
      elim order [
        | inl (old, same) ↦ inl (old, rw same at rest)
        | inr (new, grown) ↦ inr (new, rw grown at rest)
      ]
]
