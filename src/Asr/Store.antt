-- ===== src/Asr/Store.antt =====
-- The contract of `TranscriptUpdate` (src/asr/mod.rs), twice: as the frontend store that follows the
-- updates, and as a property of a list of updates. It is the specification of every backend.
pub mod Contract
pub mod Linked
use larmindon_core.Base.{
  ℕ, ◌+◌, ◌≡◌, refl, Bool, true, false, List, [], ◌∷◌, ◌++◌, Option, none, some, arith, ◌==◌, ◌>>=◌,
  if◌then◌else◌, Option-cases, inl, inr,
}
use larmindon_core.Asr.{TranscriptUpdate}

pub data Phase : Type 0 where
  unseen shown closed : Phase

-- `phase` is what the store has of an id, and `next` the next id to appear.
pub record Store : Type 0 where
  pub phase : ℕ → Phase
  pub next : ℕ

abbrev pub set_phase : (ℕ → Phase) → ℕ → Phase → ℕ → Phase
set_phase f i p j = if j == i then p else f j

abbrev pub phase_after : Bool → Phase
phase_after true = closed
phase_after false = shown

-- A closed id never comes back, a shown one may be revised or closed, and a new one is the next.
unfoldable pub accept : Store → TranscriptUpdate → Option Store
accept st u = elim (st.phase u.segment_id) [
  | closed ↦ none
  | shown ↦ some (record st { phase = set_phase st.phase u.segment_id (phase_after u.is_final) })
  | unseen ↦
      if u.segment_id == st.next
      then some (record {
        phase = set_phase st.phase u.segment_id (phase_after u.is_final);
        next = st.next + 1;
      })
      else none
]

unfoldable pub accept_all : Store → List TranscriptUpdate → Option Store
accept_all st [] = some st
accept_all st (u ∷ us) = accept st u >>= λ st'. accept_all st' us

pub accept_all-append :
    (st : Store) (us vs : List TranscriptUpdate) {mid : Store}
    → accept_all st us ≡ some mid
    → accept_all st (us ++ vs) ≡ accept_all mid vs
unfolding accept_all
accept_all-append st [] vs h = ground arith
accept_all-append st (u ∷ us) vs h = elim (Option-cases (accept st u)) [
  | inl e ↦ absurd (ground arith)
  | inr (st', e) ↦ rw e (accept_all-append st' us vs (rw e at h))
]
