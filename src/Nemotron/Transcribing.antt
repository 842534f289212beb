-- ===== src/Nemotron/Transcribing.antt =====
-- src/asr/nemotron.rs: how `process` cuts the buffer into chunks, and that the model gets each.
use larmindon_core.Base.{
  ℕ, zero, suc, ◌+◌, ◌≤◌, ◌≡◌, refl, sym, ap, ap₂, subst, ◌∙◌, ◌⊎◌, inl, inr, Bool, true,
  Bool-cases, Option, none, some, or_default, List, [], ◌∷◌, ◌++◌, append-nil, append_assoc, arith,
  All, joined, length, take, drop, length-take, take-append-drop, leb, leb→le, if_true, if_false,
  Sublist, done, keep, Sublist-append, Sublist-nil,
}
use larmindon_core.Asr.{TranscriptUpdate}
use larmindon_core.Nemotron.{Transcript}
use larmindon_core.Nemotron.Decoding.{Loop, on_chunk, chunks_from}
use larmindon_core.Nemotron.Feeding.{Runs, texts, Fed, Again, on_chunk-Fed}

-- The audio in order is chunks of the size and then what is left. The model has been given all of the
-- chunks in order, and while speech lasts perhaps others in between; all that it gave is the text of
-- the updates.
pub record Hears {M A : Type 0} (reset : M → M) (transcribe : M → List A → Transcript × M)
    (speech : Bool) (size : ℕ) (audio left : List A) (m : M) (us : List TranscriptUpdate)
    (after : Option M) : Type 0 where
  pub chunks : List (List A)
  pub fed : List (List A)
  pub model : M
  pub cut : audio ≡ joined chunks ++ left
  pub sized : All (λ c. length c ≡ size) chunks
  pub given : Sublist chunks fed
  pub once : (fed ≡ chunks) ⊎ (speech ≡ true)
  pub runs : Runs reset transcribe m fed (texts us) model
  pub kept : after ≡ some model

module _ {M A : Type 0} (reset : M → M) (transcribe : M → List A → Transcript × M) (m : M) where
  abbrev pub Took : Bool → ℕ → List (List A) → List A → Loop M A × List A → Type 0
  Took speech size fed rest r =
      (chunks : List (List A)) × (more : List (List A)) × (rest ≡ joined chunks ++ r.1)
      × All (λ c. length c ≡ size) chunks
      × Sublist chunks more
      × ((more ≡ chunks) ⊎ (speech ≡ true))
      × Fed reset transcribe m (fed ++ more) r.0

  Took-nothing :
      (speech : Bool) (size : ℕ) (fed : List (List A)) (rest : List A) (s : Loop M A)
      (r : Loop M A × List A)
      → Fed reset transcribe m fed s
      → some (s, rest) ≡ some r
      → Took speech size fed rest r
  Took-nothing speech size fed rest s r h e =
      subst (Took speech size fed rest) (ap (λ o. or_default o (s, rest)) e) (
        [],
        [],
        refl,
        tt,
        done,
        inl refl,
        subst (λ cs. Fed reset transcribe m cs s) (sym (append-nil fed)) h,
      )

  once-then :
      (speech : Bool) (c : List A) (extra chunks more : List (List A))
      → Again speech extra
      → (more ≡ chunks) ⊎ (speech ≡ true)
      → ((c ∷ extra) ++ more ≡ c ∷ chunks) ⊎ (speech ≡ true)
  once-then speech c extra chunks more (inl none_again) (inl same) =
      inl (ap₂ (λ es ms. (c ∷ es) ++ ms) none_again same)
  once-then speech c extra chunks more (inr speaking) o = inr speaking
  once-then speech c extra chunks more a (inr speaking) = inr speaking

  -- One chunk, what is given again for it, and the rest.
  Took-chunk :
      (speech : Bool) (size : ℕ) (fed extra : List (List A)) (rest : List A) (r : Loop M A × List A)
      → size ≤ length rest
      → Again speech extra
      → Took speech size (fed ++ (take size rest ∷ []) ++ extra) (drop size rest) r
      → Took speech size fed rest r
  Took-chunk speech size fed extra rest r whole again (chunks, more, cut, sized, given, once, f) =
      let c = take size rest in
      (
        c ∷ chunks,
        (c ∷ extra) ++ more,
        sym (take-append-drop size rest)
            ∙ ap (λ xs. c ++ xs) cut
            ∙ sym (append_assoc c (joined chunks) r.1),
        (omega (arith, length-take size rest, whole), sized),
        keep (Sublist-append (Sublist-nil extra) given),
        once-then speech c extra chunks more again once,
        subst (λ cs. Fed reset transcribe m cs r.0)
            (ap (λ cs. cs ++ more) (append_assoc fed (c ∷ []) extra)
              ∙ append_assoc fed (c ∷ extra) more)
            f,
      )

  -- What the loop leaves it has not taken, and all else the model has been given.
  pub chunks_from-Took :
      (fuel size : ℕ) (speech enabled : Bool) (threshold : ℕ) (rest : List A) (consumed : ℕ)
      (fed : List (List A)) (s : Loop M A) (r : Loop M A × List A)
      → Fed reset transcribe m fed s
      → chunks_from reset transcribe fuel size speech enabled threshold rest consumed s ≡ some r
      → Took speech size fed rest r
  unfolding chunks_from
  chunks_from-Took zero size speech enabled threshold rest consumed fed s r h e =
      elim (Bool-cases (leb size (length rest))) [
        | inl whole ↦
            let stuck = sym (if_true (leb size (length rest)) none (some (s, rest)) whole) ∙ e in cc
        | inr short ↦
            Took-nothing speech size fed rest s r h
              (sym (if_false (leb size (length rest)) none (some (s, rest)) short) ∙ e)
      ]
  chunks_from-Took (suc fuel) size speech enabled threshold rest consumed fed s r h e =
      let s₁ =
        on_chunk reset transcribe speech enabled threshold (take size rest) (consumed + size) s in
      let next =
        chunks_from reset transcribe fuel size speech enabled threshold (drop size rest)
          (consumed + size) s₁ in
      elim (Bool-cases (leb size (length rest))) [
        | inl whole ↦
            let (extra, again, f) =
              on_chunk-Fed reset transcribe m fed speech enabled threshold (take size rest)
                (consumed + size) s h in
            Took-chunk speech size fed extra rest r (leb→le size (length rest) whole) again (
              chunks_from-Took fuel size speech enabled threshold (drop size rest) (consumed + size)
                (fed ++ (take size rest ∷ []) ++ extra) s₁ r f
                (sym (if_true (leb size (length rest)) next (some (s, rest)) whole) ∙ e))
        | inr short ↦
            Took-nothing speech size fed rest s r h
              (sym (if_false (leb size (length rest)) next (some (s, rest)) short) ∙ e)
      ]
