-- ===== src/Soniox/Accumulator/Durable.antt =====
-- src/asr/soniox/accumulator.rs: the durable text, as delivered in final updates and as pending.
use larmindon_core.Base.{
  ℕ, ◌≡◌, refl, sym, ap, ◌∙◌, Bool, true, false, inl, inr, Option, none, some, List, [], ◌∷◌, ◌++◌,
  append_assoc, append-nil, arith, Bool-cases, >>=-eq-some, if◌then◌else◌, then_branch, else_branch,
  if_true, if_false,
}
use larmindon_core.Text.{Text, is_blank}
use larmindon_core.Text.Visible.{visible, visible-nil, visible-append, visible-blank}
use larmindon_core.Asr.{TranscriptUpdate}
use larmindon_core.Soniox.Protocol.{SonioxToken, is_special, is_end_marker, normalized_speaker}
use larmindon_core.Soniox.Accumulator.{
  Run, State, update_of, flush_id, flush_pending, flush, changes_speaker, take_speaker, push_text,
  ingest_final, ingest_finals,
}
use larmindon_core.Soniox.Accumulator.Sentence.{ends_sentence}

-- The text of the updates that are final, in order.
unfoldable pub final_text : List TranscriptUpdate → Text
final_text [] = []
final_text (u ∷ us) = if u.is_final then u.text ++ final_text us else final_text us

pub final_text-append :
    (us vs : List TranscriptUpdate) → final_text (us ++ vs) ≡ final_text us ++ final_text vs
unfolding final_text
final_text-append [] vs = refl
final_text-append (u ∷ us) vs = elim (Bool-cases u.is_final) [
  | inl e ↦ rw (e, final_text-append us vs, append_assoc)
  | inr e ↦ rw e (final_text-append us vs)
]

-- What the final updates and the pending buffer hold, without whitespace.
abbrev pub delivered : State → Text
delivered s = visible (final_text s.out ++ s.pending)

pub final_text-one : (i : ℕ) (r : Run) → final_text (update_of i true r ∷ []) ≡ r.text
unfolding final_text
final_text-one i r = append-nil r.text

flush_pending-final_text :
    (s : State) {s' : State}
    → flush_pending s ≡ some s'
    → (s'.pending ≡ []) × (final_text s'.out ≡ final_text s.out ++ s.pending)
unfolding flush_pending
flush_pending-final_text s h =
    let (r, e, f) = >>=-eq-some (flush_id s.open_ids s.open_runs s.ids) _ h in
    let last : Run = record { speaker = s.pending_speaker; text = s.pending } in
    ground
      (arith, e, f, final_text-append s.out (update_of r.0 true last ∷ []), final_text-one r.0 last)

drop_blank : (s t : Text) → is_blank t ≡ true → visible (s ++ []) ≡ visible (s ++ t)
drop_blank s t h = rw (append-nil, visible-append, visible-blank t h, append-nil)

-- A flush moves the pending text to the final updates; only whitespace is dropped.
pub flush-delivered : (s : State) {s' : State} → flush s ≡ some s' → delivered s' ≡ delivered s
unfolding flush
flush-delivered s {s'} h = elim (Bool-cases (is_blank s.pending)) [
  | inl blank ↦ ground (arith, drop_blank (final_text s.out) s.pending blank)
  | inr full ↦
      let (emptied, moved) = flush_pending-final_text s {s' = s'} (rw full at h) in
      rw (emptied, moved, append-nil)
]

pub take_speaker-delivered :
    (found : Option Text) (s : State) {s' : State}
    → take_speaker found s ≡ some s'
    → delivered s' ≡ delivered s
unfolding take_speaker
take_speaker-delivered none s h = ground arith
take_speaker-delivered (some found) s {s'} h =
    let (mid, e, f) =
      >>=-eq-some (if changes_speaker s.pending_speaker found then flush s else some s) _ h in
    elim (Bool-cases (changes_speaker s.pending_speaker found)) [
      | inl c ↦ ground (
        arith,
        e,
        f,
        flush-delivered s {s' = mid}
            (then_branch (changes_speaker s.pending_speaker found) _ _ c e),
      )
      | inr c ↦ ground arith
    ]

-- The durable text of the final tokens: control tokens have none.
abbrev pub spoken : SonioxToken → Text
spoken token = if is_special token then [] else token.text

-- The durable text of a response.
pub spoken_finals : List SonioxToken → Text
spoken_finals [] = []
spoken_finals (token ∷ tokens) =
    if token.is_final then spoken token ++ spoken_finals tokens else spoken_finals tokens

module _ (alphabetic : ℕ → Bool) where
  push_text-delivered :
      (text : Text) (s : State) {s' : State}
      → push_text alphabetic text s ≡ some s'
      → delivered s' ≡ delivered s ++ visible text
  unfolding push_text
  push_text-delivered text s {s'} h =
      let t : State = record s { acc = record s.acc { pending = s.pending ++ text } } in
      let grown : (delivered t ≡ delivered s ++ visible text) =
        rw (← append_assoc) (visible-append (final_text s.out ++ s.pending) text) in
      elim (Bool-cases (ends_sentence alphabetic t.pending)) [
        | inl c ↦ flush-delivered t {s' = s'} (rw c at h) ∙ grown
        | inr c ↦ ground (arith, grown)
      ]

  end_marker_special : (token : SonioxToken) → is_end_marker token ≡ true → is_special token ≡ true
  unfolding is_end_marker is_special
  end_marker_special token h = rw h

  pub ingest_final-delivered :
      (token : SonioxToken) (s : State) {s' : State}
      → ingest_final alphabetic token s ≡ some s'
      → delivered s' ≡ delivered s ++ visible (spoken token)
  unfolding ingest_final
  ingest_final-delivered token s {s'} h =
      let (t, e, f) = >>=-eq-some (take_speaker (normalized_speaker token) s) _ h in
      let same = take_speaker-delivered (normalized_speaker token) s {s' = t} e in
      elim (Bool-cases (is_special token)) [
        | inl special ↦ elim (Bool-cases (is_end_marker token)) [
          | inl ends ↦
              rw (special, visible-nil, append-nil)
                (flush-delivered t {s' = s'} (then_branch (is_end_marker token) _ _ ends f) ∙ same)
          | inr more ↦
              rw (special, visible-nil, append-nil)
                (ground (
                  arith,
                  then_branch (is_special token) _ _ special
                      (else_branch (is_end_marker token) _ _ more f),
                  same,
                ))
        ]
        | inr speech ↦ elim (Bool-cases (is_end_marker token)) [
          | inl ends ↦ absurd (ground (arith, end_marker_special token ends))
          | inr more ↦ rw speech (
              push_text-delivered token.text t {s' = s'} (
                else_branch (is_special token) _ _ speech
                  (else_branch (is_end_marker token) _ _ more f))
              ∙ ap (λ d. d ++ visible token.text) same)
        ]
      ]

  spoken_finals-final :
      (token : SonioxToken) (tokens : List SonioxToken)
      → token.is_final ≡ true
      → spoken_finals (token ∷ tokens) ≡ spoken token ++ spoken_finals tokens
  unfolding spoken_finals
  spoken_finals-final token tokens e = if_true token.is_final _ _ e

  spoken_finals-open :
      (token : SonioxToken) (tokens : List SonioxToken)
      → token.is_final ≡ false
      → spoken_finals (token ∷ tokens) ≡ spoken_finals tokens
  unfolding spoken_finals
  spoken_finals-open token tokens e = if_false token.is_final _ _ e

  spoken_finals-nil : spoken_finals [] ≡ []
  unfolding spoken_finals
  spoken_finals-nil = refl

  regroup :
      (token : SonioxToken) (tokens : List SonioxToken) (s : State)
      → token.is_final ≡ true
      → (delivered s ++ visible (spoken token)) ++ visible (spoken_finals tokens)
        ≡ delivered s ++ visible (spoken_finals (token ∷ tokens))
  regroup token tokens s e =
      append_assoc (delivered s) (visible (spoken token)) (visible (spoken_finals tokens))
      ∙ ap (λ d. delivered s ++ d)
          (sym (visible-append (spoken token) (spoken_finals tokens))
            ∙ ap visible (sym (spoken_finals-final token tokens e)))

  pub ingest_finals-delivered :
      (tokens : List SonioxToken) (s : State) {s' : State}
      → ingest_finals alphabetic tokens s ≡ some s'
      → delivered s' ≡ delivered s ++ visible (spoken_finals tokens)
  unfolding ingest_finals
  ingest_finals-delivered [] s h = rw (spoken_finals-nil, visible-nil, append-nil) (ground arith)
  ingest_finals-delivered (token ∷ tokens) s {s'} h = elim (Bool-cases token.is_final) [
    | inl e ↦
        let (t, e₁, e₂) =
          >>=-eq-some (ingest_final alphabetic token s) (ingest_finals alphabetic tokens)
            (then_branch token.is_final _ _ e h) in
        (ingest_finals-delivered tokens t {s' = s'} e₂
          ∙ ap (λ d. d ++ visible (spoken_finals tokens))
              (ingest_final-delivered token s {s' = t} e₁))
        ∙ regroup token tokens s e
    | inr e ↦
        rw (spoken_finals-open token tokens e)
          (ingest_finals-delivered tokens s {s' = s'} (else_branch token.is_final _ _ e h))
  ]
