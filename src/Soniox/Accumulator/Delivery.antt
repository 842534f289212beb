-- ===== src/Soniox/Accumulator/Delivery.antt =====
-- src/asr/soniox/accumulator.rs: the text of the open runs, and what `finish` makes of it.
use larmindon_core.Base.{
  ℕ, ◌+◌, ◌≡◌, refl, sym, ap, ap₂, ◌∙◌, Bool, false, inl, inr, Option, none, some, List, [], ◌∷◌,
  ◌++◌, append_assoc, append-nil, arith, Bool-cases, >>=-eq-some, if◌then◌else◌, length, drop,
  get_elem?,
}
use larmindon_core.Text.{Text, is_blank, opt_text_eq}
use larmindon_core.Text.Visible.{visible, visible-append, visible-blank}
use larmindon_core.Asr.{TranscriptUpdate}
use larmindon_core.Asr.SegmentIds
use larmindon_core.Soniox.Protocol.{SonioxToken, SonioxResponse, normalized_speaker}
use larmindon_core.Soniox.Accumulator.{Run, Accumulator, State, update_of, ingest_finals}
use larmindon_core.Soniox.Accumulator.Volatile.{
  extend_runs, inherit, is_tail_token, tail_runs, retain_runs, pending_runs, build_open_runs,
  Published, publish_run, publish_runs, retract_all, split_off, publish_open, ingest, finish_run,
  finish_runs, finish,
}
use larmindon_core.Soniox.Accumulator.Durable.{
  final_text, final_text-append, delivered, spoken_finals, ingest_finals-delivered,
}

pub runs_text : List Run → Text
runs_text [] = []
runs_text (r ∷ rs) = r.text ++ runs_text rs

-- The provisional text of a response.
pub tail_text : List SonioxToken → Text
tail_text [] = []
tail_text (token ∷ tokens) =
    if is_tail_token token then token.text ++ tail_text tokens else tail_text tokens

visible-retain_runs :
    (rs : List Run) → visible (runs_text (retain_runs rs)) ≡ visible (runs_text rs)
unfolding runs_text retain_runs
visible-retain_runs [] = refl
visible-retain_runs (r ∷ rs) = elim (Bool-cases (is_blank r.text)) [
  | inl e ↦ rw (e, visible-append, visible-blank r.text e) (visible-retain_runs rs)
  | inr e ↦
      rw (e, visible-append, visible-append)
        (ap (λ d. visible r.text ++ d) (visible-retain_runs rs))
]

runs_text-extend_runs :
    (rs : List Run) (speaker : Option Text) (t : Text)
    → runs_text (extend_runs rs speaker t) ≡ runs_text rs ++ t
unfolding runs_text extend_runs
runs_text-extend_runs [] speaker t = append-nil t
runs_text-extend_runs (r ∷ []) speaker t = elim (Bool-cases (opt_text_eq r.speaker speaker)) [
  | inl e ↦ rw e (simp (append-nil))
  | inr e ↦ rw e (simp (append-nil))
]
runs_text-extend_runs (r ∷ r' ∷ rs) speaker t =
    ap (λ d. r.text ++ d) (runs_text-extend_runs (r' ∷ rs) speaker t)
    ∙ sym (append_assoc r.text (runs_text (r' ∷ rs)) t)

runs_text-tail_runs :
    (tokens : List SonioxToken) (speaker : Option Text) (rs : List Run)
    → runs_text (tail_runs tokens speaker rs) ≡ runs_text rs ++ tail_text tokens
unfolding tail_runs tail_text
runs_text-tail_runs [] speaker rs = sym (append-nil (runs_text rs))
runs_text-tail_runs (token ∷ tokens) speaker rs = elim (Bool-cases (is_tail_token token)) [
  | inl e ↦
      let found = inherit (normalized_speaker token) speaker in
      rw
        (
          e,
          runs_text-tail_runs tokens found (extend_runs rs found token.text),
          runs_text-extend_runs,
        )
        (append_assoc (runs_text rs) token.text (tail_text tokens))
  | inr e ↦ rw e (runs_text-tail_runs tokens speaker rs)
]

runs_text-pending_runs :
    (a : Accumulator) (t : Text) → a.pending ≡ t → runs_text (pending_runs a) ≡ t
unfolding runs_text
runs_text-pending_runs a [] e = rw e
runs_text-pending_runs a (c ∷ t) e = rw e (append-nil (c ∷ t))

visible-build_open_runs :
    (a : Accumulator) (r : SonioxResponse)
    → visible (runs_text (build_open_runs a r)) ≡ visible (a.pending ++ tail_text r.tokens)
unfolding build_open_runs
visible-build_open_runs a r =
    visible-retain_runs (tail_runs r.tokens a.pending_speaker (pending_runs a))
    ∙ ap visible (
        runs_text-tail_runs r.tokens a.pending_speaker (pending_runs a)
        ∙ ap (λ d. d ++ tail_text r.tokens) (runs_text-pending_runs a a.pending refl))

-- Open updates and retractions deliver no text.
final_text-open :
    (us : List TranscriptUpdate) (i : ℕ) (r : Run)
    → final_text (us ++ (update_of i false r ∷ [])) ≡ final_text us
unfolding final_text
final_text-open us i r =
    final_text-append us (update_of i false r ∷ []) ∙ append-nil (final_text us)

final_text-retract_all : (is : List ℕ) → final_text (retract_all is) ≡ []
unfolding final_text
final_text-retract_all [] = refl
final_text-retract_all (i ∷ is) = final_text-retract_all is

final_text-nil : final_text [] ≡ []
unfolding final_text
final_text-nil = refl

final_text-publish_run :
    (o : Option ℕ) (r : Run) (p : Published) → final_text (publish_run o r p).out ≡ final_text p.out
unfolding publish_run SegmentIds.next
final_text-publish_run (some i) r p = final_text-open p.out i r
final_text-publish_run none r p = final_text-open p.out p.ids r

final_text-publish_runs :
    (i : ℕ) (rs : List Run) (p : Published)
    → final_text (publish_runs i rs p).out ≡ final_text p.out
unfolding publish_runs
final_text-publish_runs i [] p = refl
final_text-publish_runs i (r ∷ rs) p =
    final_text-publish_runs (i + 1) rs (publish_run (get_elem? p.open_ids i) r p)
    ∙ final_text-publish_run (get_elem? p.open_ids i) r p

-- `publish_open` delivers nothing and keeps the pending text; the runs are now the open ones.
pub publish_open-delivered :
    (runs : List Run) (s : State) {s' : State}
    → publish_open runs s ≡ some s'
    → (final_text s'.out ≡ final_text s.out) × (s'.pending ≡ s.pending) × (s'.open_runs ≡ runs)
unfolding publish_open
publish_open-delivered runs s h =
    let p : Published =
      publish_runs 0 runs (record { open_ids = s.open_ids; ids = s.ids; out = s.out }) in
    let ((kept, dropped), e, f) = >>=-eq-some (split_off p.open_ids (length runs)) _ h in
    ground (
      arith,
      f,
      final_text-append p.out (retract_all dropped),
      final_text-retract_all dropped,
      append-nil (final_text p.out),
      final_text-publish_runs 0 runs (record { open_ids = s.open_ids; ids = s.ids; out = s.out }),
    )

final_text-finish_run :
    (o : Option ℕ) (r : Run) (ids : ℕ) (us : List TranscriptUpdate)
    → final_text ((finish_run o r ids).1 ∷ us) ≡ r.text ++ final_text us
unfolding finish_run SegmentIds.next final_text
final_text-finish_run (some i) r ids us = refl
final_text-finish_run none r ids us = refl

final_text-finish_runs :
    (open_ids : List ℕ) (i : ℕ) (rs : List Run) (ids : ℕ)
    → final_text (finish_runs open_ids i rs ids).1 ≡ runs_text rs
unfolding finish_runs runs_text
final_text-finish_runs open_ids i [] ids = final_text-nil
final_text-finish_runs open_ids i (r ∷ rs) ids =
    let (ids', u) = finish_run (get_elem? open_ids i) r ids in
    final_text-finish_run (get_elem? open_ids i) r ids (finish_runs open_ids (i + 1) rs ids').1
    ∙ ap (λ d. r.text ++ d) (final_text-finish_runs open_ids (i + 1) rs ids')

-- `finish` delivers the text of the open runs.
pub finish-final_text :
    (s : State) → final_text (finish s).out ≡ final_text s.out ++ runs_text s.open_runs
unfolding finish
finish-final_text s =
    let us = (finish_runs s.open_ids 0 s.open_runs s.ids).1 in
    let gone = drop (length s.open_runs) s.open_ids in
    final_text-append (s.out ++ us) (retract_all gone)
    ∙ ap (λ d. final_text (s.out ++ us) ++ d) (final_text-retract_all gone)
    ∙ append-nil (final_text (s.out ++ us))
    ∙ final_text-append s.out us
    ∙ ap (λ d. final_text s.out ++ d) (final_text-finish_runs s.open_ids 0 s.open_runs s.ids)

module _ (alphabetic : ℕ → Bool) (response : SonioxResponse) (s : State) {s' : State} where
  -- One response adds exactly its final text, whitespace apart, to what the final updates and the
  -- pending buffer hold.
  pub ingest-delivered :
      ingest alphabetic response s ≡ some s'
      → delivered s' ≡ delivered s ++ visible (spoken_finals response.tokens)
  unfolding ingest
  ingest-delivered h =
      let (t, e, f) = >>=-eq-some (ingest_finals alphabetic response.tokens s) _ h in
      let (same, kept, _) = publish_open-delivered (build_open_runs t.acc response) t {s' = s'} f in
      rw (same, kept) (ingest_finals-delivered alphabetic response.tokens s {s' = t} e)

  -- Stopping right after a response delivers all that was delivered or pending before it, then its
  -- final text, then its provisional text, in this order and once, whitespace apart.
  pub finish-ingest :
      ingest alphabetic response s ≡ some s'
      → visible (final_text (finish s').out)
        ≡ (delivered s ++ visible (spoken_finals response.tokens))
          ++ visible (tail_text response.tokens)
  unfolding ingest
  finish-ingest h =
      let (t, e, f) = >>=-eq-some (ingest_finals alphabetic response.tokens s) _ h in
      let (same, kept, opened) =
        publish_open-delivered (build_open_runs t.acc response) t {s' = s'} f in
      let durable = ingest_finals-delivered alphabetic response.tokens s {s' = t} e in
      let runs = visible-build_open_runs t.acc response in
      let tail = tail_text response.tokens in
      ap visible (finish-final_text s' ∙ ap₂ ◌++◌ same (ap runs_text opened))
      ∙ visible-append (final_text t.out) (runs_text (build_open_runs t.acc response))
      ∙ ap (λ d. visible (final_text t.out) ++ d) runs
      ∙ sym (visible-append (final_text t.out) (t.pending ++ tail))
      ∙ ap visible (sym (append_assoc (final_text t.out) t.pending tail))
      ∙ visible-append (final_text t.out ++ t.pending) tail
      ∙ ap (λ d. d ++ visible tail) durable
