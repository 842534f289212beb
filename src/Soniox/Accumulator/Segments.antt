-- ===== src/Soniox/Accumulator/Segments.antt =====
-- src/asr/soniox/accumulator.rs: the durable lane against the store of the updates. A step is followed
-- in one lemma: that it returns, what the store makes of its updates, and the state it leaves.
use larmindon_core.Base.{
  ℕ, suc, ◌+◌, ◌*◌, ◌≤◌, ◌<◌, ◌≡◌, refl, sym, ap, ◌∙◌, Bool, true, inl, inr, Option, none, some,
  List, [], ◌∷◌, ◌++◌, arith, Bool-cases, if◌then◌else◌, if_true, if_false, length, ◌>>=◌,
}
use larmindon_core.Text.{Text, is_blank}
use larmindon_core.Asr.{TranscriptUpdate}
use larmindon_core.Asr.SegmentIds
use larmindon_core.Asr.SegmentIds.{u64_mod}
use larmindon_core.Asr.Store.{Store, accept, accept_all, accept_all-append}
use larmindon_core.Asr.Store.Linked.{Linked, close_open, emit_next}
use larmindon_core.Soniox.Protocol.{SonioxToken, is_special, is_end_marker, normalized_speaker}
use larmindon_core.Soniox.Accumulator.{
  Run, State, update_of, flush_id, flush_pending, flush, changes_speaker, take_speaker, push_text,
  ingest_final, ingest_finals,
}
use larmindon_core.Soniox.Accumulator.Sentence.{ends_sentence}

-- The store `st` has accepted all that was put out, and the counter has room for `n` more ids.
pub record Good (start : Store) (n : ℕ) (s : State) : Type 0 where
  pub store : Store
  pub accepted : accept_all start s.out ≡ some store
  pub linked : Linked store s.ids s.open_ids
  pub aligned : length s.open_runs ≡ length s.open_ids
  pub room : s.ids + n < u64_mod

-- The step returns, and leaves the state good.
abbrev pub Steps : Store → ℕ → Option State → Type 0
Steps start n o = (s' : State) × (o ≡ some s') × Good start n s'

pub accept_one :
    (st : Store) (u : TranscriptUpdate) {st' : Store}
    → accept st u ≡ some st'
    → accept_all st (u ∷ []) ≡ some st'
unfolding accept_all
accept_one st u e = rw e

module _ {start : Store} where
  pub Good-weaken : {m : ℕ} (n : ℕ) {s : State} → n ≤ m → Good start m s → Good start n s
  Good-weaken n h g = record {
    store = g.store;
    accepted = g.accepted;
    linked = g.linked;
    aligned = g.aligned;
    room = omega (arith, g.room);
  }

  flush_pending-Good :
      (n : ℕ) (s : State) (ids : List ℕ) (runs : List Run)
      → s.open_ids ≡ ids
      → s.open_runs ≡ runs
      → Good start (suc n) s
      → Steps start n (flush_pending s)
  unfolding flush_pending flush_id SegmentIds.next
  flush_pending-Good n s [] runs e f g =
      let u = update_of s.ids true (record { speaker = s.pending_speaker; text = s.pending }) in
      let (st', ok, l) = emit_next u (rw e at g.linked) (omega (arith, g.room)) refl refl in
      (
        record {
          acc = record s.acc { pending = []; open_ids = []; open_runs = runs };
          ids = (SegmentIds.next s.ids).1;
          out = s.out ++ (u ∷ []);
        },
        rw (e, f),
        record {
          store = st';
          accepted = accept_all-append start s.out (u ∷ []) g.accepted ∙ accept_one g.store u ok;
          linked = l;
          aligned = omega (arith, ap length (sym f) ∙ g.aligned ∙ ap length e);
          room = omega (arith, g.room);
        },
      )
  flush_pending-Good n s (i ∷ is) [] e f g = absurd (ground (arith, g.aligned))
  flush_pending-Good n s (i ∷ is) (r ∷ rs) e f g =
      let u = update_of i true (record { speaker = s.pending_speaker; text = s.pending }) in
      let (st', ok, l) = close_open u [] i is (rw e at g.linked) refl refl in
      (
        record {
          acc = record s.acc { pending = []; open_ids = is; open_runs = rs };
          ids = s.ids;
          out = s.out ++ (u ∷ []);
        },
        rw (e, f),
        record {
          store = st';
          accepted = accept_all-append start s.out (u ∷ []) g.accepted ∙ accept_one g.store u ok;
          linked = l;
          aligned = omega (arith, ap length (sym f) ∙ g.aligned ∙ ap length e);
          room = omega (arith, g.room);
        },
      )

  -- A change of the pending text or speaker is not seen by the store.
  same_lanes :
      {n : ℕ} (s : State) (pending : Text) (speaker : Option Text)
      → Good start n s
      → Good start n
          (record s { acc = record s.acc { pending = pending; pending_speaker = speaker } })
  same_lanes s pending speaker g = record {
    store = g.store;
    accepted = g.accepted;
    linked = g.linked;
    aligned = g.aligned;
    room = g.room;
  }

  flush-Good : (n : ℕ) (s : State) → Good start (suc n) s → Steps start n (flush s)
  unfolding flush
  flush-Good n s g = elim (Bool-cases (is_blank s.pending)) [
    | inl e ↦ (
      record s { acc = record s.acc { pending = [] } },
      if_true (is_blank s.pending) _ _ e,
      Good-weaken n (omega arith) (same_lanes s [] s.pending_speaker g),
    )
    | inr e ↦
        let (s', ok, g') = flush_pending-Good n s s.open_ids s.open_runs refl refl g in
        (s', if_false (is_blank s.pending) _ _ e ∙ ok, g')
  ]

  take_speaker-Good :
      (n : ℕ) (found : Option Text) (s : State)
      → Good start (suc n) s
      → Steps start n (take_speaker found s)
  unfolding take_speaker
  take_speaker-Good n none s g = (s, refl, Good-weaken n (omega arith) g)
  take_speaker-Good n (some found) s g =
      elim (Bool-cases (changes_speaker s.pending_speaker found)) [
        | inl e ↦
            let (s', ok, g') = flush-Good n s g in
            (
              record s' { acc = record s'.acc { pending_speaker = some found } },
              rw (e, ok),
              same_lanes s' s'.pending (some found) g',
            )
        | inr e ↦ (
          record s { acc = record s.acc { pending_speaker = some found } },
          rw e,
          Good-weaken n (omega arith) (same_lanes s s.pending (some found) g),
        )
      ]

  module _ (alphabetic : ℕ → Bool) where
    push_text-Good :
        (n : ℕ) (text : Text) (s : State)
        → Good start (suc n) s
        → Steps start n (push_text alphabetic text s)
    unfolding push_text
    push_text-Good n text s g =
        let t : State = record s { acc = record s.acc { pending = s.pending ++ text } } in
        let g' : Good start (suc n) t = same_lanes s (s.pending ++ text) s.pending_speaker g in
        elim (Bool-cases (ends_sentence alphabetic (s.pending ++ text))) [
          | inl e ↦
              let (s', ok, g'') = flush-Good n t g' in
              (s', if_true (ends_sentence alphabetic t.pending) _ _ e ∙ ok, g'')
          | inr e ↦ (
            t,
            if_false (ends_sentence alphabetic t.pending) _ _ e,
            Good-weaken n (omega arith) g',
          )
        ]

    -- After the speaker: a control token or text.
    body-Good :
        (n : ℕ) (token : SonioxToken) (s : State)
        → Good start (suc n) s
        → Steps start n (
            if is_end_marker token
            then flush s
            else (if is_special token then some s else push_text alphabetic token.text s))
    body-Good n token s g = elim (Bool-cases (is_end_marker token)) [
      | inl e ↦ rw e (flush-Good n s g)
      | inr e ↦ elim (Bool-cases (is_special token)) [
        | inl f ↦ rw (e, f) (s, refl, Good-weaken n (omega arith) g)
        | inr f ↦ rw (e, f) (push_text-Good n token.text s g)
      ]
    ]

    ingest_final-Good :
        (n : ℕ) (token : SonioxToken) (s : State)
        → Good start (suc (suc n)) s
        → Steps start n (ingest_final alphabetic token s)
    unfolding ingest_final
    ingest_final-Good n token s g =
        let (t, e, g') = take_speaker-Good (suc n) (normalized_speaker token) s g in
        rw e (body-Good n token t g')

    pub ingest_finals-Good :
        (n : ℕ) (tokens : List SonioxToken) (s : State)
        → Good start (length tokens * 2 + n) s
        → Steps start n (ingest_finals alphabetic tokens s)
    unfolding ingest_finals
    ingest_finals-Good n [] s g = (s, refl, Good-weaken n (omega arith) g)
    ingest_finals-Good n (token ∷ tokens) s g = elim (Bool-cases token.is_final) [
      | inl e ↦
          let (t, ok, g') =
            ingest_final-Good (length tokens * 2 + n) token s
              (Good-weaken (suc (suc (length tokens * 2 + n))) (omega arith) g) in
          let (s', ok', g'') = ingest_finals-Good n tokens t g' in
          (
            s',
            if_true token.is_final _ _ e ∙ ap (λ o. o >>= ingest_finals alphabetic tokens) ok ∙ ok',
            g'',
          )
      | inr e ↦
          let (s', ok, g') =
            ingest_finals-Good n tokens s (Good-weaken (length tokens * 2 + n) (omega arith) g) in
          (s', if_false token.is_final _ _ e ∙ ok, g')
    ]
