-- ===== src/Soniox/Accumulator/Publishing.antt =====
-- src/asr/soniox/accumulator.rs: `publish_open`, `ingest` and `finish` against the store of the updates.
use larmindon_core.Base.{
  ℕ, suc, ◌+◌, ◌*◌, ◌≤◌, ◌<◌, ◌≡◌, refl, sym, ap, subst, ◌∙◌, Bool, true, false, Option, none, some,
  List, [], ◌∷◌, ◌++◌, append-nil, arith, length, length-append, length-take, drop, drop_ge, take,
  take-append-drop, get_elem?, get_elem?-split, get_elem?-lt, get_elem?-some, drop-get_elem?,
  le→leb, ◌>>=◌,
}
use larmindon_core.Asr.SegmentIds
use larmindon_core.Asr.SegmentIds.{u64_mod}
use larmindon_core.Asr.Store.{Store, accept_all, accept_all-append}
use larmindon_core.Asr.Store.Linked.{Linked, close_open, revise_open, open_next}
use larmindon_core.Soniox.Protocol.{SonioxResponse}
use larmindon_core.Soniox.Accumulator.{Run, State, update_of}
use larmindon_core.Soniox.Accumulator.Volatile.{
  build_open_runs, Published, publish_run, publish_runs, retract, retract_all, split_off,
  publish_open, ingest, finish_runs, finish,
}
use larmindon_core.Soniox.Accumulator.RunCount.{length-build_open_runs}
use larmindon_core.Soniox.Accumulator.Segments.{
  Good, Steps, Good-weaken, accept_one, ingest_finals-Good,
}

-- `Good`, within the loop of `publish_open`.
record Live (start : Store) (n : ℕ) (p : Published) : Type 0 where
  store : Store
  accepted : accept_all start p.out ≡ some store
  linked : Linked store p.ids p.open_ids
  room : p.ids + n < u64_mod

retract_all-Linked :
    (st : Store) (n : ℕ) (kept dropped : List ℕ)
    → Linked st n (kept ++ dropped)
    → (st' : Store) × (accept_all st (retract_all dropped) ≡ some st') × Linked st' n kept
unfolding accept_all
retract_all-Linked st n kept [] l = (st, refl, rw append-nil at l)
retract_all-Linked st n kept (j ∷ js) l =
    let (st', e, l') = close_open (retract j) kept j js l refl refl in
    let (st'', e', l'') = retract_all-Linked st' n kept js l' in (st'', rw e e', l'')

module _ {start : Store} where
  publish_run-Live :
      (n i : ℕ) (o : Option ℕ) (r : Run) (p : Published)
      → get_elem? p.open_ids i ≡ o
      → i ≤ length p.open_ids
      → Live start (suc n) p
      → Live start n (publish_run o r p) × (i < length (publish_run o r p).open_ids)
  unfolding publish_run SegmentIds.next
  publish_run-Live n i (some j) r p e h v =
      let u = update_of j false r in
      let (xs, ys, split) = get_elem?-split p.open_ids i e in
      let (st', ok, l) =
        revise_open u xs j ys (subst (Linked v.store p.ids) split v.linked) refl refl in
      (
        record {
          store = st';
          accepted = accept_all-append start p.out (u ∷ []) v.accepted ∙ accept_one v.store u ok;
          linked = subst (Linked st' p.ids) (sym split) l;
          room = omega (arith, v.room);
        },
        get_elem?-lt p.open_ids i e,
      )
  publish_run-Live n i none r p e h v =
      let u = update_of p.ids false r in
      let (st', ok, l) = open_next u p.open_ids v.linked (omega (arith, v.room)) refl refl in
      (
        record {
          store = st';
          accepted = accept_all-append start p.out (u ∷ []) v.accepted ∙ accept_one v.store u ok;
          linked = l;
          room = omega (arith, v.room);
        },
        omega (arith, length-append p.open_ids (p.ids ∷ [])),
      )

  publish_runs-Live :
      (n i : ℕ) (rs : List Run) (p : Published)
      → i ≤ length p.open_ids
      → Live start (length rs + n) p
      → Live start n (publish_runs i rs p) × (i + length rs ≤ length (publish_runs i rs p).open_ids)
  unfolding publish_runs
  publish_runs-Live n i [] p h v = (
    record {
      store = v.store;
      accepted = v.accepted;
      linked = v.linked;
      room = omega (arith, v.room);
    },
    omega arith,
  )
  publish_runs-Live n i (r ∷ rs) p h v =
      let (v', h') =
        publish_run-Live (length rs + n) i (get_elem? p.open_ids i) r p refl h (record {
          store = v.store;
          accepted = v.accepted;
          linked = v.linked;
          room = omega (arith, v.room);
        }) in
      let (v'', h'') =
        publish_runs-Live n (i + 1) rs (publish_run (get_elem? p.open_ids i) r p) (omega arith)
          v' in
      (v'', omega arith)

  publish_open-Good :
      (n : ℕ) (rs : List Run) (s : State)
      → Good start (length rs + n) s
      → Steps start n (publish_open rs s)
  unfolding publish_open split_off
  publish_open-Good n rs s g =
      let p₀ : Published = record { open_ids = s.open_ids; ids = s.ids; out = s.out } in
      let (v, long) =
        publish_runs-Live n 0 rs p₀ (omega arith)
          (record { store = g.store; accepted = g.accepted; linked = g.linked; room = g.room }) in
      let p = publish_runs 0 rs p₀ in
      let kept = take (length rs) p.open_ids in
      let dropped = drop (length rs) p.open_ids in
      let (st', ok, l) =
        retract_all-Linked v.store p.ids kept dropped
          (subst (Linked v.store p.ids) (sym (take-append-drop (length rs) p.open_ids)) v.linked) in
      (
        record {
          acc = record s.acc { open_runs = rs; open_ids = kept };
          ids = p.ids;
          out = p.out ++ retract_all dropped;
        },
        rw (le→leb (length rs) (length p.open_ids) (omega arith)),
        record {
          store = st';
          accepted = accept_all-append start p.out (retract_all dropped) v.accepted ∙ ok;
          linked = l;
          aligned = omega (arith, length-take (length rs) p.open_ids);
          room = v.room;
        },
      )

-- The ids that one response can take at most.
abbrev pub budget : SonioxResponse → ℕ
budget r = length r.tokens * 3 + 1

-- The open ids from position `i` on are closed one by one; a new id is never needed.
finish_runs-Linked :
    (open_ids : List ℕ) (i : ℕ) (rs : List Run) (ids : ℕ) (st : Store)
    → i + length rs ≤ length open_ids
    → Linked st ids (drop i open_ids)
    → ((finish_runs open_ids i rs ids).0 ≡ ids)
      × (st' : Store) × (accept_all st (finish_runs open_ids i rs ids).1 ≡ some st')
      × Linked st' ids (drop (i + length rs) open_ids)
unfolding finish_runs accept_all
finish_runs-Linked open_ids i [] ids st h l =
    let e : i + 0 ≡ i = omega arith in (refl, st, refl, rw e l)
finish_runs-Linked open_ids i (r ∷ rs) ids st h l =
    let (j, found) = get_elem?-some open_ids i (omega arith) in
    let (st', ok, l') =
      close_open (update_of j true r) [] j (drop (suc i) open_ids)
        (subst (Linked st ids) (drop-get_elem? open_ids i found) l) refl refl in
    let next : suc i ≡ i + 1 = omega arith in
    let (same, st'', ok', l'') =
      finish_runs-Linked open_ids (i + 1) rs ids st' (omega arith) (rw next at l') in
    let last : i + suc (length rs) ≡ i + 1 + length rs = omega arith in
    (rw found same, st'', rw (found, ok) ok', rw last l'')

accept_none : {st : Store} → accept_all st [] ≡ some st
unfolding accept_all
accept_none = refl

module _ {start : Store} where
  pub ingest-Good :
      (alphabetic : ℕ → Bool) (n : ℕ) (r : SonioxResponse) (s : State)
      → Good start (budget r + n) s
      → Steps start n (ingest alphabetic r s)
  unfolding ingest
  ingest-Good alphabetic n r s g =
      let k = length r.tokens in
      let (t, ok, g') =
        ingest_finals-Good alphabetic (k + 1 + n) r.tokens s
          (Good-weaken (k * 2 + (k + 1 + n)) (omega arith) g) in
      let runs = build_open_runs t.acc r in
      let (s', ok', g'') =
        publish_open-Good n runs t
          (Good-weaken (length runs + n) (omega (arith, length-build_open_runs t.acc r)) g') in
      (s', ap (λ o. o >>= λ t'. publish_open (build_open_runs t'.acc r) t') ok ∙ ok', g'')

  pub finish-Good : (n : ℕ) (s : State) → Good start n s → Good start n (finish s)
  unfolding finish
  finish-Good n s g =
      let (same, st', ok, l) =
        finish_runs-Linked s.open_ids 0 s.open_runs s.ids g.store (omega (arith, g.aligned))
          g.linked in
      let us = (finish_runs s.open_ids 0 s.open_runs s.ids).1 in
      let gone : (drop (length s.open_runs) s.open_ids ≡ []) =
        drop_ge (length s.open_runs) s.open_ids (omega (arith, g.aligned)) in
      let gone' : (drop (0 + length s.open_runs) s.open_ids ≡ []) =
        drop_ge (0 + length s.open_runs) s.open_ids (omega (arith, g.aligned)) in
      record {
        store = st';
        accepted =
            accept_all-append start (s.out ++ us)
              (retract_all (drop (length s.open_runs) s.open_ids))
              (accept_all-append start s.out us g.accepted ∙ ok)
            ∙ rw gone accept_none;
        linked = subst (λ k. Linked st' k []) (sym same) (subst (Linked st' s.ids) gone' l);
        aligned = refl;
        room = rw same g.room;
      }
