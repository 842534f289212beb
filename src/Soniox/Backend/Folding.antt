-- ===== src/Soniox/Backend/Folding.antt =====
-- src/asr/soniox/backend.rs: the socket thread's messages as calls of the accumulator, and `poll`.
use larmindon_core.Base.{
  ℕ, ◌+◌, ◌<◌, ◌≡◌, refl, sym, ap, ap₂, ◌∙◌, ◌⊎◌, inl, inr, Bool, Option, none, some, List, [], ◌∷◌,
  ◌++◌, arith, >>=-eq-some, ◌>>=◌,
}
use larmindon_core.Text.{Text}
use larmindon_core.Asr.{TranscriptUpdate, fatal}
use larmindon_core.Asr.SegmentIds.{u64_mod}
use larmindon_core.Asr.Store.Contract.{Contract, Consecutive}
use larmindon_core.Soniox.Protocol.{SonioxResponse}
use larmindon_core.Soniox.Accumulator.{State}
use larmindon_core.Soniox.Accumulator.Volatile.{ingest}
use larmindon_core.Soniox.Accumulator.History.{
  Call, ingests, finishes, resets, run, start, total_cost, run-Contract,
}
use larmindon_core.Soniox.Client.{
  SonioxClient, Inbound, response, reconnecting, finished, fatal_end, drain,
}
use larmindon_core.Soniox.Backend.{
  SonioxBackend, new, Working, state_of, put_state, mark_speech, fold_message, fold, drain_inbound,
  Delivered, ok, err, owed, deliver, poll,
}

-- The calls of the accumulator that the messages lead to.
abbrev pub all_calls : List Inbound → List Call
all_calls [] = []
all_calls (response r ∷ ms) = ingests r ∷ all_calls ms
all_calls (reconnecting reason ∷ ms) = finishes ∷ resets ∷ all_calls ms
all_calls (finished ∷ ms) = all_calls ms
all_calls (fatal_end message ∷ ms) = finishes ∷ resets ∷ all_calls ms

-- A new backend with the engine's counter at `n`.
abbrev pub fresh : ℕ → Working
fresh n = record { self = new; ids = n; updates = [] }

module _ (alphabetic : ℕ → Bool) (now : ℕ) where
  state_of-mark_speech :
      (r : SonioxResponse) (w : Working) → state_of (mark_speech now r w) ≡ state_of w
  state_of-mark_speech r w = ground arith

  mark_speech-client :
      (r : SonioxResponse) (w : Working) → (mark_speech now r w).self.client ≡ w.self.client
  mark_speech-client r w = ground arith

  -- The fold returns when the calls do, and leaves the accumulator as they do.
  pub fold-run :
      (ms : List Inbound) (w : Working) {s : State}
      → run alphabetic (all_calls ms) (state_of w) ≡ some s
      → (w' : Working) × (fold alphabetic now ms w ≡ some w') × (state_of w' ≡ s)
  unfolding fold run
  fold-run [] w h = (w, refl, ground arith)
  fold-run (response r ∷ ms) w h =
      let (t, e, f) =
        >>=-eq-some (ingest alphabetic r (state_of w)) (run alphabetic (all_calls ms)) h in
      let marked = mark_speech now r w in
      let ok_t : (ingest alphabetic r (state_of marked) ≡ some t) =
        ap (ingest alphabetic r) (state_of-mark_speech r w) ∙ e in
      let (w', ok_w, same) = fold-run ms (put_state t marked) f in
      (
        w',
        ap (λ o. (o >>= λ s. some (put_state s marked)) >>= fold alphabetic now ms) ok_t ∙ ok_w,
        same,
      )
  fold-run (reconnecting reason ∷ ms) w h = fold-run ms _ h
  fold-run (finished ∷ ms) w h = fold-run ms w h
  fold-run (fatal_end message ∷ ms) w h = fold-run ms _ h

  fold_message-client :
      (m : Inbound) (w : Working) {w' : Working}
      → fold_message alphabetic now m w ≡ some w'
      → w'.self.client ≡ w.self.client
  unfolding fold_message
  fold_message-client (response r) w {w'} h =
      let marked = mark_speech now r w in
      let (t, e, f) =
        >>=-eq-some (ingest alphabetic r (state_of marked)) (λ s. some (put_state s marked)) h in
      ap (λ (v : Option Working). elim v [ none ↦ none | some u ↦ u.self.client ]) (sym f)
      ∙ mark_speech-client r w
  fold_message-client (reconnecting reason) w h = ground arith
  fold_message-client finished w h = ground arith
  fold_message-client (fatal_end message) w h = ground arith

  fold-client :
      (ms : List Inbound) (w : Working) {w' : Working}
      → fold alphabetic now ms w ≡ some w'
      → w'.self.client ≡ w.self.client
  unfolding fold
  fold-client [] w h = ground arith
  fold-client (m ∷ ms) w {w'} h =
      let (t, e, f) = >>=-eq-some (fold_message alphabetic now m w) (fold alphabetic now ms) h in
      fold-client ms t {w' = w'} f ∙ fold_message-client m w {w' = t} e

  fold-fatal_last :
      (ms : List Inbound) (message : Text) (w : Working) {w' : Working}
      → fold alphabetic now (ms ++ (fatal_end message ∷ [])) w ≡ some w'
      → w'.self.pending_fatal ≡ some message
  unfolding fold
  fold-fatal_last [] message w h = ground arith
  fold-fatal_last (m ∷ ms) message w {w'} h =
      let (t, e, f) =
        >>=-eq-some (fold_message alphabetic now m w)
          (fold alphabetic now (ms ++ (fatal_end message ∷ []))) h in
      fold-fatal_last ms message t {w' = w'} f

-- While the 64-bit id counter has room for what the messages can open, a new backend that takes in any
-- messages of the socket thread, reconnections and a fatal end included, does not panic, and what it
-- puts out makes each segment final at most once and nothing of it after, with new ids in order.
pub fold-Contract :
    (alphabetic : ℕ → Bool) (now n : ℕ) (ms : List Inbound)
    → n + total_cost (all_calls ms) < u64_mod
    → (w : Working) × (fold alphabetic now ms (fresh n) ≡ some w)
      × Contract w.updates
      × Consecutive n w.updates
unfolding start new
fold-Contract alphabetic now n ms h =
    let (s, runs, contract, consecutive) = run-Contract alphabetic n (all_calls ms) h in
    let (w, folds, same) = fold-run alphabetic now ms (fresh n) runs in
    (w, folds, rw (sym same) at contract, rw (sym same) at consecutive)

-- A new backend whose socket thread has sent these messages.
abbrev pub connected_with : SonioxClient → List Inbound → SonioxBackend
connected_with c ms = record new { client = some (record c { inbound = ms }) }

deliver-fatal :
    (us : List TranscriptUpdate) (self : SonioxBackend) {message : Text}
    → self.pending_fatal ≡ some message
    → ((deliver us none self).0 ≡ err (fatal message)) ⊎ (deliver us none self ≡ (ok us, self))
unfolding deliver owed
deliver-fatal [] self h = inl (ap (λ o. (owed o self.pending_transient none self).0) h)
deliver-fatal (u ∷ us) self h = inr refl

-- The backend `self` with no message to take in, and a fatal one owed.
abbrev owing : SonioxBackend → Option SonioxClient → Option Text → SonioxBackend
owing self c message = record self { client = c; pending_fatal = message }

poll_again :
    (alphabetic : ℕ → Bool) (now ids : ℕ) (self : SonioxBackend) (c : SonioxClient) (message : Text)
    → poll alphabetic now ids (owing self (some (record c { inbound = [] })) (some message))
      ≡ some (err (fatal message), ids, owing self (some (record c { inbound = [] })) none)
unfolding poll drain_inbound drain fold deliver owed
poll_again alphabetic now ids self c message = refl

-- The socket thread's last word is reported: when its messages end with a fatal one, the first `poll`
-- returns, and either it is that error or it is text, and then the error is what the next `poll`
-- returns, whenever it comes. The id counter has room for what the messages can open.
pub poll_reports_fatal :
    (alphabetic : ℕ → Bool) (now n : ℕ) (c : SonioxClient) (ms : List Inbound) (message : Text)
    → n + total_cost (all_calls (ms ++ (fatal_end message ∷ []))) < u64_mod
    → (d : Delivered) × (ids : ℕ) × (self : SonioxBackend) × (poll alphabetic now n
          (connected_with c (ms ++ (fatal_end message ∷ [])))
        ≡ some (d, ids, self))
      × ((d ≡ err (fatal message))
          ⊎ (((us : List TranscriptUpdate) × (d ≡ ok us))
              × ((later : ℕ)
                  → poll alphabetic later ids self
                    ≡ some (err (fatal message), ids, record self { pending_fatal = none }))))
unfolding poll drain_inbound drain new start
poll_reports_fatal alphabetic now n c ms message h =
    let all = ms ++ (fatal_end message ∷ []) in
    let w₀ : Working = record { self = connected_with c []; ids = n; updates = [] } in
    let (s, runs, _, _) = run-Contract alphabetic n (all_calls all) h in
    let (w, folds, _) = fold-run alphabetic now all w₀ runs in
    let client = fold-client alphabetic now all w₀ {w' = w} folds in
    let is_owed = fold-fatal_last alphabetic now ms message w₀ {w' = w} folds in
    (
      (deliver w.updates none w.self).0,
      w.ids,
      (deliver w.updates none w.self).1,
      ap
          (λ o. o >>= λ v.
            some ((deliver v.updates none v.self).0, v.ids, (deliver v.updates none v.self).1))
          folds,
      elim (deliver-fatal w.updates w.self is_owed) [
        | inl e ↦ inl e
        | inr e ↦
            let left = ap (λ r. r.1) e ∙ ap₂ (owing w.self) client is_owed in
            inr (
              (w.updates, ap (λ r. r.0) e),
              λ later.
                  ap (poll alphabetic later w.ids) left
                  ∙ poll_again alphabetic later w.ids w.self c message
                  ∙ ap (λ v. some (err (fatal message), w.ids, record v { pending_fatal = none }))
                      (sym left),
            )
      ],
    )
