-- ===== src/Soniox/Accumulator/History.antt =====
-- src/asr/soniox/accumulator.rs: whole sessions, any sequence of calls of the public methods.
use larmindon_core.Base.{
  ℕ, ◌+◌, ◌<◌, ◌≡◌, refl, ap, ◌∙◌, Bool, Option, some, List, [], ◌∷◌, ◌++◌, arith, sym, append-nil,
  append_assoc, >>=-eq-some, ◌>>=◌,
}
use larmindon_core.Text.{Text}
use larmindon_core.Text.Visible.{visible, visible-nil, visible-append}
use larmindon_core.Asr.SegmentIds.{u64_mod}
use larmindon_core.Asr.Store.{Store, unseen, accept_all}
use larmindon_core.Asr.Store.Contract.{
  Contract, Consecutive, accept_all-Contract, accept_all-Consecutive,
}
use larmindon_core.Soniox.Protocol.{SonioxResponse}
use larmindon_core.Soniox.Accumulator.{State, new}
use larmindon_core.Soniox.Accumulator.Volatile.{ingest, finish, reset}
use larmindon_core.Soniox.Accumulator.Durable.{final_text, delivered, spoken_finals}
use larmindon_core.Soniox.Accumulator.Delivery.{tail_text, ingest-delivered, finish-ingest}
use larmindon_core.Soniox.Accumulator.Segments.{Good, Steps, Good-weaken}
use larmindon_core.Soniox.Accumulator.Publishing.{budget, ingest-Good, finish-Good}

pub data Call : Type 0 where
  ingests : SonioxResponse → Call
  finishes resets : Call

unfoldable pub call : (ℕ → Bool) → Call → State → Option State
call alphabetic (ingests r) s = ingest alphabetic r s
call alphabetic finishes s = some (finish s)
call alphabetic resets s = some (reset s)

unfoldable pub run : (ℕ → Bool) → List Call → State → Option State
unfolding call
run alphabetic [] s = some s
run alphabetic (c ∷ cs) s = call alphabetic c s >>= run alphabetic cs

-- A new accumulator, with the engine's counter at `n`.
unfoldable pub start : ℕ → State
unfolding new
start n = record { acc = new; ids = n; out = [] }

-- The ids that the calls can take at most.
abbrev pub cost : Call → ℕ
cost (ingests r) = budget r
cost finishes = 0
cost resets = 0

abbrev pub total_cost : List Call → ℕ
total_cost [] = 0
total_cost (c ∷ cs) = cost c + total_cost cs

module _ {st₀ : Store} where
  reset-Good : (n : ℕ) (s : State) → Good st₀ n s → Good st₀ n (reset s)
  unfolding reset
  reset-Good n s g = record {
    store = g.store;
    accepted = g.accepted;
    linked = record {
      counts = g.linked.counts;
      bounded = g.linked.bounded;
      ascending = omega arith;
      all_shown = tt;
    };
    aligned = refl;
    room = g.room;
  }

  call-Good :
      (alphabetic : ℕ → Bool) (n : ℕ) (c : Call) (s : State)
      → Good st₀ (cost c + n) s
      → Steps st₀ n (call alphabetic c s)
  unfolding call
  call-Good alphabetic n (ingests r) s g = ingest-Good alphabetic n r s g
  call-Good alphabetic n finishes s g =
      (finish s, refl, finish-Good n s (Good-weaken n (omega arith) g))
  call-Good alphabetic n resets s g =
      (reset s, refl, reset-Good n s (Good-weaken n (omega arith) g))

  run-Good :
      (alphabetic : ℕ → Bool) (n : ℕ) (cs : List Call) (s : State)
      → Good st₀ (total_cost cs + n) s
      → Steps st₀ n (run alphabetic cs s)
  unfolding run
  run-Good alphabetic n [] s g = (s, refl, Good-weaken n (omega arith) g)
  run-Good alphabetic n (c ∷ cs) s g =
      let (t, ok, g') =
        call-Good alphabetic (total_cost cs + n) c s
          (Good-weaken (cost c + (total_cost cs + n)) (omega arith) g) in
      let (s', ok', g'') = run-Good alphabetic n cs t g' in
      (s', ap (λ o. o >>= run alphabetic cs) ok ∙ ok', g'')

-- A store that has seen no id from `n` on, nor any other.
fresh_store : ℕ → Store
fresh_store n = record { phase = λ _. unseen; next = n }

start-Good : (n k : ℕ) → n + k < u64_mod → Good (fresh_store n) k (start n)
unfolding fresh_store start accept_all
start-Good n k h = record {
  store = fresh_store n;
  accepted = refl;
  linked = record {
    counts = refl;
    bounded = λ i le. refl;
    ascending = omega arith;
    all_shown = tt;
  };
  aligned = refl;
  room = h;
}

-- While the 64-bit counter has room for three ids a token and one more a response, every sequence of
-- `ingest`, `finish` and `reset` returns without a panic. Each segment it puts out is final at most
-- once and does not come back after that, and new ids come in order, each one more than the last.
pub run-Contract :
    (alphabetic : ℕ → Bool) (n : ℕ) (cs : List Call)
    → n + total_cost cs < u64_mod
    → (s : State) × (run alphabetic cs (start n) ≡ some s) × Contract s.out × Consecutive n s.out
unfolding fresh_store
run-Contract alphabetic n cs h =
    let (s, ok, g) =
      run-Good alphabetic 0 cs (start n) (start-Good n (total_cost cs + 0) (omega (arith, h))) in
    (
      s,
      ok,
      accept_all-Contract (fresh_store n) s.out g.accepted,
      accept_all-Consecutive (fresh_store n) s.out (λ i le. refl) g.accepted,
    )

abbrev pub ingest_calls : List SonioxResponse → List Call
ingest_calls [] = []
ingest_calls (r ∷ rs) = ingests r ∷ ingest_calls rs

-- The durable text of a list of responses.
abbrev pub durable_text : List SonioxResponse → Text
durable_text [] = []
durable_text (r ∷ rs) = spoken_finals r.tokens ++ durable_text rs

run-delivered :
    (alphabetic : ℕ → Bool) (rs : List SonioxResponse) (s : State) {s' : State}
    → run alphabetic (ingest_calls rs) s ≡ some s'
    → delivered s' ≡ delivered s ++ visible (durable_text rs)
unfolding run call
run-delivered alphabetic [] s h = rw (visible-nil, append-nil) (ground arith)
run-delivered alphabetic (r ∷ rs) s {s'} h =
    let (t, e, f) = >>=-eq-some (ingest alphabetic r s) (run alphabetic (ingest_calls rs)) h in
    run-delivered alphabetic rs t {s' = s'} f
    ∙ ap (λ d. d ++ visible (durable_text rs)) (ingest-delivered alphabetic r s {s' = t} e)
    ∙ append_assoc (delivered s) (visible (spoken_finals r.tokens)) (visible (durable_text rs))
    ∙ ap (λ d. delivered s ++ d) (sym (visible-append (spoken_finals r.tokens) (durable_text rs)))

delivered-start : (n : ℕ) → delivered (start n) ≡ []
unfolding start final_text
delivered-start n = visible-nil

-- Stopping loses nothing: after any responses and a last one, while the counter has room, `finish`
-- leaves in the final updates all the final text of the responses and then the provisional text of
-- the last, in order and once, whitespace and control tokens apart. No call panics.
pub stop_loses_nothing :
    (alphabetic : ℕ → Bool) (n : ℕ) (rs : List SonioxResponse) (r : SonioxResponse)
    → n + (total_cost (ingest_calls rs) + budget r) < u64_mod
    → (s : State) × ((run alphabetic (ingest_calls rs) (start n) >>= ingest alphabetic r) ≡ some s)
      × (visible (final_text (finish s).out)
          ≡ (visible (durable_text rs) ++ visible (spoken_finals r.tokens))
            ++ visible (tail_text r.tokens))
unfolding fresh_store
stop_loses_nothing alphabetic n rs r h =
    let calls = ingest_calls rs in
    let (t, ok, g) =
      run-Good alphabetic (budget r) calls (start n)
        (start-Good n (total_cost calls + budget r) h) in
    let (s, ok', _) = ingest-Good alphabetic 0 r t (Good-weaken (budget r + 0) (omega arith) g) in
    (
      s,
      ap (λ o. o >>= ingest alphabetic r) ok ∙ ok',
      finish-ingest alphabetic r t {s' = s} ok'
          ∙ ap (λ d. (d ++ visible (spoken_finals r.tokens)) ++ visible (tail_text r.tokens))
              (run-delivered alphabetic rs (start n) {s' = t} ok
                ∙ ap (λ d. d ++ visible (durable_text rs)) (delivered-start n)),
    )
