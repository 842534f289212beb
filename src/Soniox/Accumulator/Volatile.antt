-- ===== src/Soniox/Accumulator/Volatile.antt =====
-- src/asr/soniox/accumulator.rs: the volatile lane, and the methods that publish it (`ingest`,
-- `publish_open`, `finish`, `reset`).
use larmindon_core.Base.{
  ℕ, ◌+◌, Bool, true, false, not, ◌&&◌, Option, none, some, List, [], ◌∷◌, ◌++◌, length, drop, take,
  get_elem?, leb, is_empty, if◌then◌else◌, ◌>>=◌,
}
use larmindon_core.Text.{Text, opt_text_eq, is_blank}
use larmindon_core.Asr.{TranscriptUpdate}
use larmindon_core.Asr.SegmentIds
use larmindon_core.Soniox.Protocol.{SonioxToken, SonioxResponse, is_special, normalized_speaker}
use larmindon_core.Soniox.Accumulator.{Run, Accumulator, State, new, update_of, ingest_finals}

-- `runs.last_mut()`: the last run grows if the speaker is its own, and a new run is pushed otherwise.
unfoldable pub extend_runs : List Run → Option Text → Text → List Run
extend_runs [] speaker text = record { speaker = speaker; text = text } ∷ []
extend_runs (r ∷ []) speaker text =
    if opt_text_eq r.speaker speaker
    then record r { text = r.text ++ text } ∷ []
    else r ∷ record { speaker = speaker; text = text } ∷ []
extend_runs (r ∷ r' ∷ rs) speaker text = r ∷ extend_runs (r' ∷ rs) speaker text

abbrev pub inherit : Option Text → Option Text → Option Text
inherit none current = current
inherit (some found) current = some found

unfoldable pub is_tail_token : SonioxToken → Bool
is_tail_token token = not token.is_final && not (is_special token)

-- The loop over the provisional tokens.
unfoldable pub tail_runs : List SonioxToken → Option Text → List Run → List Run
unfolding extend_runs
tail_runs [] speaker runs = runs
tail_runs (token ∷ tokens) speaker runs =
    let found = inherit (normalized_speaker token) speaker in
    let kept = tail_runs tokens found (extend_runs runs found token.text) in
    let skipped = tail_runs tokens speaker runs in if is_tail_token token then kept else skipped

-- `runs.retain(|run| !run.text.trim().is_empty())`.
unfoldable pub retain_runs : List Run → List Run
retain_runs [] = []
retain_runs (r ∷ rs) = if is_blank r.text then retain_runs rs else r ∷ retain_runs rs

abbrev pub pending_runs : Accumulator → List Run
pending_runs a =
    if is_empty a.pending then [] else record { speaker = a.pending_speaker; text = a.pending } ∷ []

unfoldable pub build_open_runs : Accumulator → SonioxResponse → List Run
unfolding tail_runs retain_runs
build_open_runs a response =
    retain_runs (tail_runs response.tokens a.pending_speaker (pending_runs a))

-- The loop of `publish_open` from position `i` on: the open ids, the counter and the updates.
pub record Published : Type 0 where
  pub open_ids : List ℕ
  pub ids : ℕ
  pub out : List TranscriptUpdate

unfoldable pub publish_run : Option ℕ → Run → Published → Published
publish_run (some i) run p = record p { out = p.out ++ (update_of i false run ∷ []) }
publish_run none run p =
    let (i, ids) = SegmentIds.next p.ids in
    record {
      open_ids = p.open_ids ++ (i ∷ []);
      ids = ids;
      out = p.out ++ (update_of i false run ∷ []);
    }

unfoldable pub publish_runs : ℕ → List Run → Published → Published
unfolding publish_run
publish_runs i [] p = p
publish_runs i (run ∷ runs) p =
    publish_runs (i + 1) runs (publish_run (get_elem? p.open_ids i) run p)

-- An empty final update withdraws a segment that is shown.
abbrev pub retract : ℕ → TranscriptUpdate
retract i = record { segment_id = i; is_final = true; text = []; speaker = none }

abbrev pub retract_all : List ℕ → List TranscriptUpdate
retract_all [] = []
retract_all (i ∷ is) = retract i ∷ retract_all is

-- `split_off(at)` panics where `at` is past the end.
unfoldable pub split_off {ℓ} : {A : Type ℓ} → List A → ℕ → Option (List A × List A)
split_off xs at = if leb at (length xs) then some (take at xs, drop at xs) else none

-- `out.extend(self.publish_open(runs, ids))`.
unfoldable pub publish_open : List Run → State → Option State
unfolding publish_runs split_off
publish_open runs s = do
  let p = publish_runs 0 runs (record { open_ids = s.open_ids; ids = s.ids; out = s.out })
  (kept, dropped) ← split_off p.open_ids (length runs)
  some (record {
    acc = record s.acc { open_runs = runs; open_ids = kept };
    ids = p.ids;
    out = p.out ++ retract_all dropped;
  })

unfoldable pub ingest : (ℕ → Bool) → SonioxResponse → State → Option State
unfolding ingest_finals build_open_runs publish_open
ingest alphabetic response s = do
  s' ← ingest_finals alphabetic response.tokens s
  publish_open (build_open_runs s'.acc response) s'

-- The loop of `finish` from position `i` on, over the ids that were open.
unfoldable pub finish_run : Option ℕ → Run → ℕ → ℕ × TranscriptUpdate
finish_run (some i) run ids = (ids, update_of i true run)
finish_run none run ids = let (i, ids') = SegmentIds.next ids in (ids', update_of i true run)

unfoldable pub finish_runs : List ℕ → ℕ → List Run → ℕ → ℕ × List TranscriptUpdate
unfolding finish_run
finish_runs open_ids i [] ids = (ids, [])
finish_runs open_ids i (run ∷ runs) ids =
    let (ids', u) = finish_run (get_elem? open_ids i) run ids in
    let (ids'', us) = finish_runs open_ids (i + 1) runs ids' in (ids'', u ∷ us)

unfoldable pub finish : State → State
unfolding finish_runs
finish s =
    let (ids, us) = finish_runs s.open_ids 0 s.open_runs s.ids in
    record {
      acc = record s.acc { pending = []; open_runs = []; open_ids = [] };
      ids = ids;
      out = (s.out ++ us) ++ retract_all (drop (length s.open_runs) s.open_ids);
    }

unfoldable pub reset : State → State
unfolding new
reset s = record s { acc = new }
