-- ===== src/Engine/Tests.antt =====
-- The engine at concrete input: numbers are samples and probabilities, the VAD model gives the first
-- sample of a frame, and the backend counts what it is pushed.
use larmindon_core.Base.{
  ℕ, ◌+◌, ◌*◌, ◌<◌, ◌≡◌, refl, Bool, true, false, none, some, List, [], ◌∷◌, ◌++◌, arith, joined,
  length, replicate, leb, ltb, or_default, get_elem?, All, ok, err, Sublist,
}
use larmindon_core.Text.{codes}
use larmindon_core.Asr.{
  TranscriptUpdate, transient, AsrCapabilities, vad_gated, continuous, backend,
}
use larmindon_core.Asr.Backend.{AsrBackend}
use larmindon_core.Settings.{Host}
use larmindon_core.Settings.File.{default}
use larmindon_core.Capture.Backend.{AudioCapture}
use larmindon_core.Capture.Devices.{monitor, select_default_device}
use larmindon_core.Vad.{silence}
use larmindon_core.Vad.Processor.{Run}
use larmindon_core.Engine.Frames.{frame_all, frame_all_lem}
use larmindon_core.Engine.Meter.{Levels, AudioLevelMeter, Spaced, emitted_at, emitted_at-Spaced}
use larmindon_core.Engine.Meter
use larmindon_core.Engine.Gating.{Effect, Gate, vad_stages, vad_frame_size}
use larmindon_core.Engine.Gating.Delivery.{pushed, follow_all}
use larmindon_core.Engine.Gating.Stages.{vad_state}
use larmindon_core.Engine.Gating.Sessions.{heard}
use larmindon_core.Engine.Gating.Routing.{
  start_gate, start_gate-IsReady, vad_stages-routes, vad_stages-continuous,
}
use larmindon_core.Engine.Loop.{Resampler, Agc, Loop, Round, Next, rounds}
use larmindon_core.Engine.Loop.Totality.{IsFair, HasReturned, is_stopped, rounds-returns}
use larmindon_core.Engine.Commands.{Thread, Joined, models, Command, start, stop, reconnect}
use larmindon_core.Engine.Commands.Starting.{new}
use larmindon_core.Engine.Commands.Handling.{run}
use larmindon_core.Engine.Commands.Threads.{spawned_threads, joined_threads, IsRaised}
use larmindon_core.Engine.Commands.Stopping.{IsIdle, Kept}
use larmindon_core.Engine.Commands.Running.{run-Kept, stop-leaves_none}

abbrev drained : List (List ℕ)
drained = (2 ∷ 3 ∷ 4 ∷ 5 ∷ []) ∷ [] ∷ (6 ∷ []) ∷ []

frame_all_lem_example :
    (out : List ℕ) × (last : List ℕ) × (frames : ℕ) × (frame_all (1 ∷ []) drained 3
      ≡ some (out, last))
    × (out ++ last ≡ (1 ∷ []) ++ joined drained)
    × (length last < 3)
    × (length out ≡ frames * 3)
frame_all_lem_example = frame_all_lem (1 ∷ []) drained 3 (omega arith) (omega arith)

abbrev ge : ℕ → ℕ → Bool
ge a b = leb b a

abbrev model : Run ℕ Unit ℕ
model input state = ok (tt, ok (or_default (get_elem? input 64) 0))

-- Two iterations, the second quiet.
abbrev iterations : List ((ℕ → ℕ) × List ℕ)
iterations = (λ k. k, replicate 600 9) ∷ (λ k. k + 40, replicate 500 0) ∷ []

vad_stages-routes_example :
    (effects : List (Effect ℕ)) × (rest : List ℕ) × (g : Gate ℕ Unit ℕ) × (vad_stages ge model
        vad_gated iterations []
        (start_gate tt 0 5 3 none)
      ≡ some (effects, rest, g))
    × Sublist (pushed effects) (heard iterations)
    × (follow_all vad_gated silence effects ≡ some (vad_state g))
    × (length rest < vad_frame_size)
vad_stages-routes_example = vad_stages-routes ge model vad_gated tt 0 5 3 none iterations tt

vad_stages-continuous_example :
    (effects : List (Effect ℕ)) × (rest : List ℕ) × (g : Gate ℕ Unit ℕ) × (vad_stages ge model
        continuous iterations []
        (start_gate tt 0 5 3 none)
      ≡ some (effects, rest, g))
    × (pushed effects ++ rest ≡ heard iterations)
    × (length rest < vad_frame_size)
vad_stages-continuous_example =
    vad_stages-continuous ge model tt 0 5 3 none iterations tt (λ input state. (tt, _, refl))

abbrev levels : Levels ℕ ℕ
levels = record {
  zero_sum = 0;
  add = λ a b. a + b;
  sum_of_squares = length;
  level_of = λ sum count. sum;
}

abbrev meter : AudioLevelMeter ℕ
meter = record { sum_squares = 0; sample_count = 0; last_emit = 100 }

-- Rounds at 120, 160 and 230 ms.
abbrev metered : List (ℕ × List ℕ)
metered = (120, 1 ∷ []) ∷ (160, 2 ∷ []) ∷ (230, 3 ∷ []) ∷ []

emitted_at-Spaced_example : Spaced 50 100 (emitted_at levels metered meter)
emitted_at-Spaced_example = emitted_at-Spaced levels metered meter

emitted_at_runs : emitted_at levels metered meter ≡ 160 ∷ 230 ∷ []
unfolding emitted_at Meter.observe Meter.take_level_if_due
emitted_at_runs = refl

abbrev update : TranscriptUpdate
update = record { segment_id = 1; is_final = true; text = codes "a"; speaker = none }

abbrev caps : AsrCapabilities
caps = record {
  revises_output = false;
  diarization = false;
  audio_gating = vad_gated;
  activity_source = backend 100;
}

abbrev counting : AsrBackend ℕ ℕ
counting = record {
  id = λ b. codes "nemotron";
  capabilities = λ b. caps;
  is_cacheable = λ b. true;
  begin_session = λ s b. (ok tt, b);
  push_audio = λ samples b. b + length samples;
  mark_speech_start = λ b. b;
  mark_speech_end = λ u d b. b;
  process = λ state b. (ok [], b);
  poll = λ b. (err (transient (codes "late")), b);
  last_speech_at = λ b. none;
  chunks_processed = λ b. b;
  update_settings = λ s b. b;
  end_session = λ b. (ok (update ∷ []), b);
}

-- One sample in three is kept.
abbrev thirds : Resampler ℕ Unit
thirds = record { input_frames_next = λ r. 3; process = λ samples r. (ok ((0 ∷ []) ∷ []), r) }

abbrev no_agc : Agc ℕ Unit
no_agc = record { process = λ samples g. (samples, g); update_params = λ s g. g }

abbrev session : Loop ℕ ℕ Unit Unit Unit ℕ
session = record {
  backend = 0;
  caps = caps;
  gate = start_gate tt 0 5 3 none;
  agc = tt;
  resampler = some tt;
  resample_leftover = [];
  vad_leftover = [];
  meter = meter;
}

abbrev reads : Bool → List ℕ → Round ℕ
reads stopped drained' = record {
  stop = stopped;
  new_settings = none;
  drained = drained';
  uptime = 7;
  now = 200;
  clock = λ k. k;
}

abbrev read_rounds : List (Round ℕ)
read_rounds = reads false (1 ∷ 2 ∷ 3 ∷ 4 ∷ []) ∷ reads false [] ∷ reads true [] ∷ []

rounds-returns_example :
    (n : Next ℕ ℕ Unit Unit Unit ℕ) × (rounds counting ge model thirds no_agc levels read_rounds
        session
      ≡ some n)
    × (is_stopped read_rounds ≡ true → HasReturned counting ge model thirds no_agc levels n)
    × IsFair counting ge model thirds no_agc levels n
rounds-returns_example =
    rounds-returns counting ge model thirds no_agc levels read_rounds session (λ r. omega arith)
      (record { waiting = []; ready = start_gate-IsReady tt 0 5 3 none tt })

abbrev host : Host
host = record {
  F32 = ℕ;
  lt = ltb;
  le = leb;
  tenths = λ n. n;
  neg = λ n. n;
  Disk = Unit;
  path_exists = λ d path. true;
  create_dir_all = λ d path. (d, none);
  read_to_string = λ d path. none;
  write = λ d path text. (d, none);
  var = λ name. none;
  join = λ a b. a ++ b;
  parent = λ path. none;
}

abbrev capture : AudioCapture ℕ ℕ
capture = record {
  enumerate_devices = λ c. (
    ok (
        record {
          id = codes "m";
          name = codes "Monitor";
          device_type = monitor;
          is_default = true;
          application_name = none;
        }
        ∷ []),
    c,
  );
  start = λ id buffer flag c. (ok (c, 48000), c + 1);
}

abbrev joining : Thread ℕ ℕ Unit → Joined ℕ Unit
joining t = models (t.stop_flag) tt

abbrev commands : List (Command ℕ)
commands = start none (default host) ∷ start none (default host) ∷ reconnect (codes "x") ∷ []

run-Kept_example :
    Kept
      (run host counting joining capture commands (new 0 false)).0
      (run host counting joining capture commands (new 0 false)).1
run-Kept_example = run-Kept host counting joining capture commands 0 false

stop-leaves_none_example :
    IsIdle (run host counting joining capture (commands ++ (stop ∷ [])) (new 0 false)).0
    × All
        (IsRaised
          (run host counting joining capture (commands ++ (stop ∷ [])) (new 0 false)).0.flags)
        (spawned_threads
          (run host counting joining capture (commands ++ (stop ∷ [])) (new 0 false)).1)
    × (spawned_threads (run host counting joining capture (commands ++ (stop ∷ [])) (new 0 false)).1
        ≡ joined_threads
            (run host counting joining capture (commands ++ (stop ∷ [])) (new 0 false)).1)
stop-leaves_none_example = stop-leaves_none host counting joining capture commands 0 false

two_threads :
    length (spawned_threads (run host counting joining capture commands (new 0 false)).1) ≡ 2
unfolding run spawned_threads new default select_default_device
two_threads = refl
