-- ===== src/Soniox/Tests.antt =====
-- A session of the Soniox backend at concrete input, and the theorems at it.
use larmindon_core.Base.{
  ℕ, ◌%◌, ◌^◌, min, ◌≡◌, ◌⊎◌, Bool, true, false, ◌&&◌, none, some, List, [], ◌∷◌, ◌++◌, arith, leb,
  ◌>>=◌,
}
use larmindon_core.Text.{Text, codes}
use larmindon_core.Text.Visible.{visible}
use larmindon_core.Asr.{TranscriptUpdate, fatal}
use larmindon_core.Asr.Store.Contract.{Contract, Consecutive}
use larmindon_core.Soniox.Protocol.{SonioxToken, SonioxResponse}
use larmindon_core.Soniox.Accumulator.{State}
use larmindon_core.Soniox.Accumulator.Volatile.{ingest, finish}
use larmindon_core.Soniox.Accumulator.Durable.{final_text, spoken_finals}
use larmindon_core.Soniox.Accumulator.Delivery.{tail_text}
use larmindon_core.Soniox.Accumulator.History.{
  Call, ingests, finishes, resets, run, start, run-Contract, ingest_calls, durable_text,
  stop_loses_nothing,
}
use larmindon_core.Soniox.Client.{SonioxClient, Inbound, response, reconnecting, fatal_end}
use larmindon_core.Soniox.Backend.{Working, fold, Delivered, ok, err, poll, SonioxBackend}
use larmindon_core.Soniox.Backend.Folding.{fresh, fold-Contract, connected_with, poll_reports_fatal}
use larmindon_core.Soniox.Backend.Pcm.{PcmArithmetic}

abbrev letter : ℕ → Bool
letter c = leb b'a' c && leb c b'z'

abbrev token : Text → Bool → Text → SonioxToken
token text is_final speaker = record {
  text = text;
  start_ms = none;
  end_ms = none;
  is_final = is_final;
  speaker = some speaker;
  language = none;
  source_language = none;
  translation_status = none;
}

abbrev tokens_of : List SonioxToken → SonioxResponse
tokens_of tokens = record {
  tokens = tokens;
  final_audio_proc_ms = 0;
  total_audio_proc_ms = 0;
  finished = false;
  error_code = none;
  error_type = none;
  error_message = none;
  more_info = none;
  request_id = none;
}

-- Two speakers, a sentence that ends, and provisional words.
abbrev first_response : SonioxResponse
first_response =
    tokens_of
      (token (codes "Hi there.") true (codes "1") ∷ token (codes " yes") false (codes "2") ∷ [])

abbrev second_response : SonioxResponse
second_response =
    tokens_of
      (token (codes " yes it") true (codes "2") ∷ token (codes " is") false (codes "2") ∷ [])

abbrev session_calls : List Call
session_calls = ingests first_response ∷ ingests second_response ∷ finishes ∷ resets ∷ []

run-Contract_example :
    (s : State) × (run letter session_calls (start 1) ≡ some s)
    × Contract s.out
    × Consecutive 1 s.out
run-Contract_example = run-Contract letter 1 session_calls (omega arith)

stop_loses_nothing_example :
    (s : State) × ((run letter (ingest_calls (first_response ∷ [])) (start 1)
        >>= ingest letter second_response)
      ≡ some s)
    × (visible (final_text (finish s).out)
        ≡ (visible (durable_text (first_response ∷ []))
            ++ visible (spoken_finals second_response.tokens))
          ++ visible (tail_text second_response.tokens))
stop_loses_nothing_example =
    stop_loses_nothing letter 1 (first_response ∷ []) second_response (omega arith)

abbrev messages : List Inbound
messages = response first_response ∷ reconnecting (codes "closed") ∷ response second_response ∷ []

fold-Contract_example :
    (w : Working) × (fold letter 0 messages (fresh 1) ≡ some w)
    × Contract w.updates
    × Consecutive 1 w.updates
fold-Contract_example = fold-Contract letter 0 1 messages (omega arith)

abbrev client : SonioxClient
client = record { sent = []; alive = true; inbound = []; queued_samples = 100; finish_sent = false }

poll_reports_fatal_example :
    (d : Delivered) × (ids : ℕ) × (self : SonioxBackend) × (poll letter 7 1
        (connected_with client (messages ++ (fatal_end (codes "key") ∷ [])))
      ≡ some (d, ids, self))
    × ((d ≡ err (fatal (codes "key")))
        ⊎ (((us : List TranscriptUpdate) × (d ≡ ok us))
            × ((later : ℕ)
                → poll letter later ids self
                  ≡ some (err (fatal (codes "key")), ids, record self { pending_fatal = none }))))
poll_reports_fatal_example =
    poll_reports_fatal letter 7 1 client messages (codes "key") (omega arith)

-- A sample as its own low byte.
abbrev low_byte : ℕ → ℕ × ℕ
low_byte x = (x, 0)

-- The samples are numbers, and the clamp is to 32767.
abbrev pcm : PcmArithmetic ℕ
pcm = record { clamp_unit = λ s. min s 32767; scale = λ s. s; as_i16 = λ s. s % 2 ^ 16 }
