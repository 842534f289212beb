-- ===== src/Diag/Tests.antt =====
-- The diagnostics at concrete input.
use larmindon_core.Base.{ℕ, ◌≡◌, refl, Bool, true, false, none, some, List, [], ◌∷◌, ◌++◌, ok}
use larmindon_core.Text.{codes}
use larmindon_core.Diag.{
  Row, Connection, DiagSink, Write, shutdown, vad_error, write_all, open_sink,
}
use larmindon_core.Diag.Gate.{headings, live_headings, write_all-live}

abbrev database : Connection ℕ
database = record { sessions = 2 ∷ 4 ∷ []; rows = [] }

-- Diagnostics are off for the second call.
abbrev calls : List (Bool × Bool × Write ℕ)
calls =
    (true, true, vad_error 1 (codes "bad"))
    ∷ (false, true, shutdown 2 3)
    ∷ (true, true, shutdown 4 5)
    ∷ []

abbrev opened : DiagSink ℕ
opened = record {
  conn = some (record { sessions = 2 ∷ 4 ∷ 7 ∷ []; rows = [] });
  session_id = 7;
  chunk_ms = 560;
}

abbrev no_path : DiagSink ℕ
no_path = record { conn = none; session_id = 0; chunk_ms = 560 }

write_all-live_example :
    (added : List (Row ℕ)) × (write_all calls opened ≡ record {
      conn = some (record { sessions = 2 ∷ 4 ∷ 7 ∷ []; rows = [] ++ added });
      session_id = 7;
      chunk_ms = 560;
    })
    × (headings added ≡ live_headings 7 calls)
    × (write_all calls no_path ≡ no_path)
unfolding open_sink
write_all-live_example = write_all-live database 7 560 true (ok 8) calls opened no_path refl refl
