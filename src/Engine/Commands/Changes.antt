-- ===== src/Engine/Commands/Changes.antt =====
-- src/audio_engine.rs: the invariant of the engine over changes that start and join no thread.
use larmindon_core.Base.{
  ℕ, ◌≤◌, ◌≡◌, sym, ap, ap₂, ◌∙◌, subst, Bool, true, Option, none, some, List, [], ◌++◌, append-nil,
  arith, inl, inr, All, All-map, length, length-append, get_elem?, get_elem?-append, get_elem?-lt,
}
use larmindon_core.Engine.Commands.{Thread, Event, AudioEngine, raise}
use larmindon_core.Engine.Commands.Threads.{
  spawned_threads, joined_threads, spawned-more, joined-more, the_thread, raise-keeps, length-raise,
}
use larmindon_core.Engine.Commands.Stopping.{IsCovered, IsIdle, Kept}

-- Flags that are only raised and added to.
pub record Grows (flags flags' : List Bool) : Type 0 where
  pub room : length flags ≤ length flags'
  pub keeps : (j : ℕ) → get_elem? flags j ≡ some true → get_elem? flags' j ≡ some true

pub Grows-refl : (flags : List Bool) → Grows flags flags
Grows-refl flags = record { room = omega arith; keeps = λ j h. h }

pub Grows-append : (flags more : List Bool) → Grows flags (flags ++ more)
Grows-append flags more = record {
  room = omega (arith, length-append flags more);
  keeps = λ j h. get_elem?-append flags more j (get_elem?-lt flags j h) ∙ h;
}

pub Grows-raise : (o : Option ℕ) (flags more : List Bool) → Grows flags (raise o flags ++ more)
Grows-raise o flags more =
    let g = Grows-append (raise o flags) more in
    record {
      room = omega (arith, g.room, length-raise o flags);
      keeps = λ j h. g.keeps j (raise-keeps o flags j h);
    }

module _ {F B V : Type 0} where
  pub IsCovered-Grows :
      (flags flags' : List Bool) (active : Option (Thread F B V)) (t : Thread F B V)
      → Grows flags flags'
      → IsCovered flags active t
      → IsCovered flags' active t
  IsCovered-Grows flags flags' active t g (below, inl raised) =
      (omega (arith, g.room), inl (g.keeps t.stop_flag raised))
  IsCovered-Grows flags flags' active t g (below, inr running) =
      (omega (arith, g.room), inr running)

  -- Where no thread runs, one more takes nothing away.
  pub IsCovered-next :
      (flags flags' : List Bool) (active next : Option (Thread F B V)) (t : Thread F B V)
      → active ≡ none
      → Grows flags flags'
      → IsCovered flags active t
      → IsCovered flags' next t
  IsCovered-next flags flags' active next t gone g (below, inl raised) =
      (omega (arith, g.room), inl (g.keeps t.stop_flag raised))
  IsCovered-next flags flags' active next t gone g (below, inr running) = cc

  abbrev pub flag_of : Option (Thread F B V) → Option ℕ
  flag_of none = none
  flag_of (some t) = some t.stop_flag

module _ {F B V C Str : Type 0} where
  -- A change that starts and joins no thread.
  pub same-Kept :
      (e e' : AudioEngine F B V C Str) (es fs : List (Event F B V Str))
      → Kept e es
      → Grows e.flags e'.flags
      → e'.processing_thread ≡ e.processing_thread
      → e'.stop_flag ≡ e.stop_flag
      → (e.processing_thread ≡ none → IsIdle e')
      → spawned_threads fs ≡ []
      → joined_threads fs ≡ []
      → Kept e' (es ++ fs)
  same-Kept e e' es fs k g same same_flag idle no_spawn no_join =
      let spawns = spawned-more es fs no_spawn ∙ append-nil (spawned_threads es) in
      let joins = joined-more es fs no_join ∙ append-nil (joined_threads es) in
      record {
        covered = subst (All (IsCovered e'.flags e'.processing_thread)) (sym spawns) (
            All-map (IsCovered e.flags e.processing_thread) _ (spawned_threads es)
              (λ t h.
                subst (λ o. IsCovered e'.flags o t) (sym same)
                  (IsCovered-Grows e.flags e'.flags e.processing_thread t g h))
              k.covered);
        joins = spawns ∙ (k.joins ∙ sym (ap₂ ◌++◌ joins (ap the_thread same)));
        linked = λ t running. same_flag ∙ k.linked t (sym same ∙ running);
        idle = λ gone. idle (sym same ∙ gone);
      }

  -- An engine that is idle, but for its flags, buffers, caches and capture backend.
  pub IsIdle-same :
      (e e' : AudioEngine F B V C Str)
      → e'.processing_thread ≡ e.processing_thread
      → e'.active_buffer ≡ e.active_buffer
      → e'.active_stream ≡ e.active_stream
      → e'.capture_stop_flag ≡ e.capture_stop_flag
      → e'.settings_tx ≡ e.settings_tx
      → e'.active_session_info ≡ e.active_session_info
      → IsIdle e
      → IsIdle e'
  IsIdle-same e e' p b s c x i idle = record {
    no_thread = p ∙ idle.no_thread;
    no_buffer = b ∙ idle.no_buffer;
    no_stream = s ∙ idle.no_stream;
    no_capture_flag = c ∙ idle.no_capture_flag;
    no_channel = x ∙ idle.no_channel;
    no_info = i ∙ idle.no_info;
  }
