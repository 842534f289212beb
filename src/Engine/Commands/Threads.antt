-- ===== src/Engine/Commands/Threads.antt =====
-- src/audio_engine.rs: the processing threads and their stop flags, over the stop of a session.
use larmindon_core.Base.{
  ℕ, zero, suc, ◌≡◌, refl, ap, ◌∙◌, Bool, true, Option, none, some, List, [], ◌∷◌, ◌++◌, length,
  set, length-set, get_elem?,
}
use larmindon_core.Engine.Commands.{
  Thread, Event, devices_replied, on_error, on_source_switched, stream_stopped, spawned, joined,
  settings_sent, raise, stopped_stream,
}

module _ {F B V Str : Type 0} where
  -- The threads that have been started, in order, and those that have been joined.
  unfoldable pub spawned_threads : List (Event F B V Str) → List (Thread F B V)
  spawned_threads [] = []
  spawned_threads (spawned t ∷ es) = t ∷ spawned_threads es
  spawned_threads (devices_replied _ ∷ es) = spawned_threads es
  spawned_threads (on_error _ ∷ es) = spawned_threads es
  spawned_threads (on_source_switched _ ∷ es) = spawned_threads es
  spawned_threads (stream_stopped _ ∷ es) = spawned_threads es
  spawned_threads (joined _ ∷ es) = spawned_threads es
  spawned_threads (settings_sent _ _ ∷ es) = spawned_threads es

  unfoldable pub joined_threads : List (Event F B V Str) → List (Thread F B V)
  joined_threads [] = []
  joined_threads (joined t ∷ es) = t ∷ joined_threads es
  joined_threads (devices_replied _ ∷ es) = joined_threads es
  joined_threads (on_error _ ∷ es) = joined_threads es
  joined_threads (on_source_switched _ ∷ es) = joined_threads es
  joined_threads (stream_stopped _ ∷ es) = joined_threads es
  joined_threads (spawned _ ∷ es) = joined_threads es
  joined_threads (settings_sent _ _ ∷ es) = joined_threads es

  pub spawned_threads-append :
      (es fs : List (Event F B V Str))
      → spawned_threads (es ++ fs) ≡ spawned_threads es ++ spawned_threads fs
  unfolding spawned_threads
  spawned_threads-append [] fs = refl
  spawned_threads-append (spawned t ∷ es) fs = ap (◌∷◌ t) (spawned_threads-append es fs)
  spawned_threads-append (devices_replied _ ∷ es) fs = spawned_threads-append es fs
  spawned_threads-append (on_error _ ∷ es) fs = spawned_threads-append es fs
  spawned_threads-append (on_source_switched _ ∷ es) fs = spawned_threads-append es fs
  spawned_threads-append (stream_stopped _ ∷ es) fs = spawned_threads-append es fs
  spawned_threads-append (joined _ ∷ es) fs = spawned_threads-append es fs
  spawned_threads-append (settings_sent _ _ ∷ es) fs = spawned_threads-append es fs

  pub joined_threads-append :
      (es fs : List (Event F B V Str))
      → joined_threads (es ++ fs) ≡ joined_threads es ++ joined_threads fs
  unfolding joined_threads
  joined_threads-append [] fs = refl
  joined_threads-append (joined t ∷ es) fs = ap (◌∷◌ t) (joined_threads-append es fs)
  joined_threads-append (devices_replied _ ∷ es) fs = joined_threads-append es fs
  joined_threads-append (on_error _ ∷ es) fs = joined_threads-append es fs
  joined_threads-append (on_source_switched _ ∷ es) fs = joined_threads-append es fs
  joined_threads-append (stream_stopped _ ∷ es) fs = joined_threads-append es fs
  joined_threads-append (spawned _ ∷ es) fs = joined_threads-append es fs
  joined_threads-append (settings_sent _ _ ∷ es) fs = joined_threads-append es fs

-- The threads of events, behind other events.
module _ {F B V Str : Type 0} where
  pub spawned-more :
      (es fs : List (Event F B V Str)) {xs : List (Thread F B V)}
      → spawned_threads fs ≡ xs
      → spawned_threads (es ++ fs) ≡ spawned_threads es ++ xs
  spawned-more es fs e = spawned_threads-append es fs ∙ ap (◌++◌ (spawned_threads es)) e

  pub joined-more :
      (es fs : List (Event F B V Str)) {xs : List (Thread F B V)}
      → joined_threads fs ≡ xs
      → joined_threads (es ++ fs) ≡ joined_threads es ++ xs
  joined-more es fs e = joined_threads-append es fs ∙ ap (◌++◌ (joined_threads es)) e

-- Stopping a stream starts and joins no thread.
pub stopped_stream-spawned :
    (F B V Str : Type 0) (o : Option Str)
    → spawned_threads (stopped_stream {F = F} {B = B} {V = V} o) ≡ []
unfolding spawned_threads
stopped_stream-spawned F B V Str none = refl
stopped_stream-spawned F B V Str (some s) = refl

pub stopped_stream-joined :
    (F B V Str : Type 0) (o : Option Str)
    → joined_threads (stopped_stream {F = F} {B = B} {V = V} o) ≡ []
unfolding joined_threads
stopped_stream-joined F B V Str none = refl
stopped_stream-joined F B V Str (some s) = refl

module _ {F B V : Type 0} where
  abbrev pub the_thread : Option (Thread F B V) → List (Thread F B V)
  the_thread none = []
  the_thread (some t) = t ∷ []

  -- The thread has been told to stop.
  abbrev pub IsRaised : List Bool → Thread F B V → Type 0
  IsRaised flags t = get_elem? flags t.stop_flag ≡ some true

get_elem?-set-true :
    (flags : List Bool) (i j : ℕ)
    → get_elem? flags j ≡ some true
    → get_elem? (set flags i true) j ≡ some true
get_elem?-set-true (f ∷ fs) zero zero h = refl
get_elem?-set-true (f ∷ fs) zero (suc j) h = h
get_elem?-set-true (f ∷ fs) (suc i) zero h = h
get_elem?-set-true (f ∷ fs) (suc i) (suc j) h = get_elem?-set-true fs i j h
get_elem?-set-true [] i j h = cc

pub raise-keeps :
    (o : Option ℕ) (flags : List Bool) (j : ℕ)
    → get_elem? flags j ≡ some true
    → get_elem? (raise o flags) j ≡ some true
unfolding raise
raise-keeps none flags j h = h
raise-keeps (some i) flags j h = get_elem?-set-true flags i j h

pub length-raise : (o : Option ℕ) (flags : List Bool) → length (raise o flags) ≡ length flags
unfolding raise
length-raise none flags = refl
length-raise (some i) flags = length-set flags i true
