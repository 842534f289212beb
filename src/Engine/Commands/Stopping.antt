-- ===== src/Engine/Commands/Stopping.antt =====
-- src/audio_engine.rs, `stop_active_session`: the invariant of the engine, and its stop.
use larmindon_core.Base.{
  ◌<◌, ◌≡◌, ◌⊎◌, refl, sym, ap, ap₂, ◌∙◌, subst, Bool, true, Option, none, some, List, [], ◌∷◌,
  ◌++◌, append-nil, arith, inl, inr, All, All-map, if_holds, length, get_elem?, get_elem?-set_self,
}
use larmindon_core.Asr.Backend.{AsrBackend}
use larmindon_core.Engine.Commands.{
  no_session, Thread, Joined, models, no_models, panicked, Event, AudioEngine, State, raise,
  stopped_stream, keep_models, join_thread, stop_active_session,
}
use larmindon_core.Engine.Commands.Threads.{
  spawned_threads, joined_threads, spawned-more, joined-more, stopped_stream-spawned,
  stopped_stream-joined, the_thread, IsRaised, raise-keeps, length-raise,
}

-- A thread has been told to stop, or it is the one that runs.
abbrev pub IsCovered : {F B V : Type 0} → List Bool → Option (Thread F B V) → Thread F B V → Type 0
IsCovered flags active t = (t.stop_flag < length flags) × (IsRaised flags t ⊎ (active ≡ some t))

module _ {F B V C Str : Type 0} where
  -- No thread, no flag to raise, no stream, and no session told to the watcher.
  pub record IsIdle (e : AudioEngine F B V C Str) : Type 0 where
    pub no_thread : e.processing_thread ≡ none
    pub no_buffer : e.active_buffer ≡ none
    pub no_stream : e.active_stream ≡ none
    pub no_capture_flag : e.capture_stop_flag ≡ none
    pub no_channel : e.settings_tx ≡ none
    pub no_info : e.active_session_info ≡ no_session

  -- The engine after events: every thread but the one that runs has been told to stop and joined,
  -- the engine has the flag of the one that runs, and without one it is idle.
  pub record Kept (e : AudioEngine F B V C Str) (events : List (Event F B V Str)) : Type 0 where
    pub covered : All (IsCovered e.flags e.processing_thread) (spawned_threads events)
    pub joins : spawned_threads events ≡ joined_threads events ++ the_thread e.processing_thread
    pub linked : (t : Thread F B V) → e.processing_thread ≡ some t → e.stop_flag ≡ some t.stop_flag
    pub idle : e.processing_thread ≡ none → IsIdle e

  -- What joining a thread leaves alone.
  record Core (e e' : AudioEngine F B V C Str) : Type 0 where
    flags : e'.flags ≡ e.flags
    thread : e'.processing_thread ≡ e.processing_thread
    stream : e'.active_stream ≡ e.active_stream
    capture : e'.capture_stop_flag ≡ e.capture_stop_flag
    channel : e'.settings_tx ≡ e.settings_tx

  -- And what it does.
  record Joins (ts : List (Thread F B V)) (e : AudioEngine F B V C Str) (s : State F B V C Str)
      : Type 0 where
    core : Core e s.0
    none_spawned : spawned_threads s.1 ≡ []
    all_joined : joined_threads s.1 ≡ ts

module _ {F B V C Str : Type 0} (api : AsrBackend F B) (join : Thread F B V → Joined B V) where
  keep_models-Joins :
      (o : Joined B V) (e : AudioEngine F B V C Str)
      → Joins {Str = Str} [] e (keep_models api join o e)
  unfolding keep_models spawned_threads joined_threads
  keep_models-Joins (models b v) e =
      if_holds (Joins [] e) (api.is_cacheable b)
        (record e { cached_backend = some b; cached_vad = some v }, [])
        (record e { cached_backend_id = none; cached_vad = some v }, [])
        (λ _. record {
          core = record {
            flags = refl;
            thread = refl;
            stream = refl;
            capture = refl;
            channel = refl;
          };
          none_spawned = refl;
          all_joined = refl;
        })
        (λ _. record {
          core = record {
            flags = refl;
            thread = refl;
            stream = refl;
            capture = refl;
            channel = refl;
          };
          none_spawned = refl;
          all_joined = refl;
        })
  keep_models-Joins no_models e = record {
    core = record { flags = refl; thread = refl; stream = refl; capture = refl; channel = refl };
    none_spawned = refl;
    all_joined = refl;
  }
  keep_models-Joins panicked e = record {
    core = record { flags = refl; thread = refl; stream = refl; capture = refl; channel = refl };
    none_spawned = refl;
    all_joined = refl;
  }

  join_thread-Joins :
      (o : Option (Thread F B V)) (e : AudioEngine F B V C Str)
      → Joins {Str = Str} (the_thread o) e (join_thread api join o e)
  unfolding join_thread spawned_threads joined_threads
  join_thread-Joins none e = record {
    core = record { flags = refl; thread = refl; stream = refl; capture = refl; channel = refl };
    none_spawned = refl;
    all_joined = refl;
  }
  join_thread-Joins (some t) e =
      let k = keep_models-Joins (join t) e in
      record { core = k.core; none_spawned = k.none_spawned; all_joined = ap (◌∷◌ t) k.all_joined }

  -- The flags that a stop raises.
  abbrev raised : AudioEngine F B V C Str → List Bool
  raised e = raise e.capture_stop_flag (raise e.stop_flag e.flags)

  told_to_stop :
      (e : AudioEngine F B V C Str) (events : List (Event F B V Str)) (t : Thread F B V)
      → Kept e events
      → IsCovered e.flags e.processing_thread t
      → IsCovered (raised e) none t
  unfolding raise
  told_to_stop e events t k (below, inl already) = (
    omega (
      arith,
      length-raise e.capture_stop_flag (raise e.stop_flag e.flags),
      length-raise e.stop_flag e.flags,
    ),
    inl (
        raise-keeps e.capture_stop_flag (raise e.stop_flag e.flags) t.stop_flag
          (raise-keeps e.stop_flag e.flags t.stop_flag already)),
  )
  told_to_stop e events t k (below, inr running) = (
    omega (
      arith,
      length-raise e.capture_stop_flag (raise e.stop_flag e.flags),
      length-raise e.stop_flag e.flags,
    ),
    inl (
        raise-keeps e.capture_stop_flag (raise e.stop_flag e.flags) t.stop_flag (
          subst (λ o. get_elem? (raise o e.flags) t.stop_flag ≡ some true)
            (sym (k.linked t running)) (get_elem?-set_self e.flags t.stop_flag true below))),
  )

  -- After a stop the engine is idle, and its invariant holds with the events of the stop.
  pub stop_active_session-Kept :
      (e : AudioEngine F B V C Str) (events : List (Event F B V Str))
      → Kept e events
      → Kept (stop_active_session api join e).0 (events ++ (stop_active_session api join e).1)
        × IsIdle (stop_active_session {Str = Str} api join e).0
  unfolding stop_active_session
  stop_active_session-Kept e events k =
      let j = join_thread-Joins e.processing_thread (record e {
        flags = raised e;
        stop_flag = none;
        capture_stop_flag = none;
        settings_tx = none;
        active_stream = none;
        processing_thread = none;
      }) in
      let e' = (stop_active_session api join e).0 in
      let more = (stop_active_session {Str = Str} api join e).1 in
      let tail =
        (join_thread {Str = Str} api join e.processing_thread (record e {
          flags = raised e;
          stop_flag = none;
          capture_stop_flag = none;
          settings_tx = none;
          active_stream = none;
          processing_thread = none;
        })).1 in
      let head = stopped_stream e.active_stream in
      let same_spawned =
        spawned-more events more (
          spawned-more head tail j.none_spawned
          ∙ (append-nil (spawned_threads head) ∙ stopped_stream-spawned F B V Str e.active_stream))
        ∙ append-nil (spawned_threads events) in
      let one_joined = joined-more events more (
        joined-more head tail j.all_joined
        ∙ ap (λ xs. xs ++ the_thread e.processing_thread)
            (stopped_stream-joined F B V Str e.active_stream)) in
      let idle : IsIdle e' = record {
        no_thread = j.core.thread;
        no_buffer = refl;
        no_stream = j.core.stream;
        no_capture_flag = j.core.capture;
        no_channel = j.core.channel;
        no_info = refl;
      } in
      (
        record {
          covered = subst (All (IsCovered e'.flags e'.processing_thread)) (sym same_spawned) (
              All-map (IsCovered e.flags e.processing_thread) _ (spawned_threads events)
                (λ t h.
                  subst (λ flags. IsCovered flags e'.processing_thread t) (sym j.core.flags)
                    (subst (λ o. IsCovered (raised e) o t) (sym j.core.thread)
                      (told_to_stop e events t k h)))
                k.covered);
          joins =
              same_spawned
              ∙ (k.joins
                  ∙ sym (
                      ap₂ ◌++◌ one_joined (ap the_thread j.core.thread)
                      ∙ append-nil (joined_threads events ++ the_thread e.processing_thread)));
          linked = λ t running. let gone = j.core.thread in cc;
          idle = λ _. idle;
        },
        idle,
      )
