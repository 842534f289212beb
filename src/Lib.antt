-- ===== src/Lib.antt =====
-- The verification library of larmindon-core, a Rust crate that captures audio and transcribes it live.
--
-- An engine's thread takes commands and starts a processing thread for a session. That drains a capture
-- buffer, resamples, evens the gain, runs voice activity detection over frames of 512 samples and drives
-- one of two transcription backends: Nemotron, a model on the device that is given speech only, and
-- Soniox, a service over a web socket that is given the whole stream. A backend puts out transcript
-- updates, each of a segment id that one shared counter gives out.
--
-- Asr is src/asr/mod.rs: the updates and the counter. Asr/Store is the contract of the updates, as the
-- store of a frontend that follows them; the Soniox backend is set against it.
-- Soniox/Protocol is src/asr/soniox/protocol.rs: tokens, responses and errors.
-- Soniox/Accumulator is src/asr/soniox/accumulator.rs: `ingest` folds a response into a durable lane of
-- sentences and a volatile lane of runs that is published again each time (Volatile), `finish` closes
-- all and `reset` forgets all. Durable and Delivery follow the text through them, Segments and
-- Publishing the segments, and History has whole sessions.
-- Soniox/Client is src/asr/soniox/client.rs: the handle, the reconnect loop (`session`, Retry) and one
-- connection (Connection), a step for each event of its `select!`; Wire, Stream and Flush are about what
-- it writes, Backlog about the channel and Outage about the audio that waits for a reconnection.
-- Soniox/Backend is src/asr/soniox/backend.rs, with Lifecycle for the start and the end of a session and
-- Hints for the language setting: it stages audio for the client (Staging) and folds what the socket
-- thread sends into the accumulator (Folding). Pcm is `f32_to_pcm_s16le` of the protocol.
-- Nemotron is src/asr/nemotron.rs: Decoding has `process`, Padding, Resets and Chunks are about it,
-- Feeding and Transcribing about what the model is given and what becomes of its text.
-- Vad is src/vad.rs: the state machine (Steps), Vad/Ring the samples kept before an onset, Vad/Processor
-- the model and the machine together. Vad/Onset and Vad/Timing say when a segment opens and closes.
-- Capture is src/audio_capture/mod.rs: the bounded buffer, Capture/Devices the choice of a device and
-- Capture/Backend the trait of a backend. Capture/Cpal is src/audio_capture/cpal.rs and
-- Capture/Composite src/audio_capture/windows_composite.rs. Capture/Pipewire is
-- src/audio_capture/pipewire.rs: Listing is about its enumeration, Watcher has the listener that keeps
-- the list current, Fallback is about a device that goes, and Stream has the callback of a stream.
-- Engine is src/audio_engine.rs: Frames has `take_complete_frames`, Gating the VAD stage of
-- `processing_loop`, Meter the level, Loop the rounds of the loop, and Commands the engine's thread with
-- the threads and flags that it shares. Loop drives a backend through the record Asr/Backend, which is
-- the trait of src/asr/mod.rs, and Commands a capture through Capture/Backend.
-- Settings is src/settings.rs: Checks has `validate`, Overrides the environment and File the load and
-- the save. Agc is src/agc.rs and Diag src/diag.rs.
-- Base and Text are what the components share: texts are lists of code points.
--
-- A definition that returns an Option where its source does not returns `none` where the code panics,
-- and in Nemotron/Decoding where fuel runs out. The fuel of the loop of `process` is the length of the
-- buffer, which is enough where a chunk has a sample or more, since each round takes a chunk; where it
-- has none the code loops for ever. Other loops on fuel have the length of what they go through, or one
-- more. Machine integers wrap at their width. Floating point numbers are only moved or compared, but in
-- Agc, in Capture and in Pcm, whose f32 operations are parameters, so samples and probabilities are of
-- any type; the alphabetic characters, the model, the clock and the outcome of each write to the socket
-- are parameters.
--
-- Not modelled: WASAPI; the connections and loops of PipeWire and the streams of CPAL, which are calls;
-- SQL; the loading of models; the TLS connection and JSON; the times that only the diagnostics use;
-- threads, of which an engine's is what it was started with, and joining one an answer from outside;
-- and of `processing_loop` what precedes its loop, but for the VAD.
pub mod Base
pub mod Text
pub mod Asr
pub mod Soniox
pub mod Vad
pub mod Capture
pub mod Engine
pub mod Nemotron
pub mod Settings
pub mod Agc
pub mod Diag
