-- ===== src/Soniox/Backend/Staging.antt =====
-- src/asr/soniox/backend.rs: the audio path, from `push_audio` to the client.
use larmindon_core.Base.{ℕ, ◌+◌, List, [], ◌∷◌, ◌++◌, length}
use larmindon_core.Soniox.Client.{SonioxClient, audio}
use larmindon_core.Soniox.Backend.Lifecycle.{begin_session, connected}
use larmindon_core.Soniox.Backend.{SonioxBackend, new, pcm_bytes, push_audio}

module _ {ℓ} {A : Type ℓ} (s16 : A → ℕ × ℕ) where
  -- The calls of `push_audio`, in order.
  pub push_all : List (List A) → SonioxBackend → SonioxBackend
  push_all [] self = self
  push_all (chunk ∷ chunks) self = push_all chunks (push_audio s16 chunk self)

  -- What the backend is once `samples` have been pushed.
  abbrev staging : List A → SonioxBackend → SonioxBackend
  staging samples self = record self {
    staged = self.staged ++ pcm_bytes s16 samples;
    staged_samples = self.staged_samples + length samples;
  }

-- The client with one more frame in the channel.
abbrev pub with_frame : List ℕ → ℕ → SonioxClient → SonioxClient
with_frame pcm samples c = record c {
  queued_samples = c.queued_samples + samples;
  sent = c.sent ++ (audio pcm samples ∷ []);
}

-- A backend whose session has begun.
abbrev pub begun : SonioxClient → SonioxBackend
begun c = (begin_session (connected c) new).1

abbrev staged_with : List ℕ → ℕ → SonioxBackend → SonioxBackend
staged_with pcm samples self = record self { staged = pcm; staged_samples = samples }
