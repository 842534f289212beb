-- ===== src/Capture/Pipewire/Stream.antt =====
-- src/audio_capture/pipewire.rs: what a start takes from the device's id, and the callback that takes
-- the server's blocks of bytes. Four bytes as an f32 and the mean of two are parameters, and so is
-- whether the listing came, failed or timed out.
use larmindon_core.Base.{
  ℕ, ◌+◌, ◌^◌, ◌<◌, ◌≡◌, refl, ap, subst, ◌∙◌, Option, none, some, List, [], ◌∷◌, ◌++◌, Bool, true,
  false, ◌&&◌, ◌||◌, ◌==◌, leb, if◌then◌else◌, Result, ok, err, length, take, drop, ◌>>=◌,
  append_assoc, append-nil, >>=-eq-some, or_default, length-append, arith,
}
use larmindon_core.Text.{Text, codes, text_eq}
use larmindon_core.Text.Parse.{parse_unsigned}
use larmindon_core.Capture.{CaptureBuffer, extend_samples, u64_mod}
use larmindon_core.Capture.Bounded.{Accounts, extend_samples-Accounts}
use larmindon_core.Capture.Devices.{DeviceType, application, AudioDevice}

-- What arrives from the thread that enumerates within two seconds.
pub data Received : Type 0 where
  received : Result {0, 0} (List AudioDevice) Text → Received
  nothing_received : Received

-- The answer, and the devices that are remembered for the next start.
unfoldable pub enumerate_devices :
    Received → List AudioDevice → Result {0, 0} (List AudioDevice) Text × List AudioDevice
enumerate_devices (received (ok devices)) last_devices = (ok devices, devices)
enumerate_devices (received (err e)) last_devices = (err e, last_devices)
enumerate_devices nothing_received last_devices =
    (err (codes "Timeout enumerating PipeWire devices"), last_devices)

-- The type of the remembered device, or an application.
unfoldable pub device_type_of : Text → List AudioDevice → DeviceType
unfolding text_eq
device_type_of device_id [] = application
device_type_of device_id (d ∷ ds) =
    let rest = device_type_of device_id ds in if text_eq d.id device_id then d.device_type else rest

abbrev pub target_node : Text → DeviceType → Option ℕ → Result {0, 0} (ℕ × DeviceType) Text
target_node device_id device_type none = err (codes "Invalid device ID: " ++ device_id)
target_node device_id device_type (some target_node_id) = ok (target_node_id, device_type)

-- The node and the type with which a start runs the stream's thread.
unfoldable pub start_target : List AudioDevice → Option Text → Result {0, 0} (ℕ × DeviceType) Text
unfolding device_type_of parse_unsigned
start_target last_devices none = err (codes "Device ID required for PipeWire")
start_target last_devices (some device_id) =
    target_node device_id (device_type_of device_id last_devices)
      (parse_unsigned (2 ^ 32) device_id)

-- One of the buffers that the server fills.
pub record Data : Type 0 where
  pub offset : ℕ
  pub size : ℕ
  pub stride : ℕ
  pub raw_data : Option (List ℕ)

module _ {F : Type 0} (of_bytes : ℕ → ℕ → ℕ → ℕ → F) (mean : F → F → F) where
  unfoldable pub f32_samples : List ℕ → List F
  f32_samples (a ∷ b ∷ c ∷ d ∷ rest) = of_bytes a b c d ∷ f32_samples rest
  f32_samples _ = []

  -- `chunks_exact(2)`.
  unfoldable pub mono : List F → List F
  mono (x ∷ y ∷ rest) = mean x y ∷ mono rest
  mono _ = []

  -- The samples of a slice, by the stride: mono, stereo, or a stride that is only reported.
  unfoldable pub mixed : ℕ → List ℕ → List F
  unfolding f32_samples mono
  mixed stride bytes =
      if stride == 4
      then f32_samples bytes
      else if stride == 8
      then mono (f32_samples bytes)
      else []

  -- The samples of one buffer. A slice that goes past the bytes panics.
  abbrev pub sliced : Data → List ℕ → Option (List F)
  sliced d bytes =
      if (d.stride == 4 || d.stride == 8) && not_within d bytes
      then none
      else some (mixed d.stride (take d.size (drop d.offset bytes)))
    where
      not_within : Data → List ℕ → Bool
      not_within d bytes = if leb (d.offset + d.size) (length bytes) then false else true

  abbrev pub present : Data → Option (List ℕ) → Option (List F)
  present d none = some []
  present d (some bytes) = sliced d bytes

  unfoldable pub samples_of : Data → Option (List F)
  unfolding mixed
  samples_of d = if d.size == 0 || d.stride == 0 then some [] else present d d.raw_data

  unfoldable pub process_datas : List Data → CaptureBuffer F → Option (CaptureBuffer F)
  unfolding samples_of extend_samples
  process_datas [] buffer = some buffer
  process_datas (d ∷ ds) buffer =
      samples_of d >>= (λ samples. process_datas ds (extend_samples buffer samples))

  -- The callback, for a stop flag and the buffer that is dequeued, if one is.
  unfoldable pub process : Bool → Option (List Data) → CaptureBuffer F → Option (CaptureBuffer F)
  unfolding process_datas
  process true dequeued buffer = some buffer
  process false none buffer = some buffer
  process false (some datas) buffer = process_datas datas buffer

  unfoldable pub all_samples : List Data → Option (List F)
  unfolding samples_of
  all_samples [] = some []
  all_samples (d ∷ ds) = samples_of d >>= (λ xs. all_samples ds >>= (λ ys. some (xs ++ ys)))

  -- Where no slice panics, the capture buffer accounts for the samples of all buffers, in order.
  pub process_datas-Accounts :
      (ds : List Data) (b : CaptureBuffer F) (xs ys : List F)
      → all_samples ds ≡ some ys
      → length xs + length ys < u64_mod
      → Accounts b xs
      → (b' : CaptureBuffer F) × (process_datas ds b ≡ some b') × Accounts b' (xs ++ ys)
  unfolding all_samples process_datas
  process_datas-Accounts [] b xs ys e room v =
      let none_more : [] ≡ ys = ap (λ o. or_default o []) e in
      (b, refl, subst (λ zs. Accounts b (xs ++ zs)) none_more (rw append-nil v))
  process_datas-Accounts (d ∷ ds) b xs ys e room v =
      let (s, at, more) = >>=-eq-some (samples_of d) _ e in
      let (rest, after, whole) = >>=-eq-some (all_samples ds) _ more in
      let joined : (s ++ rest) ≡ ys = ap (λ o. or_default o []) whole in
      let sum = ap length joined in
      let pushed = extend_samples-Accounts s b xs (omega (arith, sum, length-append s rest)) v in
      let (b', runs, accounts) =
        process_datas-Accounts ds (extend_samples b s) (xs ++ s) rest after
          (omega (arith, sum, length-append s rest, length-append xs s)) pushed in
      (
        b',
        ap (λ o. o >>= (λ samples. process_datas ds (extend_samples b samples))) at ∙ runs,
        subst (λ zs. Accounts b' (xs ++ zs)) joined
            (subst (Accounts b') (append_assoc xs s rest) accounts),
      )
