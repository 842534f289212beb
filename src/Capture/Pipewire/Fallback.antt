-- ===== src/Capture/Pipewire/Fallback.antt =====
-- src/audio_capture/pipewire.rs: where the engine is sent when the device of its session goes.
use larmindon_core.Base.{
  ℕ, ◌≡◌, refl, sym, ap, ◌∙◌, subst, Option, none, some, List, [], ◌∷◌, ◌++◌, Bool, true, false,
  ◌&&◌, ◌||◌, Bool-cases, inl, inr, ◌⊎◌, if_true, if_false, any,
}
use larmindon_core.Text.{Text, text_eq, text_eq_iff, opt_text_eq}
use larmindon_core.Capture.Devices.{AudioDevice}
use larmindon_core.Capture.Pipewire.Watcher.{
  DeviceEntry, DeviceMap, remove_id, lookup, entries, find_entry, Sent, reconnect, devices_changed,
  Watcher, is_monitor, or_entry, emit_devices_changed, default_monitor, reconnect_to, fall_back,
  global_remove,
}

-- The devices to which the engine is told to reconnect.
unfoldable pub reconnects : List Sent → List Text
reconnects [] = []
reconnects (reconnect id ∷ ss) = id ∷ reconnects ss
reconnects (devices_changed ds ∷ ss) = reconnects ss

-- An entry of a list that passes the test, if there is one.
FoundBy : (DeviceEntry → Bool) → List DeviceEntry → Option DeviceEntry → Type 0
FoundBy p es none = any p es ≡ false
FoundBy p es (some e) = (p e ≡ true) × ((q : DeviceEntry → Bool) → q e ≡ true → any q es ≡ true)

and_left : (b c : Bool) → (b && c) ≡ true → b ≡ true
and_left true c h = refl
and_left false c h = h

or_true : (b : Bool) → (b || true) ≡ true
or_true true = refl
or_true false = refl

FoundBy-cons :
    (p : DeviceEntry → Bool) (e : DeviceEntry) (es : List DeviceEntry) (o : Option DeviceEntry)
    → p e ≡ false
    → FoundBy p es o
    → FoundBy p (e ∷ es) o
unfolding FoundBy
FoundBy-cons p e es none fails h = ap (λ b. b || any p es) fails ∙ h
FoundBy-cons p e es (some d) fails (passes, there) =
    (passes, λ q h. ap (λ b. q e || b) (there q h) ∙ or_true (q e))

-- What a stronger test finds is kept, else what the test finds.
FoundBy-or_entry :
    (p q : DeviceEntry → Bool) (es : List DeviceEntry) (o o' : Option DeviceEntry)
    → FoundBy (λ e. p e && q e) es o
    → FoundBy p es o'
    → FoundBy p es (or_entry o o')
unfolding FoundBy
FoundBy-or_entry p q es none o' h h' = h'
FoundBy-or_entry p q es (some e) o' (both, there) h' = (and_left (p e) (q e) both, there)

find_entry-FoundBy :
    (p : DeviceEntry → Bool) (es : List DeviceEntry) → FoundBy p es (find_entry p es)
unfolding find_entry FoundBy
find_entry-FoundBy p [] = refl
find_entry-FoundBy p (e ∷ es) = elim (Bool-cases (p e)) [
  | inl passes ↦
      subst (FoundBy p (e ∷ es)) (sym (if_true (p e) _ _ passes))
        (passes, λ q h. ap (λ b. b || any q es) h)
  | inr fails ↦
      subst (FoundBy p (e ∷ es)) (sym (if_false (p e) _ _ fails))
        (FoundBy-cons p e es (find_entry p es) fails (find_entry-FoundBy p es))
]

-- Nothing is sent where no monitor is left, and else the id of one that is.
abbrev pub Reaches : List DeviceEntry → List Text → Type 0
Reaches left sent =
    ((any is_monitor left ≡ false) × (sent ≡ []))
    ⊎ ((target : Text) × (sent ≡ target ∷ [])
        × (any (λ e. is_monitor e && text_eq e.device.id target) left ≡ true))

-- A monitor that the map holds, if it holds one.
default_monitor-finds :
    (values : DeviceMap → List DeviceEntry) (name : Option Text) (m : DeviceMap)
    → FoundBy is_monitor (values m) (default_monitor values name m)
unfolding default_monitor FoundBy
default_monitor-finds values name m =
    FoundBy-or_entry is_monitor (λ e. opt_text_eq name e.node_name) (values m) _ _
      (find_entry-FoundBy _ (values m)) (find_entry-FoundBy is_monitor (values m))

-- What is sent for the monitor that is found, if one is.
reconnect_to-Reaches :
    (es left : List DeviceEntry) (o : Option DeviceEntry) (changed : List AudioDevice)
    → ((p : DeviceEntry → Bool) → any p es ≡ any p left)
    → FoundBy is_monitor es o
    → Reaches left (reconnects (reconnect_to o ++ (devices_changed changed ∷ [])))
unfolding FoundBy reconnects
reconnect_to-Reaches es left none changed same h = inl (sym (same is_monitor) ∙ h, refl)
reconnect_to-Reaches es left (some e) changed same (passes, there) = inr (
  e.device.id,
  refl,
  sym (same _)
      ∙ there (λ d. is_monitor d && text_eq d.device.id e.device.id)
          (ap (λ b. b && text_eq e.device.id e.device.id) passes
            ∙ (text_eq_iff e.device.id e.device.id).1 refl),
)

-- For a map's values in any order: when the session's device goes, the engine is told once to go to
-- a monitor that is still there, or there is none and it is told nothing.
pub global_remove-falls_back :
    (values : DeviceMap → List DeviceEntry)
    (in_map : (p : DeviceEntry → Bool) (m : DeviceMap) → any p (values m) ≡ any p (entries m))
    (id : ℕ) (w : Watcher) (entry : DeviceEntry)
    → lookup id w.devices ≡ some entry
    → w.device_id ≡ some entry.device.id
    → Reaches (entries (remove_id id w.devices)) (reconnects (global_remove values id w).1)
unfolding global_remove emit_devices_changed opt_text_eq
global_remove-falls_back values in_map id w entry at active =
    let m = remove_id id w.devices in
    let w₁ : Watcher = record w { devices = m } in
    let is_active =
      ap (λ o. opt_text_eq o (some entry.device.id)) active
      ∙ (text_eq_iff entry.device.id entry.device.id).1 refl in
    let sent =
      ap (λ o. fall_back values o w₁) at
      ∙ if_true (opt_text_eq w.device_id (some entry.device.id)) _ _ is_active in
    subst (λ ss. Reaches (entries m) (reconnects (ss ++ (emit_devices_changed values w₁).1)))
      (sym sent)
      (reconnect_to-Reaches (values m) (entries m) (default_monitor values w.default_sink_name m) _
        (λ p. in_map p m) (default_monitor-finds values w.default_sink_name m))
