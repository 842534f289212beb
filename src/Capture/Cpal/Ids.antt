-- ===== src/Capture/Cpal/Ids.antt =====
-- src/audio_capture/cpal.rs: the ids of the listed devices, and the devices that they choose.
use larmindon_core.Base.{
  ◌≡◌, ◌≢◌, refl, sym, ap, ◌∙◌, subst, Bool, true, false, none, some, List, [], ◌∷◌, ◌++◌,
  append_assoc, All, All-map, All-append, inl, inr, Bool-cases, if_true, if_false, if_holds,
  is_empty, Result, ok, err, then_ok, if◌then◌else◌,
}
use larmindon_core.Text.{Text, text_eq_iff}
use larmindon_core.Text.Parse.{strip_prefix, strip_prefix-append}
use larmindon_core.Capture.Devices.{DeviceType, application, input, monitor, AudioDevice, same_type}
use larmindon_core.Capture.Cpal.{
  CpalHost, Platform, cpal_device_id, parse_cpal_device_id, input_device_id_prefix,
  output_device_id_prefix, devices_or_none, lists_outputs, listed_first, list_devices, input_entry,
  output_entry, enumerate_devices, is_named, device_name_matches, find_device, or_error, choose,
  choose_device, input_or, output_or_none,
}

not_input :
    (raw_name : Text)
    → strip_prefix input_device_id_prefix (output_device_id_prefix ++ raw_name) ≡ none
unfolding strip_prefix
not_input raw_name = refl

ok_inj : {A : Type 0} (a b : A) → ◌≡◌ {A = Result {0, 0} A Text} (ok a) (ok b) → a ≡ b
ok_inj a b e = cc

then_ok-ok :
    {A B : Type 0} (r : Result {0, 0} A Text) (k : A → Result {0, 0} B Text) {b : B}
    → then_ok r k ≡ ok b
    → (a : A) × (r ≡ ok a) × (k a ≡ ok b)
then_ok-ok (ok a) k e = (a, refl, e)
then_ok-ok (err m) k e = cc

-- An id is parsed back to the direction and the name that it was made of, whatever the name, for the
-- devices that CPAL lists (it has no applications).
pub parse_cpal_device_id-cpal_device_id :
    (t : DeviceType) (raw_name : Text)
    → t ≢ application
    → parse_cpal_device_id (cpal_device_id t raw_name) ≡ some (t, raw_name)
unfolding parse_cpal_device_id cpal_device_id
parse_cpal_device_id-cpal_device_id application raw_name h = absurd (h refl)
parse_cpal_device_id-cpal_device_id input raw_name h =
    ap
      (λ o. input_or o (
        output_or_none (strip_prefix output_device_id_prefix (input_device_id_prefix ++ raw_name))))
      (strip_prefix-append input_device_id_prefix raw_name)
parse_cpal_device_id-cpal_device_id monitor raw_name h =
    ap
      (λ o. input_or o (
        output_or_none
          (strip_prefix output_device_id_prefix (output_device_id_prefix ++ raw_name))))
      (not_input raw_name)
    ∙ ap output_or_none (strip_prefix-append output_device_id_prefix raw_name)

module _ {D : Type 0} (host : CpalHost D) where
  named :
      (r : Result {0, 0} Text Text) (raw_name : Text)
      → is_named host r raw_name ≡ true
      → r ≡ ok raw_name
  named (ok n) raw_name e = ap ok ((text_eq_iff n raw_name).0 e)
  named (err m) raw_name e = cc

  matches-name :
      (d : D) (raw_name : Text)
      → device_name_matches host d raw_name ≡ true
      → host.name d ≡ ok raw_name
  unfolding device_name_matches
  matches-name d raw_name e = named (host.name d) raw_name e

  matches_self :
      (d : D) (raw_name : Text)
      → host.name d ≡ ok raw_name
      → device_name_matches host d raw_name ≡ true
  unfolding device_name_matches
  matches_self d raw_name e =
      ap (λ r. is_named host r raw_name) e ∙ (text_eq_iff raw_name raw_name).1 refl

  -- A device that is there is found by its name, or another of that name.
  find_device-some :
      (raw_name : Text) (pre : List D) (d : D) (post : List D)
      → host.name d ≡ ok raw_name
      → (d' : D) × (find_device host raw_name (pre ++ (d ∷ post)) ≡ some d')
        × (host.name d' ≡ ok raw_name)
  unfolding find_device
  find_device-some raw_name [] d post e =
      (d, if_true (device_name_matches host d raw_name) _ _ (matches_self d raw_name e), e)
  find_device-some raw_name (x ∷ pre) d post e =
      let (d', found, name) = find_device-some raw_name pre d post e in
      elim (Bool-cases (device_name_matches host x raw_name)) [
        | inl m ↦
            (x, if_true (device_name_matches host x raw_name) _ _ m, matches-name x raw_name m)
        | inr m ↦ (d', if_false (device_name_matches host x raw_name) _ _ m ∙ found, name)
      ]

  -- An entry for a name by which a device is found.
  record IsFound (make : Text → AudioDevice) (all_ : List D) (entry : AudioDevice) : Type 0 where
    raw_name : Text
    device : D
    made : entry ≡ make raw_name
    found : find_device host raw_name all_ ≡ some device
    name : host.name device ≡ ok raw_name

  first-IsFound :
      (make : Text → AudioDevice) (pre : List D) (d : D) (ds : List D) (out : List AudioDevice)
      (r : Result {0, 0} Text Text) (rest : Result {0, 0} (List AudioDevice) Text)
      → host.name d ≡ r
      → ((more : List AudioDevice) → rest ≡ ok more → All (IsFound make (pre ++ (d ∷ ds))) more)
      → listed_first host make r rest ≡ ok out
      → All (IsFound make (pre ++ (d ∷ ds))) out
  first-IsFound make pre d ds out (err e) rest n all_found h = cc
  first-IsFound make pre d ds out (ok raw_name) (err e) n all_found h = cc
  first-IsFound make pre d ds out (ok raw_name) (ok more) n all_found h =
      let tail = all_found more refl in
      let (d', found, name) = find_device-some raw_name pre d ds n in
      subst (All (IsFound make (pre ++ (d ∷ ds)))) (ok_inj _ out h) (
        if_holds (All (IsFound make (pre ++ (d ∷ ds)))) (is_empty raw_name) more
          (make raw_name ∷ more) (λ _. tail)
          (λ _. (
            record { raw_name = raw_name; device = d'; made = refl; found = found; name = name },
            tail,
          )))

  list_devices-IsFound :
      (make : Text → AudioDevice) (pre ds : List D) (out : List AudioDevice)
      → list_devices host make ds ≡ ok out
      → All (IsFound make (pre ++ ds)) out
  unfolding list_devices
  list_devices-IsFound make pre [] out h =
      subst (All (IsFound make (pre ++ []))) (ok_inj [] out h) tt
  list_devices-IsFound make pre (d ∷ ds) out h =
      first-IsFound make pre d ds out (host.name d) (list_devices host make ds) refl
        (λ more e.
          subst (λ l. All (IsFound make l) more) (append_assoc pre (d ∷ []) ds)
            (list_devices-IsFound make (pre ++ (d ∷ [])) ds more e))
        h

  -- What the id of a listed device chooses.
  pub record Chooses (entry : AudioDevice) : Type 0 where
    pub device : D
    pub raw_name : Text
    pub chosen :
        choose_device host (some entry.id) ≡ ok (device, same_type entry.device_type monitor)
    pub name : host.name device ≡ ok raw_name
    pub made_of : entry.id ≡ cpal_device_id entry.device_type raw_name

  input-Chooses :
      (e : AudioDevice)
      → IsFound (input_entry host) (devices_or_none host.input_devices) e
      → Chooses e
  unfolding choose_device choose input_entry same_type cpal_device_id
  input-Chooses e f = subst Chooses (sym f.made) (record {
    device = f.device;
    raw_name = f.raw_name;
    chosen =
        ap (choose host (cpal_device_id input f.raw_name))
          (parse_cpal_device_id-cpal_device_id input f.raw_name (λ e. cc))
        ∙ ap (or_error host false _) f.found;
    name = f.name;
    made_of = refl;
  })

  output-Chooses :
      (platform : Platform) (e : AudioDevice)
      → IsFound (output_entry host platform) (devices_or_none host.output_devices) e
      → Chooses e
  unfolding choose_device choose output_entry same_type cpal_device_id
  output-Chooses platform e f = subst Chooses (sym f.made) (record {
    device = f.device;
    raw_name = f.raw_name;
    chosen =
        ap (choose host (cpal_device_id monitor f.raw_name))
          (parse_cpal_device_id-cpal_device_id monitor f.raw_name (λ e. cc))
        ∙ ap (or_error host true _) f.found;
    name = f.name;
    made_of = refl;
  })

  outputs-Chooses :
      (platform : Platform) (b : Bool) (outputs : List AudioDevice)
      → (if b
          then list_devices host (output_entry host platform) (devices_or_none host.output_devices)
          else ok [])
        ≡ ok outputs
      → All Chooses outputs
  outputs-Chooses platform true outputs h = All-map _ Chooses outputs (output-Chooses platform) (
      list_devices-IsFound (output_entry host platform) [] (devices_or_none host.output_devices)
        outputs h)
  outputs-Chooses platform false outputs h = subst (All Chooses) (ok_inj [] outputs h) tt

  -- Each listed device can be chosen by its id: in its own direction, a device of the same name.
  pub enumerate_devices-Chooses :
      (platform : Platform) (out : List AudioDevice)
      → enumerate_devices host platform ≡ ok out
      → All Chooses out
  unfolding enumerate_devices
  enumerate_devices-Chooses platform out h =
      let (inputs, listed_in, h₁) =
        then_ok-ok (list_devices host (input_entry host) (devices_or_none host.input_devices)) _
          h in
      let (outputs, listed_out, h₂) = then_ok-ok _ _ h₁ in
      subst (All Chooses) (ok_inj (inputs ++ outputs) out h₂) (
        All-append Chooses inputs outputs
          (All-map _ Chooses inputs input-Chooses (
            list_devices-IsFound (input_entry host) [] (devices_or_none host.input_devices) inputs
              listed_in))
          (outputs-Chooses platform (lists_outputs platform) outputs listed_out))
