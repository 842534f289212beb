-- ===== src/Capture/Devices/Grouped.antt =====
-- `sort_devices_by_priority` of src/audio_capture/mod.rs as the devices of each type in turn.
use larmindon_core.Base.{
  ℕ, ◌≤◌, ◌<◌, ◌≡◌, refl, sym, ap, ◌∙◌, subst, inl, inr, Bool-cases, List, [], ◌∷◌, ◌++◌, arith,
  All, All-append, leb, le→leb, if◌then◌else◌, if_true, if_false,
}
use larmindon_core.Capture.Devices.{
  DeviceType, application, input, monitor, AudioDevice, priority, insert_device,
  sort_devices_by_priority, of_type, same_type, same_type_eq,
}

-- Past the devices that go before it.
insert_device-append :
    (d : AudioDevice) (ds bs : List AudioDevice)
    → All (λ e. priority e.device_type < priority d.device_type) ds
    → insert_device d (ds ++ bs) ≡ ds ++ insert_device d bs
unfolding insert_device
insert_device-append d [] bs h = refl
insert_device-append d (e ∷ ds) bs h =
    if_false (leb (priority d.device_type) (priority e.device_type)) _ _ (ground arith)
    ∙ ap (λ es. e ∷ es) (insert_device-append d ds bs h.1)

insert_device-first :
    (d : AudioDevice) (es : List AudioDevice)
    → All (λ e. priority d.device_type ≤ priority e.device_type) es
    → insert_device d es ≡ d ∷ es
unfolding insert_device
insert_device-first d [] h = refl
insert_device-first d (e ∷ es) h =
    if_true (leb (priority d.device_type) (priority e.device_type)) _ _ (le→leb _ _ h.0)

of_type-cons_eq :
    (t u : DeviceType) (d : AudioDevice) (ds : List AudioDevice)
    → d.device_type ≡ t
    → of_type u (d ∷ ds) ≡ (if same_type t u then d ∷ of_type u ds else of_type u ds)
unfolding of_type
of_type-cons_eq t u d ds e = rw e

of_type-All :
    (t : DeviceType) (P : ℕ → Type 0) (ds : List AudioDevice)
    → P (priority t)
    → All (λ e. P (priority e.device_type)) (of_type t ds)
unfolding of_type
of_type-All t P [] p = tt
of_type-All t P (d ∷ ds) p = elim (Bool-cases (same_type d.device_type t)) [
  | inl same ↦ rw (if_true (same_type d.device_type t) _ _ same) (
    subst (λ u. P (priority u)) (sym (same_type_eq d.device_type t same)) p,
    of_type-All t P ds p,
  )
  | inr other ↦ rw (if_false (same_type d.device_type t) _ _ other) (of_type-All t P ds p)
]

abbrev groups : List AudioDevice → List AudioDevice
groups ds = of_type application ds ++ (of_type input ds ++ of_type monitor ds)

-- Devices of type `u` may follow one of type `t`, or go before it.
follow :
    (t u : DeviceType) (d : AudioDevice) (ds : List AudioDevice)
    → d.device_type ≡ t
    → priority t ≤ priority u
    → All (λ e. priority d.device_type ≤ priority e.device_type) (of_type u ds)
follow t u d ds same h =
    of_type-All u (λ n. priority d.device_type ≤ n) ds
      (subst (λ v. priority v ≤ priority u) (sym same) h)

precede :
    (t u : DeviceType) (d : AudioDevice) (ds : List AudioDevice)
    → d.device_type ≡ t
    → priority u < priority t
    → All (λ e. priority e.device_type < priority d.device_type) (of_type u ds)
precede t u d ds same h =
    of_type-All u (λ n. n < priority d.device_type) ds
      (subst (λ v. priority u < priority v) (sym same) h)

insert_device-groups :
    (t : DeviceType) (d : AudioDevice) (ds : List AudioDevice)
    → d.device_type ≡ t
    → insert_device d (groups ds) ≡ groups (d ∷ ds)
unfolding same_type priority
insert_device-groups application d ds e =
    rw
      (
        of_type-cons_eq application application d ds e,
        of_type-cons_eq application input d ds e,
        of_type-cons_eq application monitor d ds e,
      )
      (insert_device-first d (groups ds) (
        All-append _ (of_type application ds) (of_type input ds ++ of_type monitor ds)
          (follow application application d ds e (omega arith))
          (All-append _ (of_type input ds) (of_type monitor ds)
            (follow application input d ds e (omega arith))
            (follow application monitor d ds e (omega arith)))))
insert_device-groups input d ds e =
    rw
      (
        of_type-cons_eq input application d ds e,
        of_type-cons_eq input input d ds e,
        of_type-cons_eq input monitor d ds e,
      )
      (insert_device-append d (of_type application ds) (of_type input ds ++ of_type monitor ds)
          (precede input application d ds e (omega arith))
        ∙ ap (λ es. of_type application ds ++ es)
            (insert_device-first d (of_type input ds ++ of_type monitor ds) (
              All-append _ (of_type input ds) (of_type monitor ds)
                (follow input input d ds e (omega arith))
                (follow input monitor d ds e (omega arith)))))
insert_device-groups monitor d ds e =
    rw
      (
        of_type-cons_eq monitor application d ds e,
        of_type-cons_eq monitor input d ds e,
        of_type-cons_eq monitor monitor d ds e,
      )
      (insert_device-append d (of_type application ds) (of_type input ds ++ of_type monitor ds)
          (precede monitor application d ds e (omega arith))
        ∙ ap (λ es. of_type application ds ++ es)
            (insert_device-append d (of_type input ds) (of_type monitor ds)
                (precede monitor input d ds e (omega arith))
              ∙ ap (λ es. of_type input ds ++ es)
                  (insert_device-first d (of_type monitor ds)
                    (follow monitor monitor d ds e (omega arith)))))

-- The applications, then the inputs, then the monitors.
pub sort_devices_by_priority-groups :
    (ds : List AudioDevice)
    → sort_devices_by_priority ds
      ≡ of_type application ds ++ (of_type input ds ++ of_type monitor ds)
unfolding sort_devices_by_priority of_type
sort_devices_by_priority-groups [] = refl
sort_devices_by_priority-groups (d ∷ ds) =
    ap (insert_device d) (sort_devices_by_priority-groups ds)
    ∙ insert_device-groups d.device_type d ds refl
