-- ===== src/Capture/Devices.antt =====
-- src/audio_capture/mod.rs: `select_default_device` and `sort_devices_by_priority`. `sort_by` of the
-- standard library is stable: an insertion sort here.
pub mod Grouped
use larmindon_core.Base.{
  ℕ, ◌≤◌, ◌≡◌, refl, ◌∙◌, Bool, true, false, ◌&&◌, Option, none, some, List, [], ◌∷◌, arith, All,
  leb, if◌then◌else◌, inl, inr, Bool-cases, if_true, if_false,
}
use larmindon_core.Text.{Text}

pub data DeviceType : Type 0 where
  application input monitor : DeviceType

pub record AudioDevice : Type 0 where
  pub id : Text
  pub name : Text
  pub device_type : DeviceType
  pub is_default : Bool
  pub application_name : Option Text

-- `PartialEq` of `DeviceType`.
unfoldable pub same_type : DeviceType → DeviceType → Bool
same_type application application = true
same_type input input = true
same_type monitor monitor = true
same_type _ _ = false

-- `iter().find(p).map(|d| d.id.clone())`.
unfoldable pub find_id : (AudioDevice → Bool) → List AudioDevice → Option Text
find_id p [] = none
find_id p (d ∷ ds) = if p d then some d.id else find_id p ds

abbrev pub or_else : Option Text → Option Text → Option Text
or_else none o = o
or_else (some id) o = some id

unfoldable pub select_default_device : List AudioDevice → Option Text
unfolding find_id same_type
select_default_device ds =
    or_else (find_id (λ d. same_type d.device_type monitor && d.is_default) ds) (
      or_else (find_id (λ d. same_type d.device_type monitor) ds)
        (find_id (λ d. same_type d.device_type input) ds))

pub priority : DeviceType → ℕ
priority application = 0
priority input = 1
priority monitor = 2

pub insert_device : AudioDevice → List AudioDevice → List AudioDevice
unfolding priority
insert_device d [] = d ∷ []
insert_device d (e ∷ es) =
    let rest = insert_device d es in
    if leb (priority d.device_type) (priority e.device_type) then d ∷ e ∷ es else e ∷ rest

pub sort_devices_by_priority : List AudioDevice → List AudioDevice
unfolding insert_device
sort_devices_by_priority [] = []
sort_devices_by_priority (d ∷ ds) = insert_device d (sort_devices_by_priority ds)

-- The devices of one type, in order.
unfoldable pub of_type : DeviceType → List AudioDevice → List AudioDevice
of_type t [] = []
of_type t (d ∷ ds) = let rest = of_type t ds in if same_type d.device_type t then d ∷ rest else rest

pub same_type_eq : (a b : DeviceType) → same_type a b ≡ true → a ≡ b
unfolding same_type
same_type_eq application application h = refl
same_type_eq input input h = refl
same_type_eq monitor monitor h = refl
same_type_eq application input h = cc
same_type_eq application monitor h = cc
same_type_eq input application h = cc
same_type_eq input monitor h = cc
same_type_eq monitor application h = cc
same_type_eq monitor input h = cc

abbrev pub IsSorted : List AudioDevice → Type 0
IsSorted [] = Unit
IsSorted (d ∷ ds) = All (λ e. priority d.device_type ≤ priority e.device_type) ds × IsSorted ds

All-weaken :
    (m n : ℕ) (ds : List AudioDevice)
    → m ≤ n
    → All (λ e. n ≤ priority e.device_type) ds
    → All (λ e. m ≤ priority e.device_type) ds
All-weaken m n [] h a = tt
All-weaken m n (d ∷ ds) h a = (omega arith, All-weaken m n ds h a.1)

All-insert_device :
    (m : ℕ) (d : AudioDevice) (ds : List AudioDevice)
    → m ≤ priority d.device_type
    → All (λ e. m ≤ priority e.device_type) ds
    → All (λ e. m ≤ priority e.device_type) (insert_device d ds)
unfolding insert_device
All-insert_device m d [] h a = (h, tt)
All-insert_device m d (e ∷ es) h a =
    elim (Bool-cases (leb (priority d.device_type) (priority e.device_type))) [
      | inl le ↦ rw (if_true (leb (priority d.device_type) (priority e.device_type)) _ _ le) (h, a)
      | inr gt ↦
          rw (if_false (leb (priority d.device_type) (priority e.device_type)) _ _ gt)
            (a.0, All-insert_device m d es h a.1)
    ]

insert_device-IsSorted :
    (d : AudioDevice) (ds : List AudioDevice) → IsSorted ds → IsSorted (insert_device d ds)
unfolding insert_device
insert_device-IsSorted d [] s = (tt, tt)
insert_device-IsSorted d (e ∷ es) s =
    let p = priority d.device_type in
    let q = priority e.device_type in
    elim (Bool-cases (leb p q)) [
      | inl le ↦
          rw (if_true (leb p q) _ _ le) ((ground arith, All-weaken p q es (ground arith) s.0), s)
      | inr gt ↦
          rw (if_false (leb p q) _ _ gt)
            (All-insert_device q d es (ground arith) s.0, insert_device-IsSorted d es s.1)
    ]

-- Devices of different types keep out of each other's way; one of type `t` goes before its like.
of_type-insert_device :
    (t : DeviceType) (d : AudioDevice) (ds : List AudioDevice)
    → of_type t (insert_device d ds) ≡ of_type t (d ∷ ds)
unfolding insert_device of_type
of_type-insert_device t d [] = refl
of_type-insert_device t d (e ∷ es) =
    let p = priority d.device_type in
    let q = priority e.device_type in
    elim (Bool-cases (leb p q)) [
      | inl le ↦ rw (if_true (leb p q) _ _ le)
      | inr gt ↦
          rw (if_false (leb p q) _ _ gt, of_type-insert_device t d es)
            (ground (arith, same_type_eq d.device_type t, same_type_eq e.device_type t))
    ]

of_type-cons :
    (t : DeviceType) (d : AudioDevice) (es fs : List AudioDevice)
    → of_type t es ≡ of_type t fs
    → of_type t (d ∷ es) ≡ of_type t (d ∷ fs)
unfolding of_type
of_type-cons t d es fs h = rw h

-- The devices are sorted: applications, inputs, then monitors. Those of each type are the ones that
-- were given, in the order in which they were given.
pub sort_devices_by_priority-sorts :
    (ds : List AudioDevice)
    → IsSorted (sort_devices_by_priority ds)
      × ((t : DeviceType) → of_type t (sort_devices_by_priority ds) ≡ of_type t ds)
unfolding sort_devices_by_priority
sort_devices_by_priority-sorts [] = (tt, λ t. refl)
sort_devices_by_priority-sorts (d ∷ ds) =
    let (sorted, same) = sort_devices_by_priority-sorts ds in
    (
      insert_device-IsSorted d (sort_devices_by_priority ds) sorted,
      λ t.
          of_type-insert_device t d (sort_devices_by_priority ds)
          ∙ of_type-cons t d (sort_devices_by_priority ds) ds (same t),
    )
