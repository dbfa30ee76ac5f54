-- ===== src/Audio/Devices/Resolved.antt =====
-- internal/audio/devices.go: which device names are turned down.
use pi_live_captions.Base.{
  List, [], ◌∷◌, false, not, ◌&&◌, subst, Option, none, some, ◌≡◌, Text, text_eq, if_cases, All,
  arith,
}
use pi_live_captions.Audio.Devices.{
  Device, Resolution, is_well_known_device_name, names_without, judged, resolve_device,
}

-- A device that is not the one of this name on the backend.
abbrev pub IsOther : Text → Text → Device → Type 0
IsOther backend name d = (text_eq d.backend backend && text_eq d.name name) ≡ false

-- What a search answers, of the devices searched.
abbrev Searched : Text → Text → List Device → Option (List Text) → Type 0
Searched backend name ds none = Unit
Searched backend name ds (some names) = All (IsOther backend name) ds

names_without-Searched :
    (backend name : Text) (ds : List Device)
    → Searched backend name ds (names_without backend name ds)
unfolding names_without
names_without-Searched backend name [] = tt
names_without-Searched backend name (d ∷ ds) =
    let rest = names_without-Searched backend name ds in
    if_cases (Searched backend name (d ∷ ds)) (not (text_eq d.backend backend))
      (λ h. with_other (ground arith) (names_without backend name ds) rest)
      (λ h.
        if_cases (Searched backend name (d ∷ ds)) (text_eq d.name name) (λ e. tt)
          (λ e. with_name (ground arith) (names_without backend name ds) rest))
  where
    with_other :
        IsOther backend name d
        → (o : Option (List Text)) → Searched backend name ds o
        → Searched backend name (d ∷ ds) o
    with_other o none s = tt
    with_other o (some names) s = (o, s)

    with_name :
        IsOther backend name d
        → (o : Option (List Text)) → Searched backend name ds o
        → Searched backend name (d ∷ ds) (elim o as (λ x. Option (List Text)) [
          | none ↦ none
          | some names ↦ some (d.name ∷ names)
        ])
    with_name o none s = tt
    with_name o (some names) s = (o, s)

abbrev Rejects : List Device → Text → Text → Resolution → Type 0
Rejects ds backend name Resolution.found = Unit
Rejects ds backend name Resolution.skipped = Unit
Rejects ds backend name (Resolution.unknown names) =
    (is_well_known_device_name name ≡ false) × All (IsOther backend name) ds

resolve_device-Rejects :
    (ds : List Device) (backend name : Text)
    → Rejects ds backend name (resolve_device ds backend name)
unfolding resolve_device
resolve_device-Rejects ds backend name =
    if_cases (Rejects ds backend name) (is_well_known_device_name name) (λ h. tt)
      (λ h. judge h (names_without backend name ds) (names_without-Searched backend name ds))
  where
    judge :
        is_well_known_device_name name ≡ false
        → (o : Option (List Text)) → Searched backend name ds o
        → Rejects ds backend name (judged o)
    judge h none s = tt
    judge h (some []) s = tt
    judge h (some (n ∷ ns)) s = (h, s)

-- A name that is turned down is not one that ALSA resolves itself, and no device that was listed
-- for the backend has it.
pub resolve_device-unknown :
    (ds : List Device) (backend name : Text) (names : List Text)
    → resolve_device ds backend name ≡ Resolution.unknown names
    → (is_well_known_device_name name ≡ false) × All (IsOther backend name) ds
resolve_device-unknown ds backend name names h =
    subst (Rejects ds backend name) h (resolve_device-Rejects ds backend name)
