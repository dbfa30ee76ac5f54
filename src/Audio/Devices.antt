-- ===== src/Audio/Devices.antt =====
-- internal/audio/devices.go: the parsing of what ffmpeg lists, and the check of a device's name.
-- ffmpeg's output is an argument.
pub mod Resolved
use pi_live_captions.Base.{
  List, [], ◌∷◌, ◌++◌, Bool, true, false, not, ◌&&◌, ◌||◌, Option, none, some, Text, codes, text_eq,
  is_empty, trim_space, length, ltb, ◌==◌, if◌then◌else◌,
}

pub record Device : Type 0 where
  pub backend : Text
  pub name : Text
  pub label : Text
  pub is_default : Bool

abbrev pub in_front : Text → List Text → List Text
in_front s [] = s ∷ []
in_front s (l ∷ ls) = (s ++ l) ∷ ls

-- strings.SplitSeq at newlines.
unfoldable pub split_newlines : Text → List Text
split_newlines [] = [] ∷ []
split_newlines (c ∷ cs) =
    let rest = split_newlines cs in if c == b'\n' then [] ∷ rest else in_front (c ∷ []) rest

-- What follows a prefix.
unfoldable pub cut_prefix : Text → Text → Option Text
cut_prefix s [] = some s
cut_prefix [] (p ∷ ps) = none
cut_prefix (c ∷ cs) (p ∷ ps) = if c == p then cut_prefix cs ps else none

abbrev pub has_prefix : Text → Text → Bool
has_prefix s p = elim (cut_prefix s p) [ none ↦ false | some rest ↦ true ]

abbrev pub trim_prefix : Text → Text → Text
trim_prefix s p = elim (cut_prefix s p) [ none ↦ s | some rest ↦ rest ]

-- The text in front of a last character that is `x`.
unfoldable pub cut_last : Text → Text → Option Text
cut_last x [] = none
cut_last x (c ∷ []) = if text_eq (c ∷ []) x then some [] else none
cut_last x (c ∷ d ∷ cs) = elim (cut_last x (d ∷ cs)) [ none ↦ none | some s ↦ some (c ∷ s) ]

abbrev pub ends_in : Text → Text → Bool
ends_in x s = elim (cut_last x s) [ none ↦ false | some rest ↦ true ]

-- The text in front of the first " [", and what follows the blank.
unfoldable pub cut_bracket : Text → Option (Text × Text)
cut_bracket [] = none
cut_bracket (c ∷ cs) =
    let rest = cut_bracket cs in
    if has_prefix (c ∷ cs) (codes " [")
    then some ([], cs)
    else elim rest [ none ↦ none | some p ↦ some (c ∷ p.0, p.1) ]

abbrev pub bare_label : Text → Text
bare_label s =
    let inner = trim_prefix s (codes "[") in
    elim (cut_last (codes "]") inner) [ none ↦ inner | some l ↦ l ]

abbrev pub is_heading : Text → Bool
is_heading trimmed =
    is_empty trimmed
    || has_prefix trimmed (codes "Auto-detected")
    || has_prefix trimmed (codes "Cannot list")
    || ends_in (codes ":") trimmed

-- An entry's name and label.
unfoldable pub name_label : Text → Text × Text
name_label trimmed = elim (cut_bracket trimmed) [
  | none ↦ (trimmed, [])
  | some p ↦ (trim_space p.0, bare_label p.1)
]

-- A line of the list.
unfoldable pub parse_device : Text → Text → Option Device
parse_device backend line =
    let trimmed = trim_space line in
    let entry = trim_space (trim_prefix trimmed (codes "*")) in
    let nl = name_label entry in
    if is_heading trimmed || is_empty entry || is_empty nl.0
    then none
    else some (record {
      backend = backend;
      name = nl.0;
      label = nl.1;
      is_default = has_prefix trimmed (codes "*");
    })

unfoldable pub parse_devices : Text → List Text → List Device
parse_devices backend [] = []
parse_devices backend (l ∷ ls) =
    let rest = parse_devices backend ls in
    elim (parse_device backend l) [ none ↦ rest | some d ↦ d ∷ rest ]

unfoldable pub list_backend : (Text → Text) → Text → List Device
list_backend ffmpeg backend = parse_devices backend (split_newlines (ffmpeg backend))

unfoldable pub list_devices : (Text → Text) → List Device
list_devices ffmpeg = list_backend ffmpeg (codes "pulse") ++ list_backend ffmpeg (codes "alsa")

unfoldable pub is_well_known_device_name : Text → Bool
is_well_known_device_name name =
    text_eq name (codes "default")
    || has_prefix name (codes "hw:")
    || has_prefix name (codes "plughw:")
    || has_prefix name (codes "sysdefault")

-- What ResolveDevice answers; its error by the names that it counts or lists.
pub data Resolution : Type 0 where
  found skipped : Resolution
  unknown : List Text → Resolution

-- The loop of ResolveDevice: none where the name is met, else the names of the backend.
unfoldable pub names_without : Text → Text → List Device → Option (List Text)
names_without backend name [] = some []
names_without backend name (d ∷ ds) =
    let rest = names_without backend name ds in
    if not (text_eq d.backend backend)
    then rest
    else if text_eq d.name name
    then none
    else elim rest [ none ↦ none | some names ↦ some (d.name ∷ names) ]

abbrev pub judged : Option (List Text) → Resolution
judged none = Resolution.found
judged (some []) = Resolution.skipped
judged (some (n ∷ ns)) = Resolution.unknown (n ∷ ns)

unfoldable pub resolve_device : List Device → Text → Text → Resolution
resolve_device devices backend name =
    if is_well_known_device_name name
    then Resolution.found
    else judged (names_without backend name devices)
