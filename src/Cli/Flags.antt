-- ===== src/Cli/Flags.antt =====
-- internal/cli/cli.go and internal/cli/run.go: the recognizer's flags and what fills them in. The
-- file system and the environment are arguments.
pub mod Filled
pub mod Launch
use pi_live_captions.Base.{
  ℕ, List, [], ◌∷◌, ◌++◌, Bool, true, false, not, ◌&&◌, ◌||◌, Option, none, some, ◌⊎◌, inl, inr,
  pos, Text, codes, text_eq, is_empty, trim_space, leb_ℤ, ◌==◌, if◌then◌else◌,
}
use pi_live_captions.Audio.Float.{Float64}
use pi_live_captions.Audio.Format.{Duration}
use pi_live_captions.Audio.NoiseGate as NoiseGate
use pi_live_captions.Metrics.Snapshot.{seconds}

pub record SttFlags (F : Type 0) : Type 0 where
  pub engine : Text
  pub api_key : Text
  pub model : Text
  pub language : Text
  pub keyterm : List Text
  pub keyterm_file : Text
  pub noise_threshold_dbfs : F
  pub noise_release : Duration
  pub auto_pause : Bool
  pub silence_hold : Duration
  pub diarize : Bool
  pub music_detect : Bool

-- The errors that end a run before it starts, without their texts.
pub data StartError : Type 0 where
  unreadable no_terms no_key unknown_engine : StartError

-- Validate; true is nil.
abbrev pub validate : (fl : Float64) → SttFlags fl.F → Bool
unfolding NoiseGate.validate
validate fl f =
    not (leb_ℤ f.silence_hold (pos 0))
    && NoiseGate.validate fl (record {
      threshold_dbfs = f.noise_threshold_dbfs;
      release_sec = seconds fl f.noise_release;
    })

-- A lookup in engineDefaults, the model and the language.
unfoldable pub engine_defaults : Text → Option (Text × Text)
engine_defaults name =
    if text_eq name (codes "deepgram")
    then some (codes "nova-3", codes "en-US")
    else if text_eq name (codes "speechmatics")
    then some (codes "enhanced", codes "en")
    else none

-- A lookup in apiKeyEnv.
unfoldable pub api_key_env : Text → Option Text
api_key_env name =
    if text_eq name (codes "deepgram")
    then some (codes "DEEPGRAM_API_KEY")
    else if text_eq name (codes "speechmatics")
    then some (codes "SPEECHMATICS_API_KEY")
    else none

-- A character in front of the first line.
abbrev pub grown : ℕ → List Text → List Text
grown c [] = (c ∷ []) ∷ []
grown c (l ∷ ls) = (c ∷ l) ∷ ls

-- strings.Lines: each line with its newline.
unfoldable pub split_lines : Text → List Text
split_lines [] = []
split_lines (c ∷ cs) =
    let rest = split_lines cs in if c == b'\n' then (c ∷ []) ∷ rest else grown c rest

abbrev pub is_comment : Text → Bool
is_comment [] = false
is_comment (c ∷ cs) = c == b'#'

-- The loop of readKeytermFile.
unfoldable pub terms_of : List Text → List Text
terms_of [] = []
terms_of (l ∷ ls) =
    let line = trim_space l in
    let rest = terms_of ls in if is_empty line || is_comment line then rest else line ∷ rest

-- The files' contents, none for one that cannot be read.
abbrev pub Files : Type 0
Files = Text → Option Text

abbrev pub some_terms : List Text → StartError ⊎ List Text
some_terms [] = inl StartError.no_terms
some_terms (t ∷ ts) = inr (t ∷ ts)

unfoldable pub read_keyterm_file : Files → Text → StartError ⊎ List Text
read_keyterm_file files path = elim (files path) [
  | none ↦ inl StartError.unreadable
  | some b ↦ some_terms (terms_of (split_lines b))
]

module _ {F : Type 0} where
  unfoldable pub with_keyterms : Files → SttFlags F → StartError ⊎ SttFlags F
  with_keyterms files f =
      if is_empty f.keyterm_file then inr f else elim (read_keyterm_file files f.keyterm_file) [
        | inl e ↦ inl e
        | inr terms ↦ inr (record f { keyterm = f.keyterm ++ terms })
      ]

  unfoldable pub with_key : (Text → Text) → SttFlags F → SttFlags F
  with_key env f =
      if is_empty f.api_key
      then elim (api_key_env f.engine) [ none ↦ f | some name ↦ record f { api_key = env name } ]
      else f

  unfoldable pub with_defaults : SttFlags F → SttFlags F
  with_defaults f = elim (engine_defaults f.engine) [
    | none ↦ f
    | some d ↦ record f {
      model = if is_empty f.model then d.0 else f.model;
      language = if is_empty f.language then d.1 else f.language;
    }
  ]

  -- resolveSTTDefaults; the flags are passed on, changed.
  unfoldable pub resolve_stt_defaults : Files → (Text → Text) → SttFlags F → StartError ⊎ SttFlags F
  resolve_stt_defaults files env f = elim (with_keyterms files f) [
    | inl e ↦ inl e
    | inr g ↦ inr (with_defaults (with_key env g))
  ]

-- requireAPIKey; true is nil.
unfoldable pub require_api_key : Text → Text → Bool
require_api_key engine key = text_eq engine (codes "mock") || not (is_empty (trim_space key))

-- The recognizers of newEngine.
pub data EngineName : Type 0 where
  deepgram speechmatics mock : EngineName

unfoldable pub new_engine : Text → StartError ⊎ EngineName
new_engine name =
    if text_eq name (codes "deepgram")
    then inr EngineName.deepgram
    else if text_eq name (codes "speechmatics")
    then inr EngineName.speechmatics
    else if text_eq name (codes "mock")
    then inr EngineName.mock
    else inl StartError.unknown_engine

-- The recognizer's part of a command's Run, with newSession's newEngine.
unfoldable pub start_engine :
    {F : Type 0} → Files → (Text → Text) → SttFlags F → StartError ⊎ (EngineName × SttFlags F)
start_engine files env f = elim (resolve_stt_defaults files env f) [
  | inl e ↦ inl e
  | inr g ↦
      if require_api_key g.engine g.api_key
      then elim (new_engine g.engine) [ inl e ↦ inl e | inr k ↦ inr (k, g) ]
      else inl StartError.no_key
]
