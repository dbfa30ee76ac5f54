-- ===== src/Stt/Speechmatics.antt =====
-- internal/stt/speechmatics/speechmatics.go: the protocol's messages and how they are decoded. The
-- JSON decoder's result is an argument; a message that does not decode is none.
pub mod Speaker
pub mod Transcripts
pub mod Decode
use pi_live_captions.Base.{
  ℕ, suc, ◌+◌, ◌-◌, List, [], ◌∷◌, ◌++◌, map, Bool, true, false, not, ◌&&◌, ◌||◌, Option, none,
  some, Text, codes, text_eq, is_empty, length, ◌==◌, if◌then◌else◌,
}
use pi_live_captions.Audio.Float.{Float64}
use pi_live_captions.Audio.Format.{Duration, Format}
use pi_live_captions.Stt.Engine.{cap_keyterms}

-- What the engine uses of its configuration.
pub record Config : Type 0 where
  pub format : Format
  pub model : Text
  pub language : Text
  pub keyterms : List Text
  pub diarize : Bool
  pub music_detect : Bool

abbrev pub max_vocab : ℕ
max_vocab = 1000

-- StartRecognition, without its constants; an omitted field is none.
pub record StartRecognition : Type 0 where
  pub audio_events : Option (List Text)
  pub sample_rate : ℕ
  pub language : Text
  pub model : Text
  pub enable_partials : Bool
  pub additional_vocab : List Text
  pub diarization : Text

unfoldable pub start_message : Config → StartRecognition
start_message c = record {
  audio_events = if c.music_detect then some (codes "music" ∷ []) else none;
  sample_rate = c.format.sample_rate;
  language = c.language;
  model = c.model;
  enable_partials = false;
  additional_vocab = cap_keyterms c.keyterms max_vocab;
  diarization = if c.diarize then codes "speaker" else [];
}

pub record Alternative : Type 0 where
  pub content : Text
  pub speaker : Text
  pub tags : List Text

pub record Item (F : Type 0) : Type 0 where
  pub kind : Text
  pub start_time : F
  pub end_time : F
  pub alternatives : List Alternative

pub record AudioEvent (F : Type 0) : Type 0 where
  pub kind : Text
  pub start_time : F
  pub end_time : F

pub record ServerMessage (F : Type 0) : Type 0 where
  pub message : Text
  pub kind : Text
  pub reason : Text
  pub meta_start : F
  pub meta_end : F
  pub meta_transcript : Text
  pub transcript : Text
  pub results : List (Item F)
  pub event : AudioEvent F

-- The errors that Decode and the handshake report.
pub data EngineError : Type 0 where
  end_of_transcript : EngineError
  failed : Text → Text → EngineError
  permanent : Text → Text → EngineError

abbrev pub permanent_errors : List Text
permanent_errors =
    codes "not_authorised"
    ∷ codes "not_allowed"
    ∷ codes "invalid_config"
    ∷ codes "invalid_language"
    ∷ codes "invalid_model"
    ∷ codes "invalid_audio_type"
    ∷ codes "invalid_output_type"
    ∷ []

abbrev pub contains : List Text → Text → Bool
contains [] t = false
contains (s ∷ ss) t = text_eq s t || contains ss t

unfoldable pub as_error : {F : Type 0} → ServerMessage F → EngineError
as_error m =
    if contains permanent_errors m.kind then permanent m.kind m.reason else failed m.kind m.reason

-- The answers of the server that the handshake reads, up to the first that settles it; none while
-- it waits. A failed read is the driver's.
unfoldable pub handshake :
    {F : Type 0} → List (Option (ServerMessage F)) → Option (Option EngineError)
handshake [] = none
handshake (none ∷ ms) = handshake ms
handshake (some m ∷ ms) =
    let rest = handshake ms in
    if text_eq m.message (codes "RecognitionStarted")
    then some none
    else if text_eq m.message (codes "Error")
    then some (some (as_error m))
    else rest

-- What the session counts: the AddAudio messages whose write succeeded.
unfoldable pub send_audio : ℕ → Bool → ℕ
send_audio seq_no written = if written then suc seq_no else seq_no
