-- ===== src/Stt/Deepgram.antt =====
-- internal/stt/deepgram/deepgram.go: what the engine asks for, and how it decodes a message. The
-- JSON decoder's result is an argument; a message that does not decode is none.
pub mod Grouping
use pi_live_captions.Base.{
  ℕ, suc, ◌+◌, List, [], ◌∷◌, ◌++◌, map, Bool, true, false, not, ◌&&◌, Option, none, some, Text,
  codes, is_empty, last_or, ltb, ◌==◌, if◌then◌else◌,
}
use pi_live_captions.Audio.Float.{Float64}
use pi_live_captions.Audio.Format.{Format}
use pi_live_captions.Stt.Engine.{cap_keyterms, seconds_to_duration}
use pi_live_captions.Stt.Transcript.{Word, Transcript, untimed}

abbrev pub max_keyterms : ℕ
max_keyterms = 400

-- What the engine uses of its configuration.
pub record Config : Type 0 where
  pub format : Format
  pub model : Text
  pub language : Text
  pub keyterms : List Text
  pub diarize : Bool

-- A query parameter's value.
pub data Value : Type 0 where
  text : Text → Value
  number : ℕ → Value
  flag : Bool → Value

-- The parameters of dialURL, before they are encoded.
unfoldable pub dial_params : Config → List (Text × Value)
dial_params c =
    (codes "encoding", text (codes "linear16"))
    ∷ (codes "sample_rate", number c.format.sample_rate)
    ∷ (codes "channels", number c.format.channels)
    ∷ (codes "model", text c.model)
    ∷ (codes "language", text c.language)
    ∷ (codes "interim_results", text (codes "false"))
    ∷ (codes "punctuate", text (codes "true"))
    ∷ (codes "profanity_filter", text (codes "true"))
    ∷ (codes "smart_format", text (codes "true"))
    ∷ (codes "diarize", flag c.diarize)
    ∷ map (λ k. (codes "keyterm", text k)) (cap_keyterms c.keyterms max_keyterms)

-- The control messages of Idle and Finish.
pub data Control : Type 0 where
  keep_alive : Control
  close_stream : Control

-- A speaker index is what Deepgram documents, a number from 0.
pub record SpokenWord (F : Type 0) : Type 0 where
  pub word : Text
  pub punctuated_word : Text
  pub start : F
  pub end : F
  pub speaker : ℕ

pub record Alternative (F : Type 0) : Type 0 where
  pub transcript : Text
  pub words : List (SpokenWord F)

pub record ResultsMessage (F : Type 0) : Type 0 where
  pub is_final : Bool
  pub start : F
  pub duration : F
  pub alternatives : List (Alternative F)

pub data Message (F : Type 0) : Type 0 where
  results : ResultsMessage F → Message F
  other : Message F

-- The variables of the grouping loop: what it returns, the run in progress, and the speaker.
pub record Progress (F : Type 0) : Type 0 where
  pub ts : List Transcript
  pub run : List (SpokenWord F)
  pub speaker : ℕ

-- punctuated_word, or word without one
abbrev pub shown : {F : Type 0} → SpokenWord F → Text
shown w = if is_empty w.punctuated_word then w.word else w.punctuated_word

module _ (fl : Float64) where
  open fl use {F, sub}

  abbrev pub to_word : SpokenWord F → Word
  to_word w = record {
    text = shown w;
    start = seconds_to_duration fl w.start;
    end = seconds_to_duration fl w.end;
  }

  -- The transcript of a run that begins with `first`.
  unfoldable pub of_run : SpokenWord F → List (SpokenWord F) → Transcript
  of_run first rest = record {
    words = map to_word (first ∷ rest);
    speaker = first.speaker + 1;
    start = seconds_to_duration fl first.start;
    duration = seconds_to_duration fl (sub (last_or first rest).end first.start);
    received_at = none;
    captured_at = none;
    sent_at = none;
  }

  unfoldable pub flush_run : List Transcript → List (SpokenWord F) → List Transcript
  flush_run ts [] = ts
  flush_run ts (first ∷ rest) = ts ++ of_run first rest ∷ []

  -- A round of the loop over the words, at index i.
  unfoldable pub add_word : Progress F → ℕ → SpokenWord F → Progress F
  add_word g i w =
      if ltb 0 i && not (w.speaker == g.speaker)
      then record { ts = flush_run g.ts g.run; run = w ∷ []; speaker = w.speaker }
      else record { ts = g.ts; run = g.run ++ w ∷ []; speaker = w.speaker }

  unfoldable pub group : Progress F → ℕ → List (SpokenWord F) → List Transcript
  group g i [] = flush_run g.ts g.run
  group g i (w ∷ ws) = group (add_word g i w) (suc i) ws

  unfoldable pub group_words : List (SpokenWord F) → List Transcript
  group_words ws = group (record { ts = []; run = []; speaker = 0 }) 0 ws

  unfoldable pub whole : ResultsMessage F → Text → Transcript
  whole msg spoken = record {
    words = untimed spoken;
    speaker = 0;
    start = seconds_to_duration fl msg.start;
    duration = seconds_to_duration fl msg.duration;
    received_at = none;
    captured_at = none;
    sent_at = none;
  }

  unfoldable pub decode_alternative : ResultsMessage F → Alternative F → List Transcript × Bool
  decode_alternative msg alt = elim alt.words [
    | w ∷ ws ↦ (group_words (w ∷ ws), msg.is_final)
    | [] ↦
        if is_empty alt.transcript
        then ([], false)
        else (whole msg alt.transcript ∷ [], msg.is_final)
  ]

  unfoldable pub decode_transcript : Message F → List Transcript × Bool
  decode_transcript other = ([], false)
  decode_transcript (results msg) = elim msg.alternatives [
    | [] ↦ ([], false)
    | alt ∷ alts ↦ decode_alternative msg alt
  ]

  -- Decode: the segments to publish. There is never a music edge or an error.
  unfoldable pub decode : Option (Message F) → List Transcript
  decode none = []
  decode (some m) = let r = decode_transcript m in if r.1 then r.0 else []
