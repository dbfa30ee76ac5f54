-- ===== src/Stt/Speechmatics/Transcripts.antt =====
-- internal/stt/speechmatics/speechmatics.go: the segments of an AddTranscript.
pub mod Punctuation
pub mod Round
pub mod Runs
use pi_live_captions.Base.{
  ℕ, ◌-◌, List, [], ◌∷◌, ◌++◌, Bool, true, false, not, ◌&&◌, ◌||◌, Option, none, some, pos, ◌-ℤ◌,
  Text, codes, text_eq, is_empty, length, ◌==◌, if◌then◌else◌,
}
use pi_live_captions.Audio.Float.{Float64}
use pi_live_captions.Audio.Format.{Duration}
use pi_live_captions.Stt.Engine.{take, seconds_to_duration}
use pi_live_captions.Stt.Transcript.{Word, Transcript, untimed}
use pi_live_captions.Stt.Speechmatics.{Alternative, Item, ServerMessage, contains}
use pi_live_captions.Stt.Speechmatics.Speaker.{parse_speaker}

abbrev pub is_terminal_punctuation : Text → Bool
is_terminal_punctuation s = text_eq s (codes ".") || text_eq s (codes "?") || text_eq s (codes "!")

abbrev pub is_punctuation_collision : Text → Text → Bool
is_punctuation_collision existing incoming =
    (text_eq existing (codes ",") || is_terminal_punctuation existing)
    && (text_eq incoming (codes ",") || is_terminal_punctuation incoming)

-- The word's text and the suffix.
unfoldable pub append_punctuation : Text → Text → Bool → Text → Text × Text
append_punctuation word suffix removed incoming =
    if removed && is_punctuation_collision suffix incoming
    then (if text_eq suffix (codes ",") && is_terminal_punctuation incoming
        then (take (length word - length suffix) word ++ incoming, incoming)
        else (word, suffix))
    else (word ++ incoming, suffix ++ incoming)

-- words[len(words)-1], which is there while a run is open.
abbrev pub punctuate : List Word → Text → Bool → Text → List Word × Text
punctuate [] suffix removed incoming = ([], suffix)
punctuate (w ∷ []) suffix removed incoming =
    let p = append_punctuation w.text suffix removed incoming in (record w { text = p.0 } ∷ [], p.1)
punctuate (w ∷ w' ∷ ws) suffix removed incoming =
    let p = punctuate (w' ∷ ws) suffix removed incoming in (w ∷ p.0, p.1)

-- The variables of the loop of transcripts.
pub record Builder (F : Type 0) : Type 0 where
  pub ts : List Transcript
  pub words : List Word
  pub speaker : ℕ
  pub start : F
  pub end : F
  pub suffix : Text
  pub removed : Bool
  pub opened : Bool

abbrev pub is_removed : Alternative → Bool
is_removed a = contains a.tags (codes "profanity") || contains a.tags (codes "disfluency")

module _ (fl : Float64) where
  open fl use {F, of_int, sub}

  -- The transcript of the run in progress.
  abbrev pub segment_of : Builder F → Transcript
  segment_of b = record {
    words = b.words;
    speaker = b.speaker;
    start = seconds_to_duration fl b.start;
    duration = seconds_to_duration fl (sub b.end b.start);
    received_at = none;
    captured_at = none;
    sent_at = none;
  }

  unfoldable pub flush : Builder F → Builder F
  flush b = record b {
    ts = if b.opened then b.ts ++ segment_of b ∷ [] else b.ts;
    words = if b.opened then [] else b.words;
    opened = false;
  }

  unfoldable pub add_punctuation : Builder F → Item F → Alternative → Builder F
  add_punctuation b r alt =
      let p = punctuate b.words b.suffix b.removed alt.content in
      if b.opened
      then record b { words = p.0; suffix = p.1; removed = false; end = r.end_time }
      else b

  abbrev pub to_word : Item F → Alternative → Word
  to_word r alt = record {
    text = alt.content;
    start = seconds_to_duration fl r.start_time;
    end = seconds_to_duration fl r.end_time;
  }

  -- A run for the word: the open one, or a new one if the speaker is another.
  unfoldable pub with_run : Builder F → Item F → ℕ → Builder F
  with_run b r spk =
      if not b.opened || not (spk == b.speaker)
      then record (flush b) { speaker = spk; start = r.start_time; opened = true }
      else b

  unfoldable pub add_word : Builder F → Item F → Alternative → Builder F
  add_word b r alt =
      let b' = with_run b r (parse_speaker alt.speaker) in
      record b' {
        suffix = [];
        removed = false;
        words = b'.words ++ to_word r alt ∷ [];
        end = r.end_time;
      }

  unfoldable pub add_alternative : Builder F → Item F → Alternative → Builder F
  add_alternative b r alt =
      if text_eq r.kind (codes "punctuation")
      then add_punctuation b r alt
      else if not (text_eq r.kind (codes "word"))
      then b
      else if is_removed alt
      then record b { removed = if b.opened then true else b.removed }
      else add_word b r alt

  -- A round of the loop.
  unfoldable pub add_item : Builder F → Item F → Builder F
  add_item b r = elim r.alternatives [ [] ↦ b | alt ∷ alts ↦ add_alternative b r alt ]

  unfoldable pub add_items : Builder F → List (Item F) → Builder F
  add_items b [] = b
  add_items b (r ∷ rs) = add_items (add_item b r) rs

  unfoldable pub new_builder : Builder F
  new_builder = record {
    ts = [];
    words = [];
    speaker = 0;
    start = of_int (pos 0);
    end = of_int (pos 0);
    suffix = [];
    removed = false;
    opened = false;
  }

  -- The text of a message without results.
  unfoldable pub flat : ServerMessage F → List Transcript
  flat m =
      let spoken = if is_empty m.transcript then m.meta_transcript else m.transcript in
      let start = seconds_to_duration fl m.meta_start in
      if is_empty spoken
      then []
      else record {
        words = untimed spoken;
        speaker = 0;
        start = start;
        duration = seconds_to_duration fl m.meta_end -ℤ start;
        received_at = none;
        captured_at = none;
        sent_at = none;
      }
        ∷ []

  unfoldable pub of_results : ServerMessage F → List (Item F) → List Transcript
  of_results m [] = flat m
  of_results m (r ∷ rs) = (flush (add_items new_builder (r ∷ rs))).ts

  unfoldable pub transcripts : ServerMessage F → List Transcript
  transcripts m = of_results m m.results
