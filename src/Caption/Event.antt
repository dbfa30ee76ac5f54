-- ===== src/Caption/Event.antt =====
-- internal/caption/hub.go: what a subscriber receives, and what a closed line is.
use pi_live_captions.Base.{
  ℕ, List, [], ◌∷◌, ◌++◌, Bool, false, ◌||◌, ℤ, pos, ◌-ℤ◌, max_ℤ, quot_ℤ, Text, last_or, map, ◌==◌,
}
use pi_live_captions.Audio.Format.{Duration, Time}
use pi_live_captions.Stt.Transcript.{Word, Transcript}

pub data Kind : Type 0 where
  caption status music clear : Kind

-- A word on the wire, its times relative to its segment in milliseconds.
pub record WireWord : Type 0 where
  pub text : Text
  pub offset_ms : ℤ
  pub dur_ms : ℤ

pub record Event : Type 0 where
  pub seq : ℕ
  pub kind : Kind
  pub words : List WireWord
  pub breaks : Bool
  pub speaker : ℕ
  pub at : Time
  pub state : Text
  pub snapshot : Bool

pub record Line : Type 0 where
  pub text : Text
  pub offset_ms : ℤ
  pub at : Time
  pub speaker : ℕ
  pub end_ms : ℤ
  pub end_ok : Bool

-- Duration.Milliseconds
abbrev pub milliseconds : Duration → ℤ
milliseconds d = quot_ℤ d 1_000_000

unfoldable pub wire_word : Transcript → Word → WireWord
wire_word t w = record {
  text = w.text;
  offset_ms = milliseconds (max_ℤ (w.start -ℤ t.start) (pos 0));
  dur_ms = milliseconds (max_ℤ (w.end -ℤ w.start) (pos 0));
}

unfoldable pub wire_words : Transcript → List WireWord
wire_words t = map (wire_word t) t.words

-- The last byte of the text is one of these exactly if its last code point is.
unfoldable pub ends_sentence : Text → Bool
ends_sentence [] = false
ends_sentence (c ∷ cs) = let last = last_or c cs in last == b'.' || last == b'?' || last == b'!'

-- joinText
abbrev pub join_text : Text → Text → Text
join_text [] b = b
join_text (a ∷ as') [] = a ∷ as'
join_text (a ∷ as') (b ∷ bs) = (a ∷ as') ++ b' ' ∷ b ∷ bs
