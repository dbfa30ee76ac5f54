-- ===== src/Stt/Transcript.antt =====
-- internal/stt/stt.go: settled segments of speech and their words.
use pi_live_captions.Base.{Bool, false, eqb_ℤ, ℕ, List, [], ◌∷◌, ◌++◌, Text, map, ◌+ℤ◌, pos}
use pi_live_captions.Audio.Format.{Duration, Time}

pub record Word : Type 0 where
  pub text : Text
  pub start : Duration
  pub end : Duration

pub record Transcript : Type 0 where
  pub words : List Word
  pub speaker : ℕ
  pub start : Duration
  pub duration : Duration
  pub received_at : Time
  pub captured_at : Time
  pub sent_at : Time

abbrev pub untimed : Text → List Word
untimed text = record { text = text; start = pos 0; end = pos 0 } ∷ []

abbrev pub word_texts : List Word → List Text
word_texts = map λ w. w.text

-- The loop of Text: the words joined with single spaces.
abbrev pub join_words : List Text → Text
join_words [] = []
join_words (s ∷ []) = s
join_words (s ∷ s' ∷ rest) = s ++ b' ' ∷ join_words (s' ∷ rest)

abbrev pub text_of : Transcript → Text
text_of t = join_words (word_texts t.words)

abbrev pub end_of : Transcript → Duration
end_of t = t.start +ℤ t.duration

-- One word with no measured end.
abbrev pub is_untimed : List Word → Bool
is_untimed [] = false
is_untimed (w ∷ []) = eqb_ℤ w.end (pos 0)
is_untimed (w ∷ w' ∷ ws) = false
