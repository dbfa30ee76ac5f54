-- ===== src/Stt/Connection/Texts.antt =====
-- What the read loop publishes of a message.
use pi_live_captions.Base.{
  List, [], ◌∷◌, ◌++◌, Bool, true, false, Option, none, some, ◌≡◌, refl, ap, ◌∙◌, ◌&&◌,
  if◌then◌else◌, Text, option_cases,
}
use pi_live_captions.Audio.Float.{Float64}
use pi_live_captions.Audio.Format.{Duration, Time}
use pi_live_captions.Stt.Anchor.{AnchorIndex, at, source_at}
use pi_live_captions.Stt.Transcript.{Word, Transcript, end_of, word_texts}
use pi_live_captions.Stt.SourceTime.{source_time}
use pi_live_captions.Stt.SourceTime.Mapping.{AreMapped, source_time_lem}
use pi_live_captions.Stt.Connection.{
  MusicEdge, Handed, music, observed, published, stamped, hand_music, normalize, hand_segments,
  read_message,
}

abbrev pub published_texts : List Handed → List (List Text)
published_texts [] = []
published_texts (music a d ∷ hs) = published_texts hs
published_texts (observed t ∷ hs) = published_texts hs
published_texts (published t ∷ hs) = word_texts t.words ∷ published_texts hs

-- What OnTranscript was called with.
abbrev pub observed_texts : List Handed → List (List Text)
observed_texts [] = []
observed_texts (music a d ∷ hs) = observed_texts hs
observed_texts (observed t ∷ hs) = word_texts t.words ∷ observed_texts hs
observed_texts (published t ∷ hs) = observed_texts hs

-- The segments up to the first that `out` does not take, without it and with it.
abbrev pub sent : List (Transcript × Bool) → List (List Text)
sent [] = []
sent ((t, true) ∷ ts) = word_texts t.words ∷ sent ts
sent ((t, false) ∷ ts) = []

abbrev pub offered : List (Transcript × Bool) → List (List Text)
offered [] = []
offered ((t, true) ∷ ts) = word_texts t.words ∷ offered ts
offered ((t, false) ∷ ts) = word_texts t.words ∷ []

abbrev pub all_taken : List (Transcript × Bool) → Bool
all_taken [] = true
all_taken ((t, taken) ∷ ts) = taken && all_taken ts

module _ (fl : Float64) (idx : AnchorIndex) where
  mapped_texts : (ws ws' : List Word) → AreMapped fl idx ws ws' → word_texts ws' ≡ word_texts ws
  mapped_texts [] [] m = refl
  mapped_texts [] (w' ∷ ws') m = elim m [ ]
  mapped_texts (w ∷ ws) [] m = elim m [ ]
  mapped_texts (w ∷ ws) (w' ∷ ws') (m, ms) = rw m.text (ap (◌∷◌ w.text) (mapped_texts ws ws' ms))

  stamped_words : (t : Transcript) (o : Option (Time × Time)) → (stamped t o).words ≡ t.words
  stamped_words t none = refl
  stamped_words t (some (c, s)) = refl

  normalize_texts :
      (now : Time) (t : Transcript) → word_texts (normalize fl idx now t).words ≡ word_texts t.words
  unfolding normalize
  normalize_texts now t =
      let o = at fl idx (end_of (record t { received_at = now })) in
      let t' = stamped (record t { received_at = now }) o in
      mapped_texts t'.words (source_time fl idx t').words (source_time_lem fl idx t').0
      ∙ ap word_texts (stamped_words (record t { received_at = now }) o)

  -- What holds of nothing and of a call of OnMusic.
  music_lem :
      (P : List Handed → Type 0) (h : Bool) (e : Option MusicEdge)
      → P []
      → ((active : Bool) (at : Duration) → P (music active at ∷ []))
      → P (hand_music fl idx h e)
  unfolding hand_music
  music_lem P h none n m = n
  music_lem P false (some e) n m = n
  music_lem P true (some e) n m =
      option_cases P (source_at fl idx e.at) (λ c. n) (λ a c. m e.active a)

  -- What is handed on of the segments.
  abbrev pub Hands : Bool → List (Transcript × Bool) → List Handed × Bool → Type 0
  Hands on_transcript ts r =
      (published_texts r.0 ≡ sent ts)
      × (observed_texts r.0 ≡ (if on_transcript then offered ts else []))
      × (r.1 ≡ all_taken ts)

  segments-Hands :
      (h : Bool) (now : Time) (ts : List (Transcript × Bool))
      → Hands h ts (hand_segments fl idx h now ts)
  unfolding hand_segments
  segments-Hands true now [] = (refl, refl, refl)
  segments-Hands false now [] = (refl, refl, refl)
  segments-Hands true now ((t, true) ∷ ts) =
      let (p, o, g) = segments-Hands true now ts in
      let w = normalize_texts now t in ((λ i. w i ∷ p i), (λ i. w i ∷ o i), g)
  segments-Hands true now ((t, false) ∷ ts) = (refl, ap (λ w. w ∷ []) (normalize_texts now t), refl)
  segments-Hands false now ((t, true) ∷ ts) =
      let (p, o, g) = segments-Hands false now ts in
      let w = normalize_texts now t in ((λ i. w i ∷ p i), o, g)
  segments-Hands false now ((t, false) ∷ ts) = (refl, refl, refl)

  -- Of every message, the segments that the recognizer decoded are published in their order, each
  -- once and with all its words, up to the first that is not taken before the context is done;
  -- OnTranscript, where it is set, gets the same and that one too; and the loop goes on if and only
  -- if all are taken. This holds whatever the index knows of their times.
  pub read_message-Hands :
      (on_music on_transcript : Bool) (now : Time) (ts : List (Transcript × Bool))
      (edge : Option MusicEdge)
      → Hands on_transcript ts (read_message fl idx on_music on_transcript now ts edge)
  unfolding read_message
  read_message-Hands m h now ts e =
      music_lem
        (λ hs.
          Hands h ts (hs ++ (hand_segments fl idx h now ts).0, (hand_segments fl idx h now ts).1))
        m e (segments-Hands h now ts) (λ a d. segments-Hands h now ts)
