-- ===== src/Stt/Mock/Phrases.antt =====
-- internal/stt/mock/phrases.go: the canned conversation and how a phrase is cut into segments.
use pi_live_captions.Base.{
  ℕ, zero, suc, ◌+◌, ◌-◌, ◌/◌, ◌%◌, List, [], ◌∷◌, ◌++◌, ◌&&◌, Option, none, some, Text, codes,
  is_space, is_empty, length, ltb, leb, ◌==◌, if◌then◌else◌,
}
use pi_live_captions.Stt.Transcript.{join_words}

pub record Phrase : Type 0 where
  pub speaker : ℕ
  pub text : Text

abbrev says : ℕ → Text → Phrase
says speaker text = record { speaker = speaker; text = text }

unfoldable pub phrases : List Phrase
phrases =
    says 1 (codes "Good morning everyone, and thank you all for coming out today.")
    ∷ says 1 (codes "We're going to start with a few announcements before the main session.")
    ∷ says 1 (codes "First, I want to thank the volunteers who set up the room.")
    ∷ says 1 (codes "There's coffee and tea available in the lobby throughout the morning.")
    ∷ says 2 (codes "Sorry, can you hear me okay from the back row?")
    ∷ says 1 (codes "Yes, loud and clear — go ahead.")
    ∷ says 2 (codes "Is the schedule posted anywhere, or just announced here?")
    ∷ says 1 (codes "It's posted at the entrance, right next to registration.")
    ∷ says 1 (codes "Let's give a warm welcome to our guest this morning, Dr. Elena Rossi.")
    ∷ says 3 (codes "Thank you so much for having me, it's wonderful to be in Portland.")
    ∷ says 3 (codes "I've been working on this project for about three years now.")
    ∷ says 3 (codes "I think you'll find the results genuinely surprising.")
    ∷ says 4 (codes "Does that apply to smaller teams too, or mainly larger ones?")
    ∷ says 3 (codes "Great question — it scales down surprisingly well, actually.")
    ∷ says 1 (codes "We have about fifteen minutes left for questions after this.")
    ∷ says 1 (codes "If anyone needs to step out, the exits are on both sides.")
    ∷ []

-- strings.Split(s, ", "), with what was read of the current part.
unfoldable pub split_comma : Text → Text → List Text
split_comma part [] = part ∷ []
split_comma part (c ∷ []) = (part ++ c ∷ []) ∷ []
split_comma part (c ∷ d ∷ cs) =
    let cut = split_comma [] cs in
    let on = split_comma (part ++ c ∷ []) (d ∷ cs) in
    if c == b',' && d == b' ' then part ∷ cut else on

-- strings.Fields, with what was read of the current word.
unfoldable pub fields : Text → Text → List Text
unfolding is_space
fields word [] = if is_empty word then [] else word ∷ []
fields word (c ∷ cs) =
    let cut = fields [] cs in
    let on = fields (word ++ c ∷ []) cs in
    if is_space c then (if is_empty word then cut else word ∷ cut) else on

-- Every part but the last gets its comma back.
abbrev pub with_commas : List Text → List Text
with_commas [] = []
with_commas (p ∷ []) = p ∷ []
with_commas (p ∷ q ∷ ps) = (p ++ b',' ∷ []) ∷ with_commas (q ∷ ps)

abbrev pub take_words : ℕ → List Text → List Text
take_words zero ws = []
take_words (suc n) [] = []
take_words (suc n) (w ∷ ws) = w ∷ take_words n ws

abbrev pub drop_words : ℕ → List Text → List Text
drop_words zero ws = ws
drop_words (suc n) [] = []
drop_words (suc n) (w ∷ ws) = drop_words n ws

-- The loop: n runs of `base` words, the first `extra` of them one longer.
unfoldable pub runs_of : ℕ → ℕ → ℕ → List Text → List Text
runs_of zero base extra ws = []
runs_of (suc n) base extra ws =
    let size = if ltb 0 extra then base + 1 else base in
    join_words (take_words size ws) ∷ runs_of n base (extra - 1) (drop_words size ws)

abbrev pub run_count : ℕ → ℕ
run_count words = let n = if leb 9 words then 3 else 2 in if ltb words n then words else n

-- splitSegments; none is the division by zero for a phrase with no words.
unfoldable pub split_segments : Text → Option (List Text)
split_segments phrase =
    let parts = split_comma [] phrase in
    if ltb 1 (length parts)
    then some (with_commas parts)
    else let words = fields [] phrase in
      let n = run_count (length words) in
      if n == 0 then none else some (runs_of n (length words / n) (length words % n) words)
