-- ===== src/Stt/Mock/Script.antt =====
-- internal/stt/mock/phrases.go: the state machine that paces the phrases. none is a panic of Go: an
-- index out of range or a division by zero.
use pi_live_captions.Base.{
  ℕ, ◌+◌, ◌*◌, ◌/◌, ◌%◌, List, [], ◌∷◌, Bool, true, false, ◌||◌, Option, none, some, pos, ◌+ℤ◌,
  ◌-ℤ◌, ltb_ℤ, leb_ℤ, Text, byte_len, length, get_elem?, leb, if◌then◌else◌, ◌>>=◌, pos_part,
}
use pi_live_captions.Audio.Format.{Duration}
use pi_live_captions.Stt.Transcript.{Word, Transcript, untimed}
use pi_live_captions.Stt.Mock.Phrases.{phrases, split_segments, fields}

abbrev pub segment_audio : Duration
segment_audio = pos 400_000_000

abbrev pub gap_audio : Duration
gap_audio = pos 2_000_000_000

-- `segments` is none for nil.
pub record PhraseState : Type 0 where
  pub phrase_idx : ℕ
  pub speaker : ℕ
  pub segments : Option (List Text)
  pub seg_idx : ℕ
  pub seg_start : Duration
  pub next_segment : Duration
  pub in_gap : Bool
  pub gap_until : Duration

unfoldable pub new_phrase_state : PhraseState
new_phrase_state = record {
  phrase_idx = 0;
  speaker = 0;
  segments = none;
  seg_idx = 0;
  seg_start = pos 0;
  next_segment = pos 0;
  in_gap = false;
  gap_until = pos 0;
}

-- The speaker and the segments of the phrase whose turn it is.
unfoldable pub script : ℕ → Option (ℕ × List Text)
unfolding phrases split_segments
script i = do
  ph ← get_elem? phrases (i % length phrases)
  segments ← split_segments ph.text
  some (ph.speaker, segments)

abbrev pub restarted : PhraseState → Duration → ℕ × List Text → PhraseState
restarted p now (speaker, segments) = record p {
  segments = some segments;
  speaker = speaker;
  seg_idx = 0;
  seg_start = now;
  next_segment = now +ℤ segment_audio;
  in_gap = false;
}

unfoldable pub restart : PhraseState → Duration → Option PhraseState
unfolding script
restart p now = do turn ← script p.phrase_idx; some (restarted p now turn)

abbrev pub total_bytes : List Text → ℕ
unfolding byte_len
total_bytes [] = 0
total_bytes (w ∷ ws) = byte_len w + total_bytes ws

-- The loop of timeWords, of a positive duration over `chars` bytes.
abbrev pub time_from : Duration → ℕ → ℕ → List Text → List Word
unfolding ◌+ℤ◌ byte_len
time_from at dur chars [] = []
time_from at dur chars (w ∷ ws) =
    let end = at +ℤ pos (dur * byte_len w / chars) in
    record { text = w; start = at; end = end } ∷ time_from end dur chars ws

unfoldable pub time_words : Text → Duration → Duration → List Word
unfolding fields
time_words seg start dur =
    let ws = fields [] seg in
    if leb (length ws) 1 || leb_ℤ dur (pos 0)
    then untimed seg
    else time_from start (pos_part dur) (total_bytes ws) ws

-- The segment given to emit.
unfoldable pub due_segment : PhraseState → Text → Duration → Transcript
unfolding time_words
due_segment p seg now = record {
  words = time_words seg p.seg_start (now -ℤ p.seg_start);
  speaker = p.speaker;
  start = p.seg_start;
  duration = now -ℤ p.seg_start;
  received_at = none;
  captured_at = none;
  sent_at = none;
}

-- After a segment that emit accepted.
unfoldable pub advanced : PhraseState → Duration → ℕ → PhraseState
advanced p now count =
    if leb count (p.seg_idx + 1)
    then record p {
      seg_idx = p.seg_idx + 1;
      phrase_idx = p.phrase_idx + 1;
      in_gap = true;
      gap_until = now +ℤ gap_audio;
    }
    else record p { seg_idx = p.seg_idx + 1; seg_start = now; next_segment = now +ℤ segment_audio }

-- The state, what was given to emit, and what step answers.
abbrev pub Step : Type 0
Step = PhraseState × Option Transcript × Bool

-- emit, and what follows it.
unfoldable pub emitted : PhraseState → Duration → Bool → List Text → Text → Step
unfolding due_segment advanced
emitted p now accepts segments seg =
    let t = due_segment p seg now in
    if accepts then (advanced p now (length segments), some t, true) else (p, some t, false)

unfoldable pub emit_due : PhraseState → Duration → Bool → Option Step
unfolding emitted
emit_due p now accepts = if ltb_ℤ now p.next_segment then some (p, none, true) else do
  segments ← p.segments
  seg ← get_elem? segments p.seg_idx
  some (emitted p now accepts segments seg)

-- step, where emit answers `accepts`.
unfoldable pub step : PhraseState → Duration → Bool → Option Step
step p now accepts =
    if p.in_gap
    then (if ltb_ℤ now p.gap_until
        then some (p, none, true)
        else (do q ← restart p now; emit_due q now accepts))
    else (elim p.segments [
      | none ↦ (do q ← restart p now; emit_due q now accepts)
      | some segments ↦ emit_due p now accepts
    ])
