-- ===== src/Stt/SourceTime.antt =====
-- internal/stt/session.go: sourceTime, from a connection's media clock to the source's clock.
pub mod Mapping
use pi_live_captions.Base.{
  List, [], ◌∷◌, Bool, true, false, Option, none, some, ℤ, pos, ◌-ℤ◌, max_ℤ, ltb_ℤ, leb_ℤ, eqb_ℤ,
  map, last_or, if◌then◌else◌,
}
use pi_live_captions.Audio.Float.{Float64}
use pi_live_captions.Audio.Format.{Duration}
use pi_live_captions.Stt.Anchor.{AnchorIndex, source_at}
use pi_live_captions.Stt.Transcript.{Word, Transcript, end_of, is_untimed}

-- Zero is the word's "timing unavailable".
abbrev pub unmeasured : Word → Word
unmeasured w = record w { start = pos 0; end = pos 0 }

-- The two ends on the source's clock, if both are known and in order.
unfoldable pub source_span : Option Duration → Option Duration → Option (Duration × Duration)
source_span none end = none
source_span (some s) none = none
source_span (some s) (some e) = if ltb_ℤ e s then none else some (s, e)

-- A word after the loop's round for it, and whether it is measured.
unfoldable pub source_word : Word → Option (Duration × Duration) → Word × Bool
source_word w none = (unmeasured w, false)
source_word w (some (s, e)) = (record w { start = s; end = e }, true)

-- The transcript's bounds from the first and the last measured word.
unfoldable pub measured : List (Word × Bool) → List Word
measured [] = []
measured ((w, m) ∷ ws) = if m then w ∷ measured ws else measured ws

unfoldable pub with_bounds : Transcript → List Word → List Word → Transcript
with_bounds t words [] = record t { words = words; start = pos 0; duration = pos 0 }
with_bounds t words (w ∷ ws) = record t {
  words = words;
  start = w.start;
  duration = max_ℤ ((last_or w ws).end -ℤ w.start) (pos 0);
}

unfoldable pub source_untimed : Transcript → Option (Duration × Duration) → Transcript
source_untimed t none = record t { start = pos 0; duration = pos 0 }
source_untimed t (some (s, e)) = record t { start = s; duration = e -ℤ s }

module _ (fl : Float64) (idx : AnchorIndex) where
  unfoldable pub source_round : Word → Word × Bool
  source_round w =
      if eqb_ℤ w.end (pos 0)
      then (w, false)
      else source_word w (source_span (source_at fl idx w.start) (source_at fl idx w.end))

  unfoldable pub source_time : Transcript → Transcript
  source_time t =
      let rounds = map source_round t.words in
      if is_untimed t.words
      then source_untimed t (source_span (source_at fl idx t.start) (source_at fl idx (end_of t)))
      else with_bounds t (map (λ r. r.0) rounds) (measured rounds)
