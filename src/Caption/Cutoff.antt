-- ===== src/Caption/Cutoff.antt =====
-- internal/caption/hub.go: afterMusic, and the trimming of what is held through a song.
pub mod Twice
use pi_live_captions.Base.{
  ℕ, List, [], ◌∷◌, Bool, true, false, Option, none, some, ℤ, pos, ◌-ℤ◌, max_ℤ, ltb_ℤ, leb_ℤ, eqb_ℤ,
  last_or, if◌then◌else◌,
}
use pi_live_captions.Audio.Format.{Duration}
use pi_live_captions.Stt.Transcript.{Word, Transcript, is_untimed}

-- The words that start at `at` or later.
abbrev pub words_from : Duration → List Word → List Word
words_from at [] = []
words_from at (w ∷ ws) = if leb_ℤ at w.start then w ∷ words_from at ws else words_from at ws

-- A segment left with these words; its start and duration are those of the words.
unfoldable pub with_words : Transcript → List Word → Option Transcript
with_words t [] = none
with_words t (w ∷ ws) = some (record t {
  words = w ∷ ws;
  start = w.start;
  duration = max_ℤ ((last_or w ws).end -ℤ w.start) (pos 0);
})

unfoldable pub after_music : Transcript → Duration → Option Transcript
after_music t at =
    if is_untimed t.words
    then if leb_ℤ at t.start then some t else none
    else with_words t (words_from at t.words)

-- The loop of trimHeldLocked, and that of releaseMusic.
unfoldable pub keep_after : List Transcript → Duration → List Transcript
keep_after [] at = []
keep_after (t ∷ ts) at =
    let rest = keep_after ts at in elim (after_music t at) [ none ↦ rest | some t' ↦ t' ∷ rest ]
