-- ===== src/Caption/Cutoff/Twice.antt =====
-- Cutting a segment early and then again cuts it as the later cut alone.
use pi_live_captions.Base.{
  List, [], ◌∷◌, true, false, Option, none, some, ◌≡◌, refl, ap, ◌∙◌, pos, ◌≤ℤ◌, leb_ℤ, max_ℤ,
  last_or, ◌-ℤ◌, if◌then◌else◌, arith, Bool-cases, inl, inr,
}
use pi_live_captions.Audio.Format.{Duration}
use pi_live_captions.Stt.Transcript.{Word, Transcript, is_untimed}
use pi_live_captions.Caption.Cutoff.{words_from, with_words, after_music, keep_after}

words_from_twice :
    (a b : Duration) (ws : List Word) → a ≤ℤ b → words_from b (words_from a ws) ≡ words_from b ws
words_from_twice a b [] le = refl
words_from_twice a b (w ∷ ws) le = ground (arith, words_from_twice a b ws)

-- A second cut of what a first one left.
abbrev pub cut_again : Option Transcript → Duration → Option Transcript
cut_again none b = none
cut_again (some t) b = after_music t b

-- A cut sets words, start and duration anew, so what they were before does not matter.
with_words-same :
    (t : Transcript) (v : List Word) (s d : Duration) (ws : List Word)
    → with_words (record t { words = v; start = s; duration = d }) ws ≡ with_words t ws
unfolding with_words
with_words-same t v s d [] = refl
with_words-same t v s d (w ∷ ws) = refl

with_words-with_words :
    (t : Transcript) (w : Word) (ws : List Word) (b : Duration)
    → cut_again (with_words t (w ∷ ws)) b ≡ with_words t (words_from b (w ∷ ws))
unfolding after_music with_words
with_words-with_words t w [] b = ground arith
with_words-with_words t w (x ∷ ws) b =
    with_words-same t (w ∷ x ∷ ws) w.start (max_ℤ ((last_or x ws).end -ℤ w.start) (pos 0))
      (words_from b (w ∷ x ∷ ws))

timed_twice :
    (t : Transcript) (b : Duration) (ws : List Word)
    → cut_again (with_words t ws) b ≡ with_words t (words_from b ws)
unfolding with_words
timed_twice t b [] = refl
timed_twice t b (w ∷ ws) = with_words-with_words t w ws b

after_music-untimed :
    (t : Transcript) (at : Duration)
    → is_untimed t.words ≡ true
    → after_music t at ≡ (if leb_ℤ at t.start then some t else none)
unfolding after_music
after_music-untimed t at e = simp e

after_music-timed :
    (t : Transcript) (at : Duration)
    → is_untimed t.words ≡ false
    → after_music t at ≡ with_words t (words_from at t.words)
unfolding after_music
after_music-timed t at e = simp e

untimed_twice :
    (t : Transcript) (a b : Duration)
    → a ≤ℤ b
    → is_untimed t.words ≡ true
    → cut_again (if leb_ℤ a t.start then some t else none) b
      ≡ (if leb_ℤ b t.start then some t else none)
untimed_twice t a b le e = elim (Bool-cases (leb_ℤ a t.start)) [
  | inl keep ↦ rw keep (after_music-untimed t b e)
  | inr drop ↦ rw drop (ground arith)
]

-- A segment cut at `a` and then at a later `b` is the segment cut at `b`.
pub after_music_twice :
    (t : Transcript) (a b : Duration) → a ≤ℤ b → cut_again (after_music t a) b ≡ after_music t b
after_music_twice t a b le = elim (Bool-cases (is_untimed t.words)) [
  | inl e ↦ rw (after_music-untimed t a e, after_music-untimed t b e) (untimed_twice t a b le e)
  | inr e ↦
      rw (after_music-timed t a e, after_music-timed t b e)
        (timed_twice t b (words_from a t.words)
          ∙ ap (with_words t) (words_from_twice a b t.words le))
]

keep_after-cons :
    (t : Transcript) (ts rest : List Transcript) (b : Duration) (o : Option Transcript)
    → keep_after rest b ≡ keep_after ts b
    → cut_again o b ≡ after_music t b
    → keep_after (elim o [ none ↦ rest | some t' ↦ t' ∷ rest ]) b ≡ keep_after (t ∷ ts) b
unfolding keep_after
keep_after-cons t ts rest b none ih e = ih ∙ ground (arith, e)
keep_after-cons t ts rest b (some t') ih e = ground (arith, ih, e)

-- So it is for all the segments that are held.
pub keep_after_twice :
    (ts : List Transcript) (a b : Duration)
    → a ≤ℤ b
    → keep_after (keep_after ts a) b ≡ keep_after ts b
unfolding keep_after
keep_after_twice [] a b le = refl
keep_after_twice (t ∷ ts) a b le =
    keep_after-cons t ts (keep_after ts a) b (after_music t a) (keep_after_twice ts a b le)
      (after_music_twice t a b le)
