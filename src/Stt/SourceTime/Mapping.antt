-- ===== src/Stt/SourceTime/Mapping.antt =====
-- What sourceTime makes of a segment.
use pi_live_captions.Base.{
  List, [], ◌∷◌, ◌++◌, Bool, true, false, Option, none, some, ◌≡◌, refl, sym, subst, ap, ◌∙◌, ◌⊎◌,
  inl, inr, pos, ◌-ℤ◌, -ℤ_parts, ◌≤ℤ◌, max_ℤ, ltb_ℤ, eqb_ℤ, map, last_or, if_cases, if_cases_both,
  leb_ℤ, if◌then◌else◌, arith, Bool-cases, ◌<ℤ◌,
}
use pi_live_captions.Audio.Float.{Float64}
use pi_live_captions.Audio.Format.{Duration}
use pi_live_captions.Stt.Anchor.{AnchorIndex, source_at}
use pi_live_captions.Stt.Transcript.{Word, Transcript, end_of, is_untimed}
use pi_live_captions.Stt.SourceTime.{
  unmeasured, source_span, source_word, measured, with_bounds, source_untimed, source_round,
  source_time,
}

-- The two ends of a span are known on the source's clock, in order, and are `s` and `e`; or the
-- span is not known there.
pub data Spans (a b : Option Duration) : Option (Duration × Duration) → Type 0 where
  known : (s e : Duration) → a ≡ some s → b ≡ some e → s ≤ℤ e → Spans a b (some (s, e))
  no_start : a ≡ none → Spans a b none
  no_end : b ≡ none → Spans a b none
  reversed : (s e : Duration) → a ≡ some s → b ≡ some e → e <ℤ s → Spans a b none

source_span-Spans : (a b : Option Duration) → Spans a b (source_span a b)
unfolding source_span
source_span-Spans none b = Spans.no_start refl
source_span-Spans (some s) none = Spans.no_end refl
source_span-Spans (some s) (some e) = elim (Bool-cases (ltb_ℤ e s)) [
  | inl back ↦ rw back (Spans.reversed s e refl refl (ground arith))
  | inr forth ↦ rw forth (Spans.known s e refl refl (ground arith))
]

Spans_ordered : {a b : Option Duration} (s e : Duration) → Spans a b (some (s, e)) → s ≤ℤ e
Spans_ordered s e (Spans.known _ _ _ _ le) = le

difference_nonneg : (a b : Duration) → a ≤ℤ b → pos 0 ≤ℤ b -ℤ a
difference_nonneg a b le = ground (arith, -ℤ_parts b a)

max_nonneg : (d : Duration) → pos 0 ≤ℤ max_ℤ d (pos 0)
max_nonneg d = ground arith

module _ (fl : Float64) (idx : AnchorIndex) where
  -- The word `w'` is `w` on the source's clock: its text is kept, and its times are mapped, or zero
  -- if they are not known there, or kept if it has no measured end.
  pub record IsMapped (w w' : Word) : Type 0 where
    pub text : w'.text ≡ w.text
    pub times :
        ((w.end ≡ pos 0) × (w' ≡ w))
        ⊎ (Spans (source_at fl idx w.start) (source_at fl idx w.end) (some (w'.start, w'.end)))
        ⊎ ((w' ≡ unmeasured w) × Spans (source_at fl idx w.start) (source_at fl idx w.end) none)

  abbrev pub AreMapped : List Word → List Word → Type 0
  AreMapped [] [] = Unit
  AreMapped [] (w' ∷ ws') = ⊥
  AreMapped (w ∷ ws) [] = ⊥
  AreMapped (w ∷ ws) (w' ∷ ws') = IsMapped w w' × AreMapped ws ws'

  source_word-IsMapped :
      (w : Word) (o : Option (Duration × Duration))
      → Spans (source_at fl idx w.start) (source_at fl idx w.end) o
      → IsMapped w (source_word w o).0
  unfolding source_word
  source_word-IsMapped w none s = record { text = refl; times = inr (inr (refl, s)) }
  source_word-IsMapped w (some (a, b)) s = record { text = refl; times = inr (inl s) }

  source_round-IsMapped : (w : Word) → IsMapped w (source_round fl idx w).0
  unfolding source_round
  source_round-IsMapped w =
      if_cases (λ (r : Word × Bool). IsMapped w r.0) (eqb_ℤ w.end (pos 0))
        (λ e. record { text = refl; times = inl (ground arith, refl) })
        (λ e. source_word-IsMapped w _ (source_span-Spans _ _))

  rounds-AreMapped : (ws : List Word) → AreMapped ws (map (λ r. r.0) (map (source_round fl idx) ws))
  rounds-AreMapped [] = tt
  rounds-AreMapped (w ∷ ws) = (source_round-IsMapped w, rounds-AreMapped ws)

  untimed-AreMapped : (ws : List Word) → is_untimed ws ≡ true → AreMapped ws ws
  untimed-AreMapped [] e = tt
  untimed-AreMapped (w ∷ []) e = (record { text = refl; times = inl (ground arith, refl) }, tt)
  untimed-AreMapped (w ∷ w' ∷ ws) e = ground arith

  -- The spans of the measured words on the source's clock, in order: those with an end, whose two
  -- ends are known there and in order.
  abbrev pub span_in : Option Duration → Option Duration → List (Duration × Duration)
  span_in none b = []
  span_in (some s) none = []
  span_in (some s) (some e) = if leb_ℤ s e then (s, e) ∷ [] else []

  abbrev pub spans_of : List Word → List (Duration × Duration)
  spans_of [] = []
  spans_of (w ∷ ws) =
      (if eqb_ℤ w.end (pos 0)
        then []
        else span_in (source_at fl idx w.start) (source_at fl idx w.end))
      ++ spans_of ws

  abbrev pub last_end : Duration → List (Duration × Duration) → Duration
  last_end e [] = e
  last_end e ((s, e') ∷ ss) = last_end e' ss

  -- From the start of the first span to the end of the last one, or zero without any.
  abbrev pub Covers : List (Duration × Duration) → Transcript → Type 0
  Covers [] t' = (t'.start ≡ pos 0) × (t'.duration ≡ pos 0)
  Covers ((s, e) ∷ ss) t' = (t'.start ≡ s) × (t'.duration ≡ max_ℤ (last_end e ss -ℤ s) (pos 0))

  -- The bounds of a segment on the source's clock: those of one untimed word are mapped as a whole,
  -- or zero; else they are those of the measured words; no segment has a negative duration.
  pub record HasBounds (t t' : Transcript) : Type 0 where
    pub forward : pos 0 ≤ℤ t'.duration
    pub whole :
        is_untimed t.words ≡ true
        → ((e : Duration) × Spans
              (source_at fl idx t.start)
              (source_at fl idx (end_of t))
              (some (t'.start, e))
            × (t'.duration ≡ e -ℤ t'.start))
          ⊎ ((t'.start ≡ pos 0)
              × (t'.duration ≡ pos 0)
              × Spans (source_at fl idx t.start) (source_at fl idx (end_of t)) none)
    pub measured_words : is_untimed t.words ≡ false → Covers (spans_of t.words) t'

  untimed_bounds :
      (t : Transcript) (o : Option (Duration × Duration))
      → is_untimed t.words ≡ true
      → Spans (source_at fl idx t.start) (source_at fl idx (end_of t)) o
      → HasBounds t (source_untimed t o)
  unfolding source_untimed
  untimed_bounds t none u s = record {
    forward = ground arith;
    whole = λ x. inr (refl, refl, s);
    measured_words = λ f. absurd (ground arith);
  }
  untimed_bounds t (some (a, b)) u s = record {
    forward = difference_nonneg a b (Spans_ordered a b s);
    whole = λ x. inl (b, s, refl);
    measured_words = λ f. absurd (ground arith);
  }

  untimed_lem :
      (t : Transcript) (o : Option (Duration × Duration))
      → is_untimed t.words ≡ true
      → Spans (source_at fl idx t.start) (source_at fl idx (end_of t)) o
      → AreMapped t.words (source_untimed t o).words × HasBounds t (source_untimed t o)
  unfolding source_untimed
  untimed_lem t none u s = (untimed-AreMapped t.words u, untimed_bounds t none u s)
  untimed_lem t (some o) u s = (untimed-AreMapped t.words u, untimed_bounds t (some o) u s)

  abbrev ends_of : Word → Duration × Duration
  ends_of w = (w.start, w.end)

  span_round :
      (w : Word) (ws : List (Word × Bool)) (a b : Option Duration)
      → map ends_of (measured (source_word w (source_span a b) ∷ ws))
        ≡ span_in a b ++ map ends_of (measured ws)
  unfolding measured source_word source_span
  span_round w ws none b = refl
  span_round w ws (some s) none = refl
  span_round w ws (some s) (some e) = elim (Bool-cases (ltb_ℤ e s)) [
    | inl h ↦ rw (h, not_le h) refl
    | inr h ↦ rw (h, le h) refl
  ]
    where
      not_le : ltb_ℤ e s ≡ true → leb_ℤ s e ≡ false
      not_le h = ground arith

      le : ltb_ℤ e s ≡ false → leb_ℤ s e ≡ true
      le h = ground arith

  measured-spans_of :
      (ws : List Word) → map ends_of (measured (map (source_round fl idx) ws)) ≡ spans_of ws
  unfolding measured source_round
  measured-spans_of [] = refl
  measured-spans_of (w ∷ ws) =
      if_cases_both
        (λ (r : Word × Bool) (ss : List (Duration × Duration)).
          map ends_of (measured (r ∷ map (source_round fl idx) ws)) ≡ ss ++ spans_of ws)
        (eqb_ℤ w.end (pos 0)) (λ h. measured-spans_of ws)
        (λ h.
          span_round w (map (source_round fl idx) ws) _ _
          ∙ ap (λ ss. span_in (source_at fl idx w.start) (source_at fl idx w.end) ++ ss)
              (measured-spans_of ws))

  last_or-last_end :
      (w : Word) (ms : List Word) → (last_or w ms).end ≡ last_end w.end (map ends_of ms)
  last_or-last_end w [] = refl
  last_or-last_end w (m ∷ ms) = last_or-last_end m ms

  with_bounds-Covers :
      (t : Transcript) (words ms : List Word) → Covers (map ends_of ms) (with_bounds t words ms)
  unfolding with_bounds
  with_bounds-Covers t words [] = (refl, refl)
  with_bounds-Covers t words (w ∷ ms) =
      (refl, ap (λ e. max_ℤ (e -ℤ w.start) (pos 0)) (last_or-last_end w ms))

  with_bounds_forward :
      (t : Transcript) (words ms : List Word) → pos 0 ≤ℤ (with_bounds t words ms).duration
  unfolding with_bounds
  with_bounds_forward t words [] = ground arith
  with_bounds_forward t words (w ∷ ms) = max_nonneg ((last_or w ms).end -ℤ w.start)

  with_bounds_words :
      (t : Transcript) (words ms : List Word) → (with_bounds t words ms).words ≡ words
  unfolding with_bounds
  with_bounds_words t words [] = refl
  with_bounds_words t words (w ∷ ms) = refl

  timed_lem :
      (t : Transcript)
      → is_untimed t.words ≡ false
      → let rounds = map (source_round fl idx) t.words in
        let t' = with_bounds t (map (λ r. r.0) rounds) (measured rounds) in
        AreMapped t.words t'.words × HasBounds t t'
  timed_lem t f =
      let rounds = map (source_round fl idx) t.words in
      let words = map (λ r. r.0) rounds in
      (
        subst (AreMapped t.words) (sym (with_bounds_words t words (measured rounds)))
            (rounds-AreMapped t.words),
        record {
          forward = with_bounds_forward t words (measured rounds);
          whole = λ u. absurd (ground arith);
          measured_words = λ u.
              subst (λ ss. Covers ss (with_bounds t words (measured rounds)))
                (measured-spans_of t.words) (with_bounds-Covers t words (measured rounds));
        },
      )

  pub source_time_lem :
      (t : Transcript)
      → AreMapped t.words (source_time fl idx t).words × HasBounds t (source_time fl idx t)
  unfolding source_time
  source_time_lem t =
      if_cases (λ (t' : Transcript). AreMapped t.words t'.words × HasBounds t t')
        (is_untimed t.words) (λ u. untimed_lem t _ u (source_span-Spans _ _)) (timed_lem t)
