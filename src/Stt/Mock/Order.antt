-- ===== src/Stt/Mock/Order.antt =====
-- The mock engine says its script in order and never panics.
use mathlib.Core.Option.{some-injective}
use pi_live_captions.Base.{
  ℕ, zero, suc, ◌+◌, ◌%◌, ◌<◌, List, [], ◌∷◌, ◌++◌, Bool, true, false, Option, none, some, ◌≡◌,
  refl, sym, subst, ◌∙◌, ℤ, length, get_elem?, ltb, leb, ltb_ℤ, is_space, Text, if◌then◌else◌,
  if_cases, option_cases, ◌>>=◌, All, arith,
}
use pi_live_captions.Audio.Format.{Frame}
use pi_live_captions.Stt.Transcript.{Transcript}
use pi_live_captions.Stt.Mock.Phrases.{
  Phrase, phrases, split_comma, fields, runs_of, split_segments,
}
use pi_live_captions.Stt.Mock.Script.{
  PhraseState, script, time_words, due_segment, advanced, Step, emitted, emit_due,
}
use pi_live_captions.Stt.Mock.Engine.{restamped, heard_with}

-- A phrase has segments.
has_segments : Phrase → Bool
has_segments ph = elim (split_segments ph.text) [ none ↦ false | some s ↦ ltb 0 (length s) ]

unfoldable pub HasTurn : ℕ → Type 0
HasTurn i = (turn : ℕ × List Text) × (script i ≡ some turn) × (0 < length turn.1)

all_have : All (λ ph. has_segments ph ≡ true) phrases
unfolding phrases has_segments split_segments split_comma fields runs_of is_space
all_have = (
  refl,
  (
    refl,
    (
      refl,
      (
        refl,
        (
          refl,
          (
            refl,
            (refl, (refl, (refl, (refl, (refl, (refl, (refl, (refl, (refl, (refl, tt)))))))))),
          ),
        ),
      ),
    ),
  ),
)

turn_lt : (i : ℕ) → i % length phrases < length phrases
unfolding phrases
turn_lt i = omega arith

found :
    (phs : List Phrase) (k : ℕ)
    → k < length phs
    → All (λ ph. has_segments ph ≡ true) phs
    → (ph : Phrase) × (get_elem? phs k ≡ some ph) × (has_segments ph ≡ true)
found [] k h a = absurd (omega arith)
found (ph ∷ phs) zero h (p, a) = (ph, refl, p)
found (ph ∷ phs) (suc k) h (p, a) = found phs k (omega arith) a

cut :
    (ph : Phrase)
    → has_segments ph ≡ true
    → (segments : List Text) × (split_segments ph.text ≡ some segments) × (0 < length segments)
unfolding has_segments
cut ph =
    option_cases
      (λ (b : Bool).
        b ≡ true
        → (segments : List Text) × (split_segments ph.text ≡ some segments) × (0 < length segments))
      (split_segments ph.text) (λ e h. absurd (ground (arith, h)))
      (λ segments e h. (segments, e, ground (arith, h)))

pub has_turn : (i : ℕ) → HasTurn i
unfolding HasTurn script
has_turn i =
    let (ph, e, h) = found phrases (i % length phrases) (turn_lt i) all_have in
    let (segments, f, k) = cut ph h in
    (
      (ph.speaker, segments),
      (λ j. e j >>= λ ph'. split_segments ph'.text >>= λ s. some (ph'.speaker, s))
          ∙ (λ j. f j >>= λ s. some (ph.speaker, s)),
      k,
    )

-- `t` is segment j of the phrase whose turn is the i-th.
pub record Says (i j : ℕ) (t : Transcript) : Type 0 where
  pub segments : List Text
  pub seg : Text
  pub turn : script i ≡ some (t.speaker, segments)
  pub at : get_elem? segments j ≡ some seg
  pub timed : t.words ≡ time_words seg t.start t.duration

-- The segments said so far are the script's in order, and the next is segment j of turn i.
pub data Told : List Transcript → ℕ → ℕ → Type 0 where
  begins : Told [] 0 0
  within_phrase :
      {ts : List Transcript} {i j : ℕ} (t : Transcript) (s : Says i j t)
      → j + 1 < length s.segments
      → Told ts i j
      → Told (ts ++ t ∷ []) i (j + 1)
  ends_phrase :
      {ts : List Transcript} {i j : ℕ} (t : Transcript) (s : Says i j t)
      → length s.segments ≡ j + 1
      → Told ts i j
      → Told (ts ++ t ∷ []) (i + 1) 0

unfoldable pub place : PhraseState → ℕ
place p = if p.in_gap then 0 else elim p.segments [ none ↦ 0 | some segments ↦ p.seg_idx ]

-- The state's segments are those of its turn.
unfoldable pub IsCurrent : PhraseState → Type 0
IsCurrent p =
    p.in_gap ≡ false
    → (segments : List Text) → p.segments ≡ some segments
    → (script p.phrase_idx ≡ some (p.speaker, segments)) × (p.seg_idx < length segments)

unfoldable pub Follows : PhraseState → List Transcript → Type 0
Follows p ts = Told ts p.phrase_idx (place p) × IsCurrent p

-- The outcome of a step: what was said is in order, and the state follows it unless emit refused.
unfoldable pub Fares : List Transcript → Frame → ℤ → Step → Type 0
Fares ts f received (p, t, going) =
    ((i : ℕ) × (j : ℕ) × Told (heard_with ts f received t) i j)
    × (going ≡ true → Follows p (heard_with ts f received t))

entry_at : (ws : List Text) (k : ℕ) → k < length ws → (w : Text) × (get_elem? ws k ≡ some w)
entry_at [] k h = absurd (omega arith)
entry_at (w ∷ ws) zero h = (w, refl)
entry_at (w ∷ ws) (suc k) h = entry_at ws k (omega arith)

module _ (p : PhraseState) (ts : List Transcript) (f : Frame) (received : ℤ) (segments : List Text)
    (g : p.in_gap ≡ false) (e : p.segments ≡ some segments) (v : Follows p ts) where
  at_index : (n : ℕ) → place (record p { seg_idx = n }) ≡ n
  unfolding place
  at_index n k = if g k then 0 else elim (e k) [ none ↦ 0 | some s ↦ n ]

  here : Told ts p.phrase_idx p.seg_idx
  unfolding Follows
  here = subst (Told ts p.phrase_idx) (at_index p.seg_idx) v.0

  module _ (seg : Text) (at : get_elem? segments p.seg_idx ≡ some seg) where
    said : Transcript
    said = restamped f received (due_segment p seg f.offset)

    says : Says p.phrase_idx p.seg_idx said
    unfolding said IsCurrent Follows due_segment
    says = record {
      segments = segments;
      seg = seg;
      turn = (v.1 g segments e).0;
      at = at;
      timed = refl;
    }

    -- What was said is in order, and a state that goes on follows it.
    emitted-Fares : (accepts : Bool) → Fares ts f received (emitted p f.offset accepts segments seg)
    unfolding Fares Follows emitted advanced said place IsCurrent says
    emitted-Fares accepts =
        let lt = (v.1 g segments e).1 in
        if_cases
          (λ (q : PhraseState). Fares ts f received (
            if accepts
            then (q, some (due_segment p seg f.offset), true)
            else (p, some (due_segment p seg f.offset), false)))
          (leb (length segments) (p.seg_idx + 1))
          (λ h.
            let done = ends_phrase said says (ground arith) here in
            if_cases (Fares ts f received) accepts
              (λ a. ((_, _, done), λ u. (done, λ w. absurd (ground arith))))
              (λ a. ((_, _, done), λ u. absurd (ground arith))))
          (λ h.
            let more = within_phrase said says (ground arith) here in
            if_cases (Fares ts f received) accepts
              (λ a. (
                (_, _, more),
                λ u. (
                  subst (Told _ p.phrase_idx) (sym (at_index (p.seg_idx + 1))) more,
                  λ w segs x. (
                    (v.1 w segs x).0,
                    subst (λ s. p.seg_idx + 1 < length s) (some-injective segments segs (sym e ∙ x))
                        (ground arith),
                  ),
                ),
              ))
              (λ a. ((_, _, more), λ u. absurd (ground arith))))

  pub due-Fares :
      (accepts : Bool) → (r : Step) × (emit_due p f.offset accepts ≡ some r) × Fares ts f received r
  unfolding emit_due Fares Follows IsCurrent
  due-Fares accepts =
      let (seg, at) = entry_at segments p.seg_idx (v.1 g segments e).1 in
      if_cases (λ (o : Option Step). (r : Step) × (o ≡ some r) × Fares ts f received r)
        (ltb_ℤ f.offset p.next_segment) (λ h. ((p, none, true), refl, ((_, _, v.0), λ u. v)))
        (λ h. (
          emitted p f.offset accepts segments seg,
          (λ k. e k >>= λ s. get_elem? s p.seg_idx >>= λ w. some (emitted p f.offset accepts s w))
              ∙ (λ k. at k >>= λ w. some (emitted p f.offset accepts segments w)),
          emitted-Fares seg at accepts,
        ))
