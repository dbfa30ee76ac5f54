-- ===== src/Stt/Speechmatics/Transcripts/Round.antt =====
-- What one round of the loop of transcripts does to the run in progress.
use pi_live_captions.Base.{
  ℕ, List, [], ◌∷◌, ◌++◌, append-nil, true, false, not, ◌||◌, ◌≡◌, ◌≢◌, refl, ap, sym, subst, Text,
  codes, text_eq, text_eq_sound, ◌==◌, if◌then◌else◌, if_cases, if_cases_both, All, All-append,
  arith,
}
use pi_live_captions.Audio.Float.{Float64}
use pi_live_captions.Stt.Engine.{seconds_to_duration}
use pi_live_captions.Stt.Transcript.{Transcript}
use pi_live_captions.Stt.Speechmatics.{Alternative, Item}
use pi_live_captions.Stt.Speechmatics.Speaker.{parse_speaker}
use pi_live_captions.Stt.Speechmatics.Transcripts.{
  Builder, is_removed, segment_of, flush, add_punctuation, to_word, with_run, add_word,
  add_alternative,
}
use pi_live_captions.Stt.Speechmatics.Transcripts.Punctuation.{
  Kept, IsWord, AreWords, AreWords-append, AreWords-punctuate, AreMarks,
}

-- The words that count: neither punctuation nor an entity, and with no tag that removes them.
abbrev pub kept_of : {F : Type 0} → Item F → List Alternative → List (Kept F)
kept_of r [] = []
kept_of r (alt ∷ alts) =
    if text_eq r.kind (codes "punctuation")
    then []
    else if not (text_eq r.kind (codes "word"))
    then []
    else if is_removed alt
    then []
    else (r, alt) ∷ []

abbrev pub kept : {F : Type 0} → List (Item F) → List (Kept F)
kept [] = []
kept (r ∷ rs) = kept_of r r.alternatives ++ kept rs

abbrev pub speaker_of : {F : Type 0} → Kept F → ℕ
speaker_of k = parse_speaker k.1.speaker

-- The text is the content of a punctuation result.
pub data IsMarkOf {F : Type 0} (t : Text) : List (Item F) → Type 0 where
  here :
      (r : Item F) (alt : Alternative) (alts : List Alternative) (rs : List (Item F))
      → r.kind ≡ codes "punctuation"
      → r.alternatives ≡ alt ∷ alts
      → t ≡ alt.content
      → IsMarkOf t (r ∷ rs)
  there : (r : Item F) (rs : List (Item F)) → IsMarkOf t rs → IsMarkOf t (r ∷ rs)

-- `P` holds of the content that a result puts behind a word.
abbrev Marks : {F : Type 0} → (Text → Type 0) → Item F → List Alternative → Type 0
Marks P r [] = Unit
Marks P r (alt ∷ alts) = r.kind ≡ codes "punctuation" → P alt.content

pub IsMarkOf-Marks :
    {F : Type 0} (P : Text → Type 0) (r : Item F) (rs : List (Item F))
    → ((t : Text) → IsMarkOf t (r ∷ rs) → P t)
    → (alts : List Alternative) → r.alternatives ≡ alts
    → Marks P r alts
IsMarkOf-Marks P r rs h [] e = tt
IsMarkOf-Marks P r rs h (alt ∷ alts) e = λ k. h alt.content (IsMarkOf.here r alt alts rs k e refl)

module _ (fl : Float64) (P : Text → Type 0) where
  open fl use {F}

  -- The segment of a run: its speaker, its start, and its words with punctuation behind them.
  pub record IsSegment (k : Kept F) (ks : List (Kept F)) (t : Transcript) : Type 0 where
    pub speaker : t.speaker ≡ speaker_of k
    pub start : t.start ≡ seconds_to_duration fl k.0.start_time
    pub suffix : Text
    pub words : AreWords fl P (k ∷ ks) t.words suffix

  pub data AreSegments : List (List (Kept F)) → List Transcript → Type 0 where
    none_left : AreSegments [] []
    next :
        (k : Kept F) (ks : List (Kept F)) (t : Transcript) (rs : List (List (Kept F)))
        (ts : List Transcript)
        → IsSegment k ks t
        → AreSegments rs ts
        → AreSegments ((k ∷ ks) ∷ rs) (t ∷ ts)

  -- The builder `b` has the run of `k` and `ks` open.
  pub record InRun (k : Kept F) (ks : List (Kept F)) (b : Builder F) : Type 0 where
    pub opened : b.opened ≡ true
    pub speaker : b.speaker ≡ speaker_of k
    pub start : b.start ≡ k.0.start_time
    pub words : AreWords fl P (k ∷ ks) b.words b.suffix
    pub same : All (λ (z : Kept F). speaker_of z ≡ speaker_of k) ks

  pub record IsIdle (b : Builder F) : Type 0 where
    pub closed : b.opened ≡ false
    pub words : b.words ≡ []

  -- One round, with a run open before it.
  pub data After (b : Builder F) (k : Kept F) (ks : List (Kept F)) (b' : Builder F)
      : List (Kept F) → Type 0 where
    stays : b'.ts ≡ b.ts → InRun k ks b' → After b k ks b' []
    joins : (j : Kept F) → b'.ts ≡ b.ts → InRun k (ks ++ j ∷ []) b' → After b k ks b' (j ∷ [])
    ends :
        (j : Kept F) (t : Transcript)
        → speaker_of k ≢ speaker_of j
        → IsSegment k ks t
        → b'.ts ≡ b.ts ++ t ∷ []
        → InRun j [] b'
        → After b k ks b' (j ∷ [])

  pub segment_of-IsSegment :
      (k : Kept F) (ks : List (Kept F)) (b : Builder F)
      → InRun k ks b
      → IsSegment k ks (segment_of fl b)
  segment_of-IsSegment k ks b v = record {
    speaker = v.speaker;
    start = ap (seconds_to_duration fl) v.start;
    suffix = b.suffix;
    words = v.words;
  }

  pub flush_open :
      (b : Builder F) → b.opened ≡ true → (flush fl b).ts ≡ b.ts ++ segment_of fl b ∷ []
  unfolding flush
  flush_open b e =
      if_cases (λ x. x ≡ b.ts ++ segment_of fl b ∷ []) b.opened (λ h. refl) (λ h. ground arith)

  flush_words : (b : Builder F) → b.opened ≡ true → (flush fl b).words ≡ []
  unfolding flush
  flush_words b e = if_cases (λ x. x ≡ []) b.opened (λ h. refl) (λ h. ground arith)

  punctuation-After :
      (b : Builder F) (k : Kept F) (ks : List (Kept F)) (r : Item F) (alt : Alternative)
      → P alt.content
      → InRun k ks b
      → After b k ks (add_punctuation fl b r alt) []
  unfolding add_punctuation
  punctuation-After b k ks r alt p v =
      if_cases (λ b'. After b k ks b' []) b.opened
        (λ e. After.stays refl (record {
          opened = v.opened;
          speaker = v.speaker;
          start = v.start;
          words = AreWords-punctuate fl P _ _ _ b.removed alt.content p v.words;
          same = v.same;
        }))
        (λ e. ground arith)

  to_word-IsWord : (r : Item F) (alt : Alternative) → IsWord fl P (r, alt) (to_word fl r alt) []
  to_word-IsWord r alt = record {
    text = sym (append-nil alt.content);
    start = refl;
    end = refl;
    marks = AreMarks.bare;
  }

  -- The new run of a word after the old one was closed, or with none before it.
  opened-InRun :
      (b : Builder F) (r : Item F) (alt : Alternative)
      → b.words ≡ []
      → InRun
          (r, alt)
          []
          (record b {
            speaker = parse_speaker alt.speaker;
            start = r.start_time;
            opened = true;
            suffix = [];
            removed = false;
            words = b.words ++ to_word fl r alt ∷ [];
            end = r.end_time;
          })
  opened-InRun b r alt e = record {
    opened = refl;
    speaker = refl;
    start = refl;
    words =
        subst (λ ws. AreWords fl P ((r, alt) ∷ []) (ws ++ to_word fl r alt ∷ []) []) (sym e)
          (AreWords.one (r, alt) (to_word fl r alt) [] (to_word-IsWord r alt));
    same = tt;
  }

  word-After :
      (b : Builder F) (k : Kept F) (ks : List (Kept F)) (r : Item F) (alt : Alternative)
      → InRun k ks b
      → After b k ks (add_word fl b r alt) ((r, alt) ∷ [])
  unfolding add_word with_run
  word-After b k ks r alt v =
      if_cases
        (λ (b' : Builder F).
          After b k ks
            (record b' {
              suffix = [];
              removed = false;
              words = b'.words ++ to_word fl r alt ∷ [];
              end = r.end_time;
            })
            ((r, alt) ∷ []))
        (not b.opened || not (parse_speaker alt.speaker == b.speaker))
        (λ e.
          After.ends (r, alt) (segment_of fl b) (λ d. ground arith) (segment_of-IsSegment k ks b v)
            (flush_open b v.opened) (opened-InRun (flush fl b) r alt (flush_words b v.opened)))
        (λ e.
          After.joins (r, alt) refl
            (record {
              opened = v.opened;
              speaker = v.speaker;
              start = v.start;
              words =
                  AreWords-append fl P _ _ _ (r, alt) (to_word fl r alt) v.words
                    (to_word-IsWord r alt);
              same = All-append _ ks _ v.same (ground arith, tt);
            }))

  removal-After :
      (b : Builder F) (k : Kept F) (ks : List (Kept F))
      → InRun k ks b
      → After b k ks (record b { removed = if b.opened then true else b.removed }) []
  removal-After b k ks v = After.stays refl (record {
    opened = v.opened;
    speaker = v.speaker;
    start = v.start;
    words = v.words;
    same = v.same;
  })

  pub item-After :
      (b : Builder F) (k : Kept F) (ks : List (Kept F)) (r : Item F) (alts : List Alternative)
      → Marks P r alts
      → InRun k ks b
      → After b k ks
          (elim alts [ [] ↦ b | alt ∷ rest ↦ add_alternative fl b r alt ])
          (kept_of r alts)
  unfolding add_alternative
  item-After b k ks r [] p v = After.stays refl v
  item-After b k ks r (alt ∷ alts) p v =
      if_cases_both (After b k ks) (text_eq r.kind (codes "punctuation"))
        (λ e. punctuation-After b k ks r alt (p (text_eq_sound _ _ e)) v)
        (λ e.
          if_cases_both (After b k ks) (not (text_eq r.kind (codes "word")))
            (λ e'. After.stays refl v)
            (λ e'.
              if_cases_both (After b k ks) (is_removed alt) (λ x. removal-After b k ks v)
                (λ x. word-After b k ks r alt v)))

  -- With nothing open, a round keeps nothing or opens the run of the word that it keeps.
  pub data Before (b : Builder F) (b' : Builder F) : List (Kept F) → Type 0 where
    idles : b'.ts ≡ b.ts → IsIdle b' → Before b b' []
    opens : (j : Kept F) → b'.ts ≡ b.ts → InRun j [] b' → Before b b' (j ∷ [])

  pub flush_closed :
      (b : Builder F) → IsIdle b → ((flush fl b).ts ≡ b.ts) × ((flush fl b).words ≡ [])
  unfolding flush
  flush_closed b v = (
    if_cases (λ x. x ≡ b.ts) b.opened (λ h. ground arith) (λ h. refl),
    if_cases (λ x. x ≡ []) b.opened (λ h. refl) (λ h. v.words),
  )

  word-Before :
      (b : Builder F) (r : Item F) (alt : Alternative)
      → IsIdle b
      → Before b (add_word fl b r alt) ((r, alt) ∷ [])
  unfolding add_word with_run
  word-Before b r alt v =
      if_cases
        (λ (b' : Builder F).
          Before b
            (record b' {
              suffix = [];
              removed = false;
              words = b'.words ++ to_word fl r alt ∷ [];
              end = r.end_time;
            })
            ((r, alt) ∷ []))
        (not b.opened || not (parse_speaker alt.speaker == b.speaker))
        (λ e.
          Before.opens (r, alt) (flush_closed b v).0
            (opened-InRun (flush fl b) r alt (flush_closed b v).1))
        (λ e. ground arith)

  punctuation-Before :
      (b : Builder F) (r : Item F) (alt : Alternative)
      → IsIdle b
      → Before b (add_punctuation fl b r alt) []
  unfolding add_punctuation
  punctuation-Before b r alt v =
      if_cases (λ b'. Before b b' []) b.opened (λ e. ground arith) (λ e. Before.idles refl v)

  pub item-Before :
      (b : Builder F) (r : Item F) (alts : List Alternative)
      → IsIdle b
      → Before b (elim alts [ [] ↦ b | alt ∷ rest ↦ add_alternative fl b r alt ]) (kept_of r alts)
  unfolding add_alternative
  item-Before b r [] v = Before.idles refl v
  item-Before b r (alt ∷ alts) v =
      if_cases_both (Before b) (text_eq r.kind (codes "punctuation"))
        (λ e. punctuation-Before b r alt v)
        (λ e.
          if_cases_both (Before b) (not (text_eq r.kind (codes "word"))) (λ e'. Before.idles refl v)
            (λ e'.
              if_cases_both (Before b) (is_removed alt)
                (λ x. Before.idles refl (record { closed = v.closed; words = v.words }))
                (λ x. word-Before b r alt v)))
