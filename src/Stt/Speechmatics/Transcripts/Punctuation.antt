-- ===== src/Stt/Speechmatics/Transcripts/Punctuation.antt =====
-- What punctuation does to the words of a run.
use pi_live_captions.Base.{
  ◌-◌, List, [], ◌∷◌, ◌++◌, append_assoc, Bool, ◌&&◌, ◌≡◌, refl, ap, Text, codes, text_eq, length,
  length-append, if_cases, arith,
}
use pi_live_captions.Audio.Float.{Float64}
use pi_live_captions.Stt.Engine.{take, seconds_to_duration}
use pi_live_captions.Stt.Transcript.{Word}
use pi_live_captions.Stt.Speechmatics.{Alternative, Item}
use pi_live_captions.Stt.Speechmatics.Transcripts.{
  append_punctuation, punctuate, is_punctuation_collision, is_terminal_punctuation,
}

-- A word result, with the alternative that was taken.
abbrev pub Kept : Type 0 → Type 0
Kept F = Item F × Alternative

take-append : (c s : Text) → take (length c) (c ++ s) ≡ c
take-append [] s = refl
take-append (x ∷ c) s = ap (◌∷◌ x) (take-append c s)

take_all_but : (c s : Text) → take (length (c ++ s) - length s) (c ++ s) ≡ c
take_all_but c s =
    let e : length (c ++ s) - length s ≡ length c = omega (arith, length-append c s) in
    rw e (take-append c s)

-- The text is the content with the suffix behind it, also afterwards.
append_punctuation_lem :
    (c s : Text) (removed : Bool) (incoming : Text)
    → (append_punctuation (c ++ s) s removed incoming).0
      ≡ c ++ (append_punctuation (c ++ s) s removed incoming).1
unfolding append_punctuation
append_punctuation_lem c s removed incoming =
    if_cases (λ (p : Text × Text). p.0 ≡ c ++ p.1) (removed && is_punctuation_collision s incoming)
      (λ e.
        if_cases (λ (p : Text × Text). p.0 ≡ c ++ p.1)
          (text_eq s (codes ",") && is_terminal_punctuation incoming)
          (λ e'. ap (λ t. t ++ incoming) (take_all_but c s)) (λ e'. refl))
      (λ e. append_assoc c s incoming)

-- The text is texts of `P` one behind the other.
pub data AreMarks (P : Text → Type 0) : Text → Type 0 where
  bare : AreMarks P []
  behind : (s t : Text) → AreMarks P s → P t → AreMarks P (s ++ t)

append_punctuation-AreMarks :
    (P : Text → Type 0) (text s : Text) (removed : Bool) (incoming : Text)
    → AreMarks P s
    → P incoming
    → AreMarks P (append_punctuation text s removed incoming).1
unfolding append_punctuation
append_punctuation-AreMarks P text s removed incoming a p =
    if_cases (λ (o : Text × Text). AreMarks P o.1) (removed && is_punctuation_collision s incoming)
      (λ e.
        if_cases (λ (o : Text × Text). AreMarks P o.1)
          (text_eq s (codes ",") && is_terminal_punctuation incoming)
          (λ e'. AreMarks.behind [] incoming AreMarks.bare p) (λ e'. a))
      (λ e. AreMarks.behind s incoming a p)

-- `P` is what may stand behind the content of a word.
module _ (fl : Float64) (P : Text → Type 0) where
  open fl use {F}

  -- The word `w` is the result `k` with `suffix` behind its content, at the result's own times.
  pub record IsWord (k : Kept F) (w : Word) (suffix : Text) : Type 0 where
    pub text : w.text ≡ k.1.content ++ suffix
    pub start : w.start ≡ seconds_to_duration fl k.0.start_time
    pub end : w.end ≡ seconds_to_duration fl k.0.end_time
    pub marks : AreMarks P suffix

  -- The words of a run, the last with the suffix given.
  pub data AreWords : List (Kept F) → List Word → Text → Type 0 where
    one : (k : Kept F) (w : Word) (s : Text) → IsWord k w s → AreWords (k ∷ []) (w ∷ []) s
    more :
        (k : Kept F) (w : Word) (s : Text) (k' : Kept F) (ks : List (Kept F)) (w' : Word)
        (ws : List Word) (s' : Text)
        → IsWord k w s
        → AreWords (k' ∷ ks) (w' ∷ ws) s'
        → AreWords (k ∷ k' ∷ ks) (w ∷ w' ∷ ws) s'

  pub AreWords-append :
      (ks : List (Kept F)) (ws : List Word) (s : Text) (k : Kept F) (w : Word)
      → AreWords ks ws s
      → IsWord k w []
      → AreWords (ks ++ k ∷ []) (ws ++ w ∷ []) []
  AreWords-append _ _ _ k w (AreWords.one k₀ w₀ s i) j =
      AreWords.more k₀ w₀ s k [] w [] [] i (AreWords.one k w [] j)
  AreWords-append _ _ _ k w (AreWords.more k₀ w₀ s₀ k' ks w' ws s i a) j =
      AreWords.more k₀ w₀ s₀ k' (ks ++ k ∷ []) w' (ws ++ w ∷ []) [] i
        (AreWords-append _ _ _ k w a j)

  AreWords-cons :
      (k : Kept F) (w : Word) (s₀ : Text)
      → IsWord k w s₀
      → (ks : List (Kept F)) (ws : List Word) (s : Text) → AreWords ks ws s
      → AreWords (k ∷ ks) (w ∷ ws) s
  AreWords-cons k w s₀ i _ _ _ (AreWords.one k' w' s j) =
      AreWords.more k w s₀ k' [] w' [] s i (AreWords.one k' w' s j)
  AreWords-cons k w s₀ i _ _ _ (AreWords.more k' w' s' k'' ks w'' ws s j a) =
      AreWords.more k w s₀ k' (k'' ∷ ks) w' (w'' ∷ ws) s i
        (AreWords.more k' w' s' k'' ks w'' ws s j a)

  punctuate_word :
      (k : Kept F) (w : Word) (s : Text) (removed : Bool) (incoming : Text)
      → P incoming
      → IsWord k w s
      → IsWord k
          (record w { text = (append_punctuation w.text s removed incoming).0 })
          (append_punctuation w.text s removed incoming).1
  punctuate_word k w s removed incoming p i = record {
    text = rw i.text (append_punctuation_lem k.1.content s removed incoming);
    start = i.start;
    end = i.end;
    marks = append_punctuation-AreMarks P w.text s removed incoming i.marks p;
  }

  pub AreWords-punctuate :
      (ks : List (Kept F)) (ws : List Word) (s : Text) (removed : Bool) (incoming : Text)
      → P incoming
      → AreWords ks ws s
      → AreWords ks (punctuate ws s removed incoming).0 (punctuate ws s removed incoming).1
  AreWords-punctuate _ _ _ removed incoming p (AreWords.one k w s i) =
      AreWords.one k _ _ (punctuate_word k w s removed incoming p i)
  AreWords-punctuate _ _ _ removed incoming p (AreWords.more k w s₀ k' ks w' ws s i a) =
      AreWords-cons k w s₀ i _ _ _ (AreWords-punctuate _ _ _ removed incoming p a)
