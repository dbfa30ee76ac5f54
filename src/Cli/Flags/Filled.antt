-- ===== src/Cli/Flags/Filled.antt =====
-- internal/cli/run.go: what a recognizer of a name is given.
use pi_live_captions.Base.{
  List, [], ◌∷◌, ◌++◌, Bool, true, false, not, ◌||◌, ◌⊎◌, ◌≢◌, some, inl, inr, ◌≡◌, refl, sym, ap,
  subst, ◌∙◌, Text, codes, text_eq, text_eq_sound, is_empty, trim_space, Bool-cases, option_cases,
  none, if◌then◌else◌, if_cases, if_cases_both, arith,
}
use pi_live_captions.Cli.Flags.{
  SttFlags, StartError, EngineName, Files, engine_defaults, api_key_env, is_comment, terms_of,
  some_terms, split_lines, read_keyterm_file, with_key, with_defaults, require_api_key, new_engine,
}

abbrev pub engine_text : EngineName → Text
engine_text EngineName.deepgram = codes "deepgram"
engine_text EngineName.speechmatics = codes "speechmatics"
engine_text EngineName.mock = codes "mock"

abbrev or_else : Text → Text → Text
or_else s t = if is_empty s then t else s

-- The key that a recognizer is given: only its own variable stands in for a missing one.
abbrev pub key_for : (Text → Text) → EngineName → Text → Text
key_for env EngineName.deepgram key = or_else key (env (codes "DEEPGRAM_API_KEY"))
key_for env EngineName.speechmatics key = or_else key (env (codes "SPEECHMATICS_API_KEY"))
key_for env EngineName.mock key = key

abbrev pub model_for : EngineName → Text → Text
model_for EngineName.deepgram model = or_else model (codes "nova-3")
model_for EngineName.speechmatics model = or_else model (codes "enhanced")
model_for EngineName.mock model = model

abbrev pub language_for : EngineName → Text → Text
language_for EngineName.deepgram language = or_else language (codes "en-US")
language_for EngineName.speechmatics language = or_else language (codes "en")
language_for EngineName.mock language = language

abbrev pub is_usable : EngineName → Text → Bool
is_usable EngineName.deepgram key = not (is_empty (trim_space key))
is_usable EngineName.speechmatics key = not (is_empty (trim_space key))
is_usable EngineName.mock key = true

-- A term is neither blank nor a comment.
abbrev pub IsTerm : Text → Type 0
IsTerm t = (is_empty t ≡ false) × (is_comment t ≡ false)

new_engine-engine_text : (k : EngineName) → new_engine (engine_text k) ≡ inr k
unfolding new_engine
new_engine-engine_text EngineName.deepgram = refl
new_engine-engine_text EngineName.speechmatics = refl
new_engine-engine_text EngineName.mock = refl

require_api_key-engine_text :
    (k : EngineName) (key : Text) → require_api_key (engine_text k) key ≡ is_usable k key
unfolding require_api_key
require_api_key-engine_text EngineName.deepgram key = refl
require_api_key-engine_text EngineName.speechmatics key = refl
require_api_key-engine_text EngineName.mock key = refl

-- What the file of terms holds; none is named by an empty path.
unfoldable pub terms_in : Files → Text → StartError ⊎ List Text
terms_in files path = if is_empty path then inr [] else read_keyterm_file files path

-- The terms of a file's lines, trimmed: a line is kept if it is neither blank nor a comment.
pub data AreTerms : List Text → List Text → Type 0 where
  none_left : AreTerms [] []
  skips_blank :
      (l : Text) (ls ts : List Text)
      → is_empty (trim_space l) ≡ true
      → AreTerms ls ts
      → AreTerms (l ∷ ls) ts
  skips_comment :
      (l : Text) (ls ts : List Text)
      → is_comment (trim_space l) ≡ true
      → AreTerms ls ts
      → AreTerms (l ∷ ls) ts
  keeps :
      (l : Text) (ls ts : List Text)
      → IsTerm (trim_space l)
      → AreTerms ls ts
      → AreTerms (l ∷ ls) (trim_space l ∷ ts)

terms_of-AreTerms : (ls : List Text) → AreTerms ls (terms_of ls)
unfolding terms_of
terms_of-AreTerms [] = AreTerms.none_left
terms_of-AreTerms (l ∷ ls) =
    let rest = terms_of-AreTerms ls in
    if_cases (AreTerms (l ∷ ls)) (is_empty (trim_space l) || is_comment (trim_space l))
      (λ h. skipped (is_empty (trim_space l)) refl h rest)
      (λ h. AreTerms.keeps l ls (terms_of ls) (neither _ _ h) rest)
  where
    neither : (a b : Bool) → (a || b) ≡ false → (a ≡ false) × (b ≡ false)
    neither a b h = ground arith

    skipped :
        (b : Bool)
        → is_empty (trim_space l) ≡ b
        → (b || is_comment (trim_space l)) ≡ true
        → AreTerms ls (terms_of ls)
        → AreTerms (l ∷ ls) (terms_of ls)
    skipped true e h a = AreTerms.skips_blank l ls _ e a
    skipped false e h a = AreTerms.skips_comment l ls _ h a

AreTerms-terms_of : (ls ts : List Text) → AreTerms ls ts → terms_of ls ≡ ts
unfolding terms_of
AreTerms-terms_of _ _ AreTerms.none_left = refl
AreTerms-terms_of _ _ (AreTerms.skips_blank l ls ts e a) = rw (e) (AreTerms-terms_of ls ts a)
AreTerms-terms_of _ _ (AreTerms.skips_comment l ls ts e a) =
    if_cases (λ x. x ≡ ts) (is_empty (trim_space l) || is_comment (trim_space l))
      (λ h. AreTerms-terms_of ls ts a) (λ h. absurd (ground arith))
AreTerms-terms_of _ _ (AreTerms.keeps l ls ts (e, c) a) =
    rw (e, c) (ap (λ x. trim_space l ∷ x) (AreTerms-terms_of ls ts a))

-- The terms of the flag's file: none where no file is named; else it can be read and has some.
abbrev pub HoldsTerms : Files → Text → List Text → Type 0
HoldsTerms files path ts =
    ((is_empty path ≡ true) × (ts ≡ []))
    ⊎ ((is_empty path ≡ false)
        × (b : Text) × (files path ≡ some b)
        × (ts ≢ [])
        × AreTerms (split_lines b) ts)

abbrev Holding : Files → Text → StartError ⊎ List Text → Type 0
Holding files path (inl e) = Unit
Holding files path (inr ts) = HoldsTerms files path ts

pub terms_in-HoldsTerms :
    (files : Files) (path : Text) (ts : List Text)
    → terms_in files path ≡ inr ts
    → HoldsTerms files path ts
unfolding terms_in read_keyterm_file
terms_in-HoldsTerms files path ts h = subst (Holding files path) h (
    if_cases (Holding files path) (is_empty path) (λ e. inl (e, refl))
      (λ e.
        option_cases (Holding files path) (files path) (λ n. tt)
          (λ b f. found e b f (terms_of (split_lines b)) (terms_of-AreTerms (split_lines b)))))
  where
    found :
        is_empty path ≡ false
        → (b : Text) → files path ≡ some b
        → (us : List Text) → AreTerms (split_lines b) us
        → Holding files path (some_terms us)
    found e b f [] a = tt
    found e b f (u ∷ us) a = inr (e, b, f, (λ n. ground arith), a)

some_terms_lem : (us : List Text) → us ≢ [] → some_terms us ≡ inr us
unfolding some_terms
some_terms_lem [] n = absurd (n refl)
some_terms_lem (u ∷ us) n = refl

read_terms :
    (files : Files) (path b : Text) (ts : List Text)
    → files path ≡ some b
    → ts ≢ []
    → AreTerms (split_lines b) ts
    → read_keyterm_file files path ≡ inr ts
unfolding read_keyterm_file
read_terms files path b ts f n a =
    subst
      (λ o.
        elim o [ none ↦ inl StartError.unreadable | some x ↦ some_terms (terms_of (split_lines x)) ]
        ≡ inr ts)
      (sym f) (rw (AreTerms-terms_of (split_lines b) ts a) (some_terms_lem ts n))

pub HoldsTerms-terms_in :
    (files : Files) (path : Text) (ts : List Text)
    → HoldsTerms files path ts
    → terms_in files path ≡ inr ts
unfolding terms_in
HoldsTerms-terms_in files path ts (inl (e, n)) = rw (e, n) refl
HoldsTerms-terms_in files path ts (inr (e, b, f, n, a)) = rw e (read_terms files path b ts f n a)

-- The recognizer that a name is of.
pub new_engine-cases :
    (name : Text)
    → (new_engine name ≡ inl StartError.unknown_engine)
      ⊎ ((k : EngineName) × (name ≡ engine_text k))
unfolding new_engine
new_engine-cases name = elim (Bool-cases (text_eq name (codes "deepgram"))) [
  | inl h ↦ inr (EngineName.deepgram, text_eq_sound _ _ h)
  | inr h ↦ elim (Bool-cases (text_eq name (codes "speechmatics"))) [
    | inl h' ↦ inr (EngineName.speechmatics, text_eq_sound _ _ h')
    | inr h' ↦ elim (Bool-cases (text_eq name (codes "mock"))) [
      | inl k ↦ inr (EngineName.mock, text_eq_sound _ _ k)
      | inr k ↦ inl (rw (h, h', k) refl)
    ]
  ]
]

module _ {F : Type 0} where
  -- The flags that a recognizer is started with.
  abbrev pub filled : (Text → Text) → EngineName → SttFlags F → List Text → SttFlags F
  filled env k f terms = record f {
    api_key = key_for env k f.api_key;
    model = model_for k f.model;
    language = language_for k f.language;
    keyterm = f.keyterm ++ terms;
  }

  abbrev pub settled : (Text → Text) → EngineName → SttFlags F → SttFlags F
  settled env k f = record f {
    api_key = key_for env k f.api_key;
    model = model_for k f.model;
    language = language_for k f.language;
  }

  with_defaults-engine_text :
      (env : Text → Text) (k : EngineName) (g : SttFlags F)
      → with_defaults (with_key env (record g { engine = engine_text k }))
        ≡ settled env k (record g { engine = engine_text k })
  unfolding with_defaults with_key engine_defaults api_key_env
  with_defaults-engine_text env EngineName.deepgram g =
      if_cases_both
        (λ (x : SttFlags F) (key : Text).
          with_defaults x
          ≡ record (settled env EngineName.deepgram (record g { engine = codes "deepgram" })) {
            api_key = key;
          })
        (is_empty g.api_key) (λ h. refl) (λ h. refl)
  with_defaults-engine_text env EngineName.speechmatics g =
      if_cases_both
        (λ (x : SttFlags F) (key : Text).
          with_defaults x
          ≡ record (settled env EngineName.speechmatics
              (record g { engine = codes "speechmatics" })) { api_key = key })
        (is_empty g.api_key) (λ h. refl) (λ h. refl)
  with_defaults-engine_text env EngineName.mock g =
      if_cases
        (λ (x : SttFlags F).
          with_defaults x ≡ settled env EngineName.mock (record g { engine = codes "mock" }))
        (is_empty g.api_key) (λ h. refl) (λ h. refl)

  with_defaults-settled :
      (env : Text → Text) (k : EngineName) (g : SttFlags F)
      → g.engine ≡ engine_text k
      → with_defaults (with_key env g) ≡ settled env k g
  with_defaults-settled env k g e =
      subst
        (λ n.
          with_defaults (with_key env (record g { engine = n }))
          ≡ settled env k (record g { engine = n }))
        (sym e) (with_defaults-engine_text env k g)

  -- start, once the flags are filled in.
  unfoldable pub checked : SttFlags F → Text → StartError ⊎ (EngineName × SttFlags F)
  checked g name =
      if require_api_key name g.api_key
      then elim (new_engine name) [ inl e ↦ inl e | inr k ↦ inr (k, g) ]
      else inl StartError.no_key

  checked-engine_text :
      (k : EngineName) (g : SttFlags F)
      → checked g (engine_text k)
        ≡ (if is_usable k g.api_key then inr (k, g) else inl StartError.no_key)
  unfolding checked
  checked-engine_text k g = rw (require_api_key-engine_text, new_engine-engine_text) refl

  -- start, behind the file of terms.
  unfoldable pub after_terms : (Text → Text) → SttFlags F → StartError ⊎ (EngineName × SttFlags F)
  after_terms env f = let g = with_defaults (with_key env f) in checked g g.engine

  pub after_terms-settled :
      (env : Text → Text) (k : EngineName) (g : SttFlags F)
      → g.engine ≡ engine_text k
      → after_terms env g ≡ (
          if is_usable k (key_for env k g.api_key)
          then inr (k, settled env k g)
          else inl StartError.no_key)
  unfolding after_terms
  after_terms-settled env k g e =
      ap (λ (x : SttFlags F). checked x x.engine) (with_defaults-settled env k g e)
      ∙ ap (checked (settled env k g)) e
      ∙ checked-engine_text k (settled env k g)
