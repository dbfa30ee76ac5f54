-- ===== src/Cli/Flags/Launch.antt =====
-- internal/cli/run.go: when a recognizer is started, and with which flags.
use pi_live_captions.Base.{
  List, ◌++◌, append-nil, true, ◌⊎◌, inl, inr, ◌↔◌, ◌≡◌, refl, sym, ap, subst, ◌∙◌, Text, is_empty,
  option_cases, if◌then◌else◌, if_cases, if_cases_both,
}
use pi_live_captions.Cli.Flags.{
  SttFlags, StartError, EngineName, Files, engine_defaults, api_key_env, read_keyterm_file,
  with_keyterms, with_key, with_defaults, resolve_stt_defaults, require_api_key, new_engine,
  start_engine,
}
use pi_live_captions.Cli.Flags.Filled.{
  engine_text, key_for, is_usable, terms_in, HoldsTerms, HoldsTerms-terms_in, terms_in-HoldsTerms,
  new_engine-cases, filled, checked, after_terms, after_terms-settled,
}

module _ {F : Type 0} where
  abbrev grown_by : SttFlags F → StartError ⊎ List Text → StartError ⊎ SttFlags F
  grown_by f (inl e) = inl e
  grown_by f (inr terms) = inr (record f { keyterm = f.keyterm ++ terms })

  with_keyterms-terms_in :
      (files : Files) (f : SttFlags F)
      → with_keyterms files f ≡ grown_by f (terms_in files f.keyterm_file)
  unfolding with_keyterms terms_in
  with_keyterms-terms_in files f =
      if_cases_both (λ x y. x ≡ grown_by f y) (is_empty f.keyterm_file)
        (λ h. ap (λ ts. inr (record f { keyterm = ts })) (sym (append-nil f.keyterm)))
        (λ h. read (read_keyterm_file files f.keyterm_file))
    where
      read :
          (r : StartError ⊎ List Text)
          → elim r as (λ x. StartError ⊎ SttFlags F) [
            | inl e ↦ inl e
            | inr terms ↦ inr (record f { keyterm = f.keyterm ++ terms })
          ]
            ≡ grown_by f r
      read (inl e) = refl
      read (inr terms) = refl

  abbrev after_keyterms :
      (Text → Text) → StartError ⊎ SttFlags F → StartError ⊎ (EngineName × SttFlags F)
  after_keyterms env (inl e) = inl e
  after_keyterms env (inr g) = after_terms env g

  start_engine-after_keyterms :
      (files : Files) (env : Text → Text) (f : SttFlags F)
      → start_engine files env f ≡ after_keyterms env (with_keyterms files f)
  unfolding start_engine resolve_stt_defaults after_terms checked
  start_engine-after_keyterms files env f = finish (with_keyterms files f)
    where
      finish :
          (r : StartError ⊎ SttFlags F)
          → elim (elim r as (λ x. StartError ⊎ SttFlags F) [
            | inl e ↦ inl e
            | inr g ↦ inr (with_defaults (with_key env g))
          ])
              as (λ x. StartError ⊎ (EngineName × SttFlags F)) [
                | inl e ↦ inl e
                | inr g ↦
                    if require_api_key g.engine g.api_key
                    then elim (new_engine g.engine) [ inl e ↦ inl e | inr k ↦ inr (k, g) ]
                    else inl StartError.no_key
              ]
            ≡ after_keyterms env r
      finish (inl e) = refl
      finish (inr g) = refl

  start_engine-terms_in :
      (files : Files) (env : Text → Text) (f : SttFlags F)
      → start_engine files env f ≡ after_keyterms env (grown_by f (terms_in files f.keyterm_file))
  start_engine-terms_in files env f =
      start_engine-after_keyterms files env f
      ∙ ap (after_keyterms env) (with_keyterms-terms_in files f)

  with_defaults-engine :
      (env : Text → Text) (g : SttFlags F) → (with_defaults (with_key env g)).engine ≡ g.engine
  unfolding with_defaults with_key
  with_defaults-engine env g =
      option_cases (λ (x : SttFlags F). x.engine ≡ g.engine)
        (engine_defaults (with_key env g).engine) (λ e. kept) (λ d e. kept)
    where
      kept : (with_key env g).engine ≡ g.engine
      kept =
          if_cases (λ (x : SttFlags F). x.engine ≡ g.engine) (is_empty g.api_key)
            (λ h.
              option_cases (λ (x : SttFlags F). x.engine ≡ g.engine) (api_key_env g.engine)
                (λ e. refl) (λ d e. refl))
            (λ h. refl)

  -- When a recognizer starts, and with which flags.
  abbrev pub IsReady : Files → (Text → Text) → SttFlags F → EngineName → SttFlags F → Type 0
  IsReady files env f k g =
      (f.engine ≡ engine_text k)
      × (is_usable k (key_for env k f.api_key) ≡ true)
      × (terms : List Text) × HoldsTerms files f.keyterm_file terms
      × (g ≡ filled env k f terms)

  IsReady-start_engine :
      (files : Files) (env : Text → Text) (f : SttFlags F) (k : EngineName) (g : SttFlags F)
      → IsReady files env f k g
      → start_engine files env f ≡ inr (k, g)
  IsReady-start_engine files env f k g (e, u, terms, r, p) =
      start_engine-terms_in files env f
      ∙ ap (λ x. after_keyterms env (grown_by f x))
          (HoldsTerms-terms_in files f.keyterm_file terms r)
      ∙ after_terms-settled env k _ e
      ∙ rw (u, p) refl

  abbrev Readies :
      Files → (Text → Text) → SttFlags F → StartError ⊎ (EngineName × SttFlags F) → Type 0
  Readies files env f (inl e) = Unit
  Readies files env f (inr (k, g)) = IsReady files env f k g

  start_engine-Readies :
      (files : Files) (env : Text → Text) (f : SttFlags F)
      → Readies files env f (start_engine files env f)
  unfolding after_terms checked
  start_engine-Readies files env f =
      subst (Readies files env f) (sym (start_engine-terms_in files env f))
        (go (terms_in files f.keyterm_file) refl)
    where
      go :
          (r : StartError ⊎ List Text)
          → terms_in files f.keyterm_file ≡ r
          → Readies files env f (after_keyterms env (grown_by f r))
      go (inl e) r = tt
      go (inr terms) r =
          let g : SttFlags F = record f { keyterm = f.keyterm ++ terms } in
          elim (new_engine-cases f.engine) [
            | inl h ↦
                rw (with_defaults-engine env g, h)
                  (if_cases (Readies files env f) (require_api_key f.engine _) (λ u. tt) (λ u. tt))
            | inr (k, e) ↦ subst (Readies files env f) (sym (after_terms-settled env k g e)) (
                if_cases (Readies files env f) (is_usable k (key_for env k f.api_key))
                  (λ u. (e, u, terms, terms_in-HoldsTerms files f.keyterm_file terms r, refl))
                  (λ u. tt))
          ]

  -- A recognizer starts if and only if the engine is named, its key is not blank (the offline one
  -- needs none), and the file of terms, if one is named, can be read and holds a term. It starts
  -- with the flags given, what is missing of key, model and language filled in from that engine's
  -- own variable and defaults, and behind the other terms the file's lines, trimmed, but for those
  -- that are blank or comments.
  pub start_engine-IsReady :
      (files : Files) (env : Text → Text) (f : SttFlags F) (k : EngineName) (g : SttFlags F)
      → (start_engine files env f ≡ inr (k, g)) ↔ IsReady files env f k g
  start_engine-IsReady files env f k g = (
    λ h. subst (Readies files env f) h (start_engine-Readies files env f),
    IsReady-start_engine files env f k g,
  )
