-- ===== src/Stt/Runs.antt =====
-- Consecutive runs of items with one key: the reference for how the recognizers' words are grouped
-- by speaker.
use pi_live_captions.Base.{
  ℕ, List, [], ◌∷◌, ◌++◌, ◌≡◌, refl, ap, sym, ◌∙◌, ◌≢◌, ◌==◌, if◌then◌else◌, if_cases, All, arith,
  Bool-cases, inl, inr,
}

abbrev pub concat : {A : Type 0} → List (List A) → List A
concat [] = []
concat (r ∷ rs) = r ++ concat rs

module _ {A : Type 0} (key : A → ℕ) where
  -- An item before some runs joins the first of them if its key is the same.
  join_run : A → List (List A) → List (List A)
  join_run x [] = (x ∷ []) ∷ []
  join_run x ([] ∷ rs) = (x ∷ []) ∷ rs
  join_run x ((y ∷ ys) ∷ rs) =
      if key x == key y then (x ∷ y ∷ ys) ∷ rs else (x ∷ []) ∷ (y ∷ ys) ∷ rs

  unfoldable pub runs : List A → List (List A)
  unfolding join_run
  runs [] = []
  runs (x ∷ xs) = join_run x (runs xs)

  -- No run is empty, its items have one key, and the next run has another.
  pub data AreRuns : List (List A) → Type 0 where
    none_left : AreRuns []
    last : (x : A) (xs : List A) → All (λ y. key y ≡ key x) xs → AreRuns ((x ∷ xs) ∷ [])
    more :
        (x : A) (xs : List A) (y : A) (ys : List A) (rs : List (List A))
        → All (λ z. key z ≡ key x) xs
        → key x ≢ key y
        → AreRuns ((y ∷ ys) ∷ rs)
        → AreRuns ((x ∷ xs) ∷ (y ∷ ys) ∷ rs)

  concat-join_run : (x : A) (rs : List (List A)) → concat (join_run x rs) ≡ x ∷ concat rs
  unfolding join_run
  concat-join_run x [] = refl
  concat-join_run x ([] ∷ rs) = refl
  concat-join_run x ((y ∷ ys) ∷ rs) =
      if_cases (λ r. concat r ≡ x ∷ y ∷ ys ++ concat rs) (key x == key y) (λ e. refl) (λ e. refl)

  -- The runs are the whole list, in order.
  pub concat-runs : (xs : List A) → concat (runs xs) ≡ xs
  unfolding runs
  concat-runs [] = refl
  concat-runs (x ∷ xs) = concat-join_run x (runs xs) ∙ ap (◌∷◌ x) (concat-runs xs)

  key_trans :
      (x y : A) (ys : List A)
      → key x ≡ key y
      → All (λ z. key z ≡ key y) ys
      → All (λ z. key z ≡ key x) ys
  key_trans x y [] e a = a
  key_trans x y (z ∷ zs) e (h, a) = (h ∙ sym e, key_trans x y zs e a)

  join_run-AreRuns : (x : A) (rs : List (List A)) → AreRuns rs → AreRuns (join_run x rs)
  unfolding join_run
  join_run-AreRuns x _ AreRuns.none_left = AreRuns.last x [] tt
  join_run-AreRuns x _ (AreRuns.last y ys a) =
      if_cases AreRuns (key x == key y)
        (λ e. AreRuns.last x (y ∷ ys) (ground arith, key_trans x y ys (ground arith) a))
        (λ e. AreRuns.more x [] y ys [] tt (ground arith) (AreRuns.last y ys a))
  join_run-AreRuns x _ (AreRuns.more y ys z zs rs a d r) =
      if_cases AreRuns (key x == key y)
        (λ e.
          AreRuns.more x (y ∷ ys) z zs rs (ground arith, key_trans x y ys (ground arith) a)
            (ground arith) r)
        (λ e.
          AreRuns.more x [] y ys ((z ∷ zs) ∷ rs) tt (ground arith)
            (AreRuns.more y ys z zs rs a d r))

  pub runs-AreRuns : (xs : List A) → AreRuns (runs xs)
  unfolding runs
  runs-AreRuns [] = AreRuns.none_left
  runs-AreRuns (x ∷ xs) = join_run-AreRuns x (runs xs) (runs-AreRuns xs)

  -- The first run begins with the first item.
  join_run_other :
      (x y : A) (rs : List (List A))
      → key x ≢ key y
      → join_run x (join_run y rs) ≡ (x ∷ []) ∷ join_run y rs
  unfolding join_run
  join_run_other x y [] d = ground arith
  join_run_other x y ([] ∷ rs) d = ground arith
  join_run_other x y ((z ∷ zs) ∷ rs) d = elim (Bool-cases (key y == key z)) [
    | inl e ↦ rw e (ground arith)
    | inr e ↦ rw e (ground arith)
  ]

  -- A run that is complete stands alone before the runs of what follows.
  pub runs_other :
      (x : A) (xs : List A) (y : A) (ys : List A)
      → All (λ z. key z ≡ key x) xs
      → key x ≢ key y
      → runs (x ∷ xs ++ y ∷ ys) ≡ (x ∷ xs) ∷ runs (y ∷ ys)
  unfolding runs
  runs_other x [] y ys a d = join_run_other x y (runs ys) d
  runs_other x (z ∷ zs) y ys (h, a) d =
      rw (runs_other z zs y ys (key_trans z x zs h a) (ground arith)) (ground arith)

  pub runs_one : (x : A) (xs : List A) → All (λ z. key z ≡ key x) xs → runs (x ∷ xs) ≡ (x ∷ xs) ∷ []
  unfolding runs
  runs_one x [] a = refl
  runs_one x (z ∷ zs) (h, a) = rw (runs_one z zs (key_trans z x zs h a)) (ground arith)
