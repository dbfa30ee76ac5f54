-- ===== src/Metrics/Percentile/Summary.antt =====
-- What the figures of a latency series say of its samples.
use mathlib.Core.List.{Memᴰ}
use pi_live_captions.Base.{
  ℕ, ◌<◌, ◌≤◌, List, [], ◌∷◌, ◌≡◌, refl, sym, subst, ◌∙◌, pos_part, Option, some, ℤ, pos, negsuc,
  ◌≤ℤ◌, leb_ℤ, length, get_elem?, last_or, if_cases, All, arith,
}
use pi_live_captions.Audio.Float.{Float64}
use pi_live_captions.Audio.Format.{Duration}
use pi_live_captions.Metrics.Latency.{LatencySeries, trim}
use pi_live_captions.Metrics.Percentile.{
  sort, entry, clamp_index, Stats, no_stats, durations, rank, percentile, half, most, both, summary,
  figures, stats,
}
use pi_live_captions.Metrics.Percentile.Sorting.{
  Ascends, All-sort, sort-Ascends, length-sort, read_has, entry_exists, every_member, each_of_sort,
  ascending_entries, last_greatest, last_has,
}

pub record Figures (d : Duration) (ds : List Duration) (s : Stats) : Type 0 where
  pub last : s.last ≡ last_or d ds
  pub count : s.count ≡ length (d ∷ ds)
  pub p50_of : Memᴰ s.p50 (d ∷ ds)
  pub p95_of : Memᴰ s.p95 (d ∷ ds)
  pub max_of : Memᴰ s.max (d ∷ ds)
  pub ordered : s.p50 ≤ℤ s.p95
  pub highest : All (λ x. x ≤ℤ s.max) (d ∷ ds)

abbrev pub Summarizes : List Duration → Option Stats → Type 0
Summarizes [] o = o ≡ some no_stats
Summarizes (d ∷ ds) o = (s : Stats) × (o ≡ some s) × Figures d ds s

-- The number that an index within the list is.
index : ℤ → ℕ → ℕ
index i n = pos_part (clamp_index i n)

entry-index :
    (xs : List Duration) (i : ℤ) (n : ℕ)
    → pos 0 ≤ℤ i
    → entry xs (clamp_index i n) ≡ get_elem? xs (index i n)
unfolding index
entry-index xs (pos i) n h =
    if_cases (λ k. entry xs k ≡ get_elem? xs (pos_part k)) (leb_ℤ (pos n) (pos i)) (λ e. refl)
      (λ e. refl)
entry-index xs (negsuc i) n h = absurd (omega arith)

index_lt : (i : ℤ) (n : ℕ) → pos 0 ≤ℤ i → 0 < n → index i n < n
unfolding index
index_lt i n h k = ground arith

index_mono : (i j : ℤ) (n : ℕ) → pos 0 ≤ℤ i → i ≤ℤ j → index i n ≤ index j n
unfolding index
index_mono i j n h k = ground arith

module _ (fl : Float64) where
  open fl use {F}

  percentile-entry :
      (xs : List Duration) (p : F)
      → 0 < length xs
      → pos 0 ≤ℤ rank fl p (length xs)
      → percentile fl xs p ≡ get_elem? xs (index (rank fl p (length xs)) (length xs))
  unfolding percentile
  percentile-entry [] p h k = absurd (omega arith)
  percentile-entry (x ∷ xs) p h k = entry-index (x ∷ xs) _ _ k

  -- A sorted list that is not empty, read at both ranks.
  abbrev Reading : (ds xs : List Duration) → Type 0
  Reading ds xs =
      (a : Duration) × (b : Duration) × (percentile fl xs (half fl) ≡ some a)
      × (percentile fl xs (most fl) ≡ some b)
      × Memᴰ a ds
      × Memᴰ b ds
      × (a ≤ℤ b)

  read_both :
      (ds xs : List Duration)
      → 0 < length xs
      → Ascends xs
      → All (λ x. Memᴰ x ds) xs
      → pos 0 ≤ℤ rank fl (half fl) (length xs)
      → rank fl (half fl) (length xs) ≤ℤ rank fl (most fl) (length xs)
      → Reading ds xs
  read_both ds xs h s m low le =
      let high : pos 0 ≤ℤ rank fl (most fl) (length xs) = omega (arith, low, le) in
      let i = entry_exists xs _ (index_lt (rank fl (half fl) (length xs)) (length xs) low h) in
      let j = entry_exists xs _ (index_lt (rank fl (most fl) (length xs)) (length xs) high h) in
      (
        i.0,
        j.0,
        percentile-entry xs (half fl) h low ∙ i.1,
        percentile-entry xs (most fl) h high ∙ j.1,
        read_has _ xs _ i.0 m i.1,
        read_has _ xs _ j.0 m j.1,
        ascending_entries xs _ _ i.0 j.0 s (index_mono _ _ (length xs) low le) i.1 j.1,
      )

  last_of_sorted :
      (P : Duration → Type 0) (xs : List Duration)
      → 0 < length xs
      → All P xs
      → P (last_or (pos 0) xs)
  last_of_sorted P [] h a = absurd (omega arith)
  last_of_sorted P (x ∷ xs) h a = last_has P x xs a

  greatest_of_sorted : (xs : List Duration) → Ascends xs → All (λ y. y ≤ℤ last_or (pos 0) xs) xs
  greatest_of_sorted [] s = tt
  greatest_of_sorted (x ∷ xs) s = last_greatest x xs s

  figures-Summarizes :
      (ds : List Duration)
      → pos 0 ≤ℤ rank fl (half fl) (length ds)
      → rank fl (half fl) (length ds) ≤ℤ rank fl (most fl) (length ds)
      → Summarizes ds (figures fl ds)
  figures-Summarizes [] low le = refl
  figures-Summarizes (d ∷ ds) low le =
      let n = sym (length-sort (d ∷ ds)) in
      let xs = sort (d ∷ ds) in
      let h : 0 < length xs = omega (arith, n) in
      let m : All (λ x. Memᴰ x (d ∷ ds)) xs = All-sort _ (d ∷ ds) (every_member (d ∷ ds)) in
      let s = sort-Ascends (d ∷ ds) in
      let (a, b, e, f, p, q, o) =
        read_both (d ∷ ds) xs h s m (subst (λ k. pos 0 ≤ℤ rank fl (half fl) k) n low)
          (subst (λ k. rank fl (half fl) k ≤ℤ rank fl (most fl) k) n le) in
      (
        summary d ds a b,
        (λ i. both (e i) (f i) (summary d ds)),
        record {
          last = refl;
          count = refl;
          p50_of = p;
          p95_of = q;
          max_of = last_of_sorted _ xs h m;
          ordered = o;
          highest = each_of_sort _ (d ∷ ds) (greatest_of_sorted xs s);
        },
      )

  -- Where the float64 index of the median is neither negative nor above that of the 95th percentile,
  -- the figures of a series exist, Go does not panic. With no samples left after trimming they are
  -- zeros; else the last is the newest sample, the count their number, the percentiles and the
  -- greatest are samples, the median is at most the 95th percentile and no sample is above the greatest.
  pub stats-Summarizes :
      (s : LatencySeries) (now : ℤ)
      → pos 0 ≤ℤ rank fl (half fl) (length (durations (trim s now)))
      → rank fl (half fl) (length (durations (trim s now)))
        ≤ℤ rank fl (most fl) (length (durations (trim s now)))
      → Summarizes (durations (trim s now)) (stats fl s now).1
  unfolding stats
  stats-Summarizes s now = figures-Summarizes (durations (trim s now))
