-- ===== src/Metrics/Percentile.antt =====
-- internal/metrics/metrics.go: the figures of a latency series. The index of a percentile is
-- computed in float64, and an index below 0, for which Go panics, is `none`.
pub mod Sorting
pub mod Summary
use pi_live_captions.Base.{
  ℕ, ◌-◌, List, [], ◌∷◌, map, Option, none, some, ℤ, pos, negsuc, leb_ℤ, length, get_elem?, last_or,
  if◌then◌else◌,
}
use pi_live_captions.Audio.Float.{Float64}
use pi_live_captions.Audio.Format.{Duration}
use pi_live_captions.Metrics.Latency.{LatencySample, LatencySeries, trim}

-- slices.Sort
abbrev pub insert : Duration → List Duration → List Duration
insert d [] = d ∷ []
insert d (x ∷ xs) = let rest = insert d xs in if leb_ℤ d x then d ∷ x ∷ xs else x ∷ rest

abbrev pub sort : List Duration → List Duration
sort [] = []
sort (d ∷ ds) = insert d (sort ds)

-- sorted[i]
abbrev pub entry : List Duration → ℤ → Option Duration
entry ds (pos i) = get_elem? ds i
entry ds (negsuc i) = none

abbrev pub clamp_index : ℤ → ℕ → ℤ
clamp_index i n = if leb_ℤ (pos n) i then pos (n - 1) else i

pub record Stats : Type 0 where
  pub last : Duration
  pub p50 : Duration
  pub p95 : Duration
  pub max : Duration
  pub count : ℕ

abbrev pub no_stats : Stats
no_stats = record { last = pos 0; p50 = pos 0; p95 = pos 0; max = pos 0; count = 0 }

abbrev pub durations : LatencySeries → List Duration
durations s = map (λ (x : LatencySample). x.d) s.samples

-- The figures, given the percentiles.
abbrev pub summary : Duration → List Duration → Duration → Duration → Stats
summary d ds p50 p95 = record {
  last = last_or d ds;
  p50 = p50;
  p95 = p95;
  max = last_or (pos 0) (sort (d ∷ ds));
  count = length (d ∷ ds);
}

-- One value after another, each of which may panic.
abbrev pub both : Option Duration → Option Duration → (Duration → Duration → Stats) → Option Stats
both none o f = none
both (some a) none f = none
both (some a) (some b) f = some (f a b)

module _ (fl : Float64) where
  open fl use {F, of_int, trunc, mul, div}

  abbrev pub rank : F → ℕ → ℤ
  rank p n = trunc (mul p (of_int (pos n)))

  unfoldable pub percentile : List Duration → F → Option Duration
  percentile [] p = some (pos 0)
  percentile (d ∷ ds) p = let n = length (d ∷ ds) in entry (d ∷ ds) (clamp_index (rank p n) n)

  abbrev pub half : F
  half = div (of_int (pos 50)) (of_int (pos 100))

  abbrev pub most : F
  most = div (of_int (pos 95)) (of_int (pos 100))

  abbrev pub figures : List Duration → Option Stats
  figures [] = some no_stats
  figures (d ∷ ds) =
      let sorted = sort (d ∷ ds) in
      both (percentile sorted half) (percentile sorted most) (summary d ds)

  -- The series, trimmed, and its figures.
  unfoldable pub stats : LatencySeries → ℤ → LatencySeries × Option Stats
  stats s now = let s' = trim s now in (s', figures (durations s'))
