-- ===== src/Metrics/Latency.antt =====
-- internal/metrics/metrics.go: a series of latencies over a window of time. The lock of the metrics
-- makes each operation atomic; a reading of the clock is an integer of nanoseconds.
pub mod Window
use pi_live_captions.Base.{
  ℕ, zero, suc, ◌+◌, ◌-◌, List, [], ◌∷◌, ◌++◌, Bool, ℤ, pos, ◌-ℤ◌, ltb_ℤ, max_ℤ, length, ltb,
  if◌then◌else◌,
}
use pi_live_captions.Audio.Format.{Duration}

pub record LatencySample : Type 0 where
  pub d : Duration
  pub at : ℤ

pub record LatencySeries : Type 0 where
  pub samples : List LatencySample
  pub session_max : Duration

abbrev pub latency_window : Duration
latency_window = pos 300_000_000_000

abbrev pub latency_cap : ℕ
latency_cap = 512

abbrev pub drop {ℓ} : {A : Type ℓ} → ℕ → List A → List A
drop zero ss = ss
drop (suc n) [] = []
drop (suc n) (s ∷ ss) = drop n ss

abbrev pub is_old : ℤ → LatencySample → Bool
is_old now s = ltb_ℤ latency_window (now -ℤ s.at)

-- The loop of trim: how many samples at the front are too old.
unfoldable pub expired : ℤ → List LatencySample → ℕ
expired now [] = 0
expired now (s ∷ ss) = let n = expired now ss in if is_old now s then suc n else 0

unfoldable pub first_kept : ℤ → List LatencySample → ℕ
first_kept now ss =
    let i = expired now ss in if ltb latency_cap (length ss - i) then length ss - latency_cap else i

unfoldable pub trim : LatencySeries → ℤ → LatencySeries
trim s now = record s { samples = drop (first_kept now s.samples) s.samples }

unfoldable pub observe : LatencySeries → Duration → ℤ → LatencySeries
observe s d now =
    if ltb_ℤ d (pos 0)
    then s
    else trim
        (record {
          samples = s.samples ++ record { d = d; at = now } ∷ [];
          session_max = max_ℤ s.session_max d;
        })
        now
