-- ===== src/Metrics/Latency/Window.antt =====
-- What a series of latencies keeps.
use pi_live_captions.Base.{
  ℕ, zero, suc, ◌-◌, ◌≤◌, List, [], ◌∷◌, ◌≡◌, ℤ, pos, ◌≤ℤ◌, ltb_ℤ, max_ℤ, length, ltb, if_cases,
  All, All-append, arith,
}
use pi_live_captions.Audio.Format.{Duration}
use pi_live_captions.Metrics.Latency.{
  LatencySample, LatencySeries, latency_cap, drop, expired, first_kept, trim, observe,
}

-- A latency that is not negative, and within the greatest of the session.
abbrev pub IsSample : Duration → LatencySample → Type 0
IsSample m s = (pos 0 ≤ℤ s.d) × (s.d ≤ℤ m)

pub record IsValid (s : LatencySeries) : Type 0 where
  pub capped : length s.samples ≤ latency_cap
  pub sampled : All (IsSample s.session_max) s.samples

length-drop : (n : ℕ) (ss : List LatencySample) → length (drop n ss) ≡ length ss - n
length-drop zero ss = omega arith
length-drop (suc n) [] = omega arith
length-drop (suc n) (s ∷ ss) = omega (arith, length-drop n ss)

All-drop :
    (P : LatencySample → Type 0) (n : ℕ) (ss : List LatencySample) → All P ss → All P (drop n ss)
All-drop P zero ss a = a
All-drop P (suc n) [] a = tt
All-drop P (suc n) (s ∷ ss) (p, a) = All-drop P n ss a

few_kept : (now : ℤ) (ss : List LatencySample) → length ss - first_kept now ss ≤ latency_cap
unfolding first_kept
few_kept now ss =
    if_cases (λ i. length ss - i ≤ latency_cap) (ltb latency_cap (length ss - expired now ss))
      (λ e. omega arith) (λ e. ground arith)

weaken :
    (m d : Duration) (ss : List LatencySample) → All (IsSample m) ss → All (IsSample (max_ℤ m d)) ss
weaken m d [] a = tt
weaken m d (s ∷ ss) ((low, high), a) = ((low, ground arith), weaken m d ss a)

trim-IsValid :
    (s : LatencySeries) (now : ℤ) → All (IsSample s.session_max) s.samples → IsValid (trim s now)
unfolding trim
trim-IsValid s now a = record {
  capped = omega (arith, few_kept now s.samples, length-drop (first_kept now s.samples) s.samples);
  sampled = All-drop (IsSample s.session_max) (first_kept now s.samples) s.samples a;
}

-- Observing keeps a series valid, whatever the latency and the clock: no more samples than the cap,
-- none of them negative, none above the session's greatest.
pub observe-IsValid :
    (s : LatencySeries) (d : Duration) (now : ℤ) → IsValid s → IsValid (observe s d now)
unfolding observe
observe-IsValid s d now v =
    if_cases IsValid (ltb_ℤ d (pos 0)) (λ e. v)
      (λ e. trim-IsValid _ now (
        All-append (IsSample (max_ℤ s.session_max d)) s.samples _
          (weaken s.session_max d s.samples v.sampled) ((ground arith, ground arith), tt)))
