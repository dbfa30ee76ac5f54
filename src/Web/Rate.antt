-- ===== src/Web/Rate.antt =====
-- How many reports the limit lets through.
use pi_live_captions.Base.{
  ℕ, ◌+◌, ◌-◌, ◌≤◌, List, [], ◌∷◌, Bool, true, false, none, some, ℤ, ◌-ℤ◌, -ℤ_parts, ◌≤ℤ◌, ◌<ℤ◌,
  leb, if◌then◌else◌, if_cases, All, ◌≡◌, arith,
}
use pi_live_captions.Audio.Format.{Time}
use pi_live_captions.Web.Limiter.{Limiter, rate_limit, rate_window, is_over, allow_report}

-- How many of the reports at these times are let through.
abbrev pub allowed : Limiter → List ℤ → ℕ
unfolding allow_report
allowed l [] = 0
allowed l (t ∷ ts) =
    let rest = allowed (allow_report l t).0 ts in if (allow_report l t).1 then rest + 1 else rest

-- A time less than a second after `start`.
abbrev pub IsWithin : ℤ → ℤ → Type 0
IsWithin start t = (start ≤ℤ t) × ((t -ℤ start) <ℤ rate_window)

-- The limiter's window began within this second, so it is not over in it.
abbrev IsCurrent : ℤ → Time → Type 0
IsCurrent start none = ⊥
IsCurrent start (some at) = IsWithin start at

still_current :
    (start t : ℤ) (at : Time) → IsCurrent start at → IsWithin start t → is_over at t ≡ false
still_current start t none c w = absurd c
still_current start t (some at) (c, d) (e, f) =
    ground (arith, -ℤ_parts t at, -ℤ_parts t start, -ℤ_parts at start)

-- What holds of a report's outcome, and the reports after it.
Bounds : List ℤ → ℕ → Limiter × Bool → Type 0
Bounds ts n (l, let_through) = (if let_through then allowed l ts + 1 else allowed l ts) ≤ n

outcome : Limiter → Limiter × Bool
outcome l = if leb rate_limit l.count then (l, false) else (record l { count = l.count + 1 }, true)

-- A report in a window that has room for `rate_limit - l.count`.
outcome-Bounds :
    (l : Limiter) (ts : List ℤ) (spare : ℕ)
    → allowed l ts ≤ (rate_limit - l.count) + spare
    → allowed (record l { count = l.count + 1 }) ts ≤ (rate_limit - (l.count + 1)) + spare
    → Bounds ts ((rate_limit - l.count) + spare) (outcome l)
unfolding Bounds outcome
outcome-Bounds l ts spare same more =
    if_cases (Bounds ts ((rate_limit - l.count) + spare)) (leb rate_limit l.count) (λ e. same)
      (λ e. ground (arith, more))

current :
    (start : ℤ) (l : Limiter) (ts : List ℤ)
    → IsCurrent start l.window_at
    → All (IsWithin start) ts
    → allowed l ts ≤ (rate_limit - l.count) + 0
unfolding allow_report Bounds outcome
current start l [] c a = omega arith
current start l (t ∷ ts) c (w, a) =
    if_cases (λ l'. Bounds ts ((rate_limit - l.count) + 0) (outcome l')) (is_over l.window_at t)
      (λ e. absurd (ground (arith, still_current start t l.window_at c w)))
      (λ e.
        outcome-Bounds l ts 0 (current start l ts c a)
          (current start (record l { count = l.count + 1 }) ts c a))

in_any_window :
    (start : ℤ) (l : Limiter) (ts : List ℤ)
    → All (IsWithin start) ts
    → allowed l ts ≤ (rate_limit - l.count) + rate_limit
unfolding allow_report Bounds outcome
in_any_window start l [] a = omega arith
in_any_window start l (t ∷ ts) (w, a) =
    if_cases (λ l'. Bounds ts ((rate_limit - l.count) + rate_limit) (outcome l'))
      (is_over l.window_at t)
      (λ e. omega (arith, current start (record { window_at = some t; count = 1 }) ts w a))
      (λ e.
        outcome-Bounds l ts rate_limit (in_any_window start l ts a)
          (in_any_window start (record l { count = l.count + 1 }) ts a))

-- Whatever was reported before, of the reports at times within one second (in any order) at most 40
-- are let through: 20 in each of the two windows that the second can meet.
pub allowed-bound :
    (start : ℤ) (l : Limiter) (ts : List ℤ) → All (IsWithin start) ts → allowed l ts ≤ 40
allowed-bound start l ts a = omega (arith, in_any_window start l ts a)
