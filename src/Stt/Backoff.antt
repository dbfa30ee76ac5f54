-- ===== src/Stt/Backoff.antt =====
-- internal/stt/session.go: the waits between attempts. They are never negative, so they are numbers
-- of nanoseconds. The draw of the random generator is an argument.
use native.Mathlib.Numerals.{unary_clauses}
use pi_live_captions.Base.{
  ℕ, zero, suc, ◌+◌, ◌*◌, ◌/◌, ◌^◌, ◌≤◌, ◌<◌, ◌≡◌, refl, ltb, if◌then◌else◌, arith,
}

abbrev pub min_backoff : ℕ
min_backoff = 250_000_000

abbrev pub max_backoff : ℕ
max_backoff = 8_000_000_000

pub record IsBackoff (d : ℕ) : Type 0 where
  pub low : min_backoff ≤ d
  pub high : d ≤ max_backoff

unfoldable pub next_backoff : ℕ → ℕ
next_backoff d = if ltb max_backoff (d * 2) then max_backoff else d * 2

-- The time that sleepBackoff waits, with the generator's Int63n.
abbrev pub jittered : ℕ → (ℕ → ℕ) → ℕ
jittered d int63n = d / 2 + int63n (d / 2 + 1)

-- What the generator documents of Int63n.
abbrev pub IsDraw : (ℕ → ℕ) → Type 0
IsDraw int63n = (n : ℕ) → 0 < n → int63n n < n

pub jittered_low : (d : ℕ) (int63n : ℕ → ℕ) → IsBackoff d → min_backoff / 2 ≤ jittered d int63n
jittered_low d int63n b = ground (arith, b.low)

pub jittered_high :
    (d : ℕ) (int63n : ℕ → ℕ) → IsDraw int63n → IsBackoff d → jittered d int63n ≤ max_backoff
jittered_high d int63n i b = omega (arith, b.high, i (d / 2 + 1) (omega arith))

-- The wait after k attempts in a row that failed.
unfoldable pub backoff_after : ℕ → ℕ
backoff_after zero = min_backoff
backoff_after (suc k) = next_backoff (backoff_after k)

pub min_backoff-IsBackoff : IsBackoff min_backoff
min_backoff-IsBackoff = record { low = omega arith; high = omega arith }

pub next_backoff-IsBackoff : (d : ℕ) → IsBackoff d → IsBackoff (next_backoff d)
unfolding next_backoff
next_backoff-IsBackoff d b = record { low = ground (arith, b.low); high = ground (arith, b.high) }

doubled :
    (d p : ℕ)
    → d ≡ (if ltb max_backoff (min_backoff * p) then max_backoff else min_backoff * p)
    → next_backoff d
      ≡ (if ltb max_backoff (min_backoff * (p * 2)) then max_backoff else min_backoff * (p * 2))
unfolding next_backoff
doubled d p e = ground arith

power : (k : ℕ) → 2 ^ suc k ≡ 2 ^ k * 2
power k = simp unary_clauses

-- After k attempts in a row that failed, the wait is 250 ms doubled k times, but at most 8 s.
pub backoff_after_lem :
    (k : ℕ)
    → backoff_after k
      ≡ (if ltb max_backoff (min_backoff * 2 ^ k) then max_backoff else min_backoff * 2 ^ k)
unfolding backoff_after
backoff_after_lem zero = refl
backoff_after_lem (suc k) = rw (power k) (doubled (backoff_after k) (2 ^ k) (backoff_after_lem k))
