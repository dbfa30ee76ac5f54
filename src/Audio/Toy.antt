-- ===== src/Audio/Toy.antt =====
-- A stand-in for float64 on whole numbers, at which the definitions can be run.
use pi_live_captions.Base.{
  ℕ, suc, ◌+◌, ◌*◌, ◌/◌, ◌<◌, ◌<ℤ◌, arith, false, ℤ, pos, negsuc, ◌+ℤ◌, ◌-ℤ◌, sub_ℕ, pos_part,
  neg_part, quot_ℤ, ltb_ℤ, eqb_ℤ, max_ℤ,
}
use pi_live_captions.Audio.Float.{Float64}
use pi_live_captions.Audio.Format.{duration, pipeline_format}

abbrev pub times : ℤ → ℤ → ℤ
times a b =
    sub_ℕ (pos_part a * pos_part b + neg_part a * neg_part b)
      (pos_part a * neg_part b + neg_part a * pos_part b)

abbrev over : ℤ → ℤ → ℤ
over a (pos n) = quot_ℤ a n
over a (negsuc n) = pos 0 -ℤ quot_ℤ a (suc n)

abbrev pub toy : Float64
toy = record {
  F = ℤ;
  of_int = λ n. n;
  trunc = λ n. n;
  add = λ a b. a +ℤ b;
  sub = λ a b. a -ℤ b;
  mul = times;
  div = over;
  sqrt = λ n. n;
  log10 = λ n. n;
  abs = λ a. pos (pos_part a + neg_part a);
  max = max_ℤ;
  lt = ltb_ℤ;
  eq = eqb_ℤ;
  is_nan = λ n. false;
  is_inf = λ n. false;
}

-- Another stand-in, on millionths, with what is needed to tell the time of a byte.
of_micro : ℤ → ℤ
of_micro (pos n) = pos (n * 1_000_000)
of_micro (negsuc n) = negsuc (n * 1_000_000 + 999_999)

trunc_micro : ℤ → ℤ
trunc_micro (pos n) = pos (n / 1_000_000)
trunc_micro (negsuc n) = pos 0 -ℤ pos (suc n / 1_000_000)

mul_micro : ℤ → ℤ → ℤ
mul_micro (pos a) (pos b) = pos (a * b / 1_000_000)
mul_micro (pos a) (negsuc b) = pos 0 -ℤ pos (a * suc b / 1_000_000)
mul_micro (negsuc a) (pos b) = pos 0 -ℤ pos (suc a * b / 1_000_000)
mul_micro (negsuc a) (negsuc b) = pos (suc a * suc b / 1_000_000)

div_micro : ℤ → ℤ → ℤ
div_micro (pos a) (pos b) = pos (a * 1_000_000 / b)
div_micro (pos a) (negsuc b) = pos 0 -ℤ pos (a * 1_000_000 / suc b)
div_micro (negsuc a) (pos b) = pos 0 -ℤ pos (suc a * 1_000_000 / b)
div_micro (negsuc a) (negsuc b) = pos (suc a * 1_000_000 / suc b)

abbrev pub micro : Float64
unfolding of_micro trunc_micro mul_micro div_micro
micro = record toy { of_int = of_micro; trunc = trunc_micro; mul = mul_micro; div = div_micro }

time_of_bytes :
    (n : ℕ)
    → 0 < n
    → 0 < n * 1_000_000 * 1_000_000 / 32_000_000_000 * 1_000_000_000_000_000 / 1_000_000 / 1_000_000
time_of_bytes n h = omega arith

pub micro-time : (n : ℕ) → 0 < n → pos 0 <ℤ duration micro pipeline_format (pos n)
unfolding duration of_micro trunc_micro mul_micro div_micro
micro-time n h = omega (arith, time_of_bytes n h)
