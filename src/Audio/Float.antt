-- ===== src/Audio/Float.antt =====
-- What the program uses of float64. The type and its operations are a parameter of the model.
use mathlib.Core.Bool.{Bool}
use pi_live_captions.Base.{ℤ}

pub record Float64 : Type 1 where
  pub F : Type 0
  pub of_int : ℤ → F  -- float64(n)
  pub trunc : F → ℤ  -- int(x), time.Duration(x)
  pub add : F → F → F
  pub sub : F → F → F
  pub mul : F → F → F
  pub div : F → F → F
  pub sqrt : F → F
  pub log10 : F → F
  pub abs : F → F
  pub max : F → F → F
  pub lt : F → F → Bool
  pub eq : F → F → Bool
  pub is_nan : F → Bool
  pub is_inf : F → Bool
