-- ===== src/Audio/Level.antt =====
-- internal/audio/level.go: the RMS level of a PCM buffer. A buffer is a list of bytes.
use pi_live_captions.Base.{
  ℕ, ◌+◌, ◌-◌, ◌*◌, ◌/◌, List, [], ◌∷◌, ℤ, pos, negsuc, length, ltb, ◌==◌, if◌then◌else◌,
}
use pi_live_captions.Audio.Float.{Float64}

-- int16(binary.LittleEndian.Uint16(…)) of two bytes.
pub sample : ℕ → ℕ → ℤ
sample lo hi = let u = lo + 256 * hi in if ltb u 32768 then pos u else negsuc (65535 - u)

-- The whole samples of a buffer; a trailing odd byte is ignored.
pub samples : List ℕ → List ℤ
unfolding sample
samples [] = []
samples (lo ∷ []) = []
samples (lo ∷ hi ∷ rest) = sample lo hi ∷ samples rest

module _ (fl : Float64) where
  open fl use {F, of_int, add, mul, div, sqrt, log10, lt, eq}

  pub silence_floor : F
  silence_floor = of_int (negsuc 99)

  pub full_scale16 : F
  full_scale16 = of_int (pos 32768)

  sum_squares : F → List ℤ → F
  sum_squares acc [] = acc
  sum_squares acc (s ∷ ss) = let v = of_int s in sum_squares (add acc (mul v v)) ss

  pub rms_dbfs : List ℕ → F
  unfolding silence_floor full_scale16 sum_squares samples
  rms_dbfs pcm =
      let n = length pcm / 2 in
      let rms = sqrt (div (sum_squares (of_int (pos 0)) (samples pcm)) (of_int (pos n))) in
      let db = mul (of_int (pos 20)) (log10 (div rms full_scale16)) in
      if n == 0
      then silence_floor
      else if eq rms (of_int (pos 0))
      then silence_floor
      else if lt db silence_floor
      then silence_floor
      else db
