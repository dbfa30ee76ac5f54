-- ===== src/Audio/Format.antt =====
-- internal/audio/source.go: the PCM format and the frames that every source emits.
-- A time.Duration is an integer of nanoseconds and a time.Time is `none` for the zero time.
use pi_live_captions.Base.{
  ℕ, suc, ◌*◌, ◌/◌, ◌%◌, List, Option, Bool, ℤ, pos, negsuc, ◌-ℤ◌, ◌==◌, if◌then◌else◌,
}
use pi_live_captions.Audio.Float.{Float64}

abbrev pub Duration : Type 0
Duration = ℤ

abbrev pub Time : Type 0
Time = Option ℤ

abbrev pub second : Duration
second = pos 1_000_000_000

pub record Format : Type 0 where
  pub sample_rate : ℕ
  pub channels : ℕ
  pub bit_depth : ℕ

abbrev pub pipeline_format : Format
pipeline_format = record { sample_rate = 16000; channels = 1; bit_depth = 16 }

pub bytes_per_second : Format → ℕ
bytes_per_second f = f.sample_rate * f.channels * f.bit_depth / 8

-- Go's n % d, whose sign is that of n.
abbrev pub rem : ℤ → ℕ → ℤ
rem (pos n) d = pos (n % d)
rem (negsuc n) d = pos 0 -ℤ pos (suc n % d)

module _ (fl : Float64) where
  open fl use {of_int, trunc, mul, div}

  -- The time that a byte count represents.
  unfoldable pub duration : Format → ℤ → Duration
  unfolding bytes_per_second
  duration f nbytes =
      let bps = bytes_per_second f in
      if bps == 0
      then pos 0
      else trunc (mul (div (of_int nbytes) (of_int (pos bps))) (of_int second))

  -- The byte count of a duration, rounded towards zero to a whole sample frame.
  unfoldable pub bytes_for : Format → Duration → ℤ
  unfolding bytes_per_second
  bytes_for f d =
      let frame_size = f.channels * f.bit_depth / 8 in
      let n = trunc (mul (div (of_int d) (of_int second)) (of_int (pos (bytes_per_second f)))) in
      if frame_size == 0 then pos 0 else n -ℤ rem n frame_size

pub record Frame : Type 0 where
  pub noise_gated : Bool
  pub noise_gate_open : Bool
  pub pcm : List ℕ
  pub offset : Duration
  pub captured_at : Time
