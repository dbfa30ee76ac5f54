-- ===== src/Stt/Engine.antt =====
-- internal/stt: what the recognizers' protocols share.
use pi_live_captions.Base.{ℕ, zero, suc, List, [], ◌∷◌, length, leb, if◌then◌else◌}
use pi_live_captions.Audio.Float.{Float64}
use pi_live_captions.Audio.Format.{Duration, second}

module _ {A : Type 0} where
  abbrev pub take : ℕ → List A → List A
  take zero xs = []
  take (suc n) [] = []
  take (suc n) (x ∷ xs) = x ∷ take n xs

  -- CapKeyterms
  unfoldable pub cap_keyterms : List A → ℕ → List A
  cap_keyterms terms max = if leb (length terms) max then terms else take max terms

module _ (fl : Float64) where
  open fl use {F, of_int, trunc, mul}

  abbrev pub seconds_to_duration : F → Duration
  seconds_to_duration s = trunc (mul s (of_int second))
