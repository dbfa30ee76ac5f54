-- ===== src/Stt/Speechmatics/Speaker.antt =====
-- internal/stt/speechmatics/speechmatics.go: parseSpeaker, and strconv.Atoi on digits.
pub mod RoundTrip
use pi_live_captions.Base.{
  ℕ, zero, suc, ◌+◌, ◌-◌, ◌*◌, ◌^◌, ◌≤◌, List, [], ◌∷◌, ◌++◌, Bool, true, false, ◌&&◌, Text,
  is_empty, all_digits, value, ltb, leb, ◌==◌, if◌then◌else◌,
}

-- label[i:] for the least i from which all is digits.
unfoldable pub trailing_digits : Text → Text
trailing_digits [] = []
trailing_digits (c ∷ cs) = if all_digits (c ∷ cs) then c ∷ cs else trailing_digits cs

-- Atoi refuses what an int64 does not hold.
unfoldable pub parse_speaker : Text → ℕ
parse_speaker label =
    let digits = trailing_digits label in
    if is_empty digits then 0 else if ltb (value 0 digits) (2 ^ 63) then value 0 digits else 0
