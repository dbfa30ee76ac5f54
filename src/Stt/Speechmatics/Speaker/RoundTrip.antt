-- ===== src/Stt/Speechmatics/Speaker/RoundTrip.antt =====
-- A speaker's label is read back.
use pi_live_captions.Base.{
  ℕ, zero, suc, ◌+◌, ◌/◌, ◌%◌, ◌^◌, ◌<◌, [], ◌∷◌, ◌++◌, true, false, ◌≡◌, refl, Text, is_empty,
  is_digit, all_digits, digits, decimal, value, value-digits, all_digits-digits, ltb, if◌then◌else◌,
  arith,
}
use pi_live_captions.Stt.Speechmatics.Speaker.{trailing_digits, parse_speaker}

stopped : (p : Text) (c : ℕ) (ds : Text) → is_digit c ≡ false → all_digits (p ++ c ∷ ds) ≡ false
stopped [] c ds h = ground arith
stopped (x ∷ p) c ds h = ground (arith, stopped p c ds h)

trailing_digits-digits : (ds : Text) → all_digits ds ≡ true → trailing_digits ds ≡ ds
unfolding trailing_digits
trailing_digits-digits [] h = refl
trailing_digits-digits (d ∷ ds) h = rw h refl

trailing_digits-append :
    (p : Text) (c : ℕ) (ds : Text)
    → is_digit c ≡ false
    → all_digits ds ≡ true
    → trailing_digits (p ++ c ∷ ds) ≡ ds
unfolding trailing_digits
trailing_digits-append [] c ds h a = rw (stopped [] c ds h) (trailing_digits-digits ds a)
trailing_digits-append (x ∷ p) c ds h a =
    rw (stopped (x ∷ p) c ds h) (trailing_digits-append p c ds h a)

digits-ne-empty : (fuel n : ℕ) (out : Text) → n < fuel → is_empty (digits fuel n out) ≡ false
unfolding digits
digits-ne-empty zero n out h = elim h [ ]
digits-ne-empty (suc fuel) n out h =
    ground (arith, digits-ne-empty fuel (n / 10) ((b'0' + n % 10) ∷ out))

value-decimal : (n : ℕ) → value 0 (decimal n) ≡ n
unfolding decimal value
value-decimal n = value-digits (suc n) n [] (omega arith)

all_digits-decimal : (n : ℕ) → all_digits (decimal n) ≡ true
unfolding decimal
all_digits-decimal n = all_digits-digits (suc n) n [] refl

decimal-ne-empty : (n : ℕ) → is_empty (decimal n) ≡ false
unfolding decimal
decimal-ne-empty n = digits-ne-empty (suc n) n [] (omega arith)

settled :
    (ds : Text) (n : ℕ)
    → is_empty ds ≡ false
    → value 0 ds ≡ n
    → n < 2 ^ 63
    → (if is_empty ds then 0 else if ltb (value 0 ds) (2 ^ 63) then value 0 ds else 0) ≡ n
settled ds n e v lt = ground arith

-- The number of a label, whatever stands before it, is read back if an int64 holds it.
pub parse_speaker-decimal :
    (p : Text) (c n : ℕ) → is_digit c ≡ false → n < 2 ^ 63 → parse_speaker (p ++ c ∷ decimal n) ≡ n
unfolding parse_speaker
parse_speaker-decimal p c n h lt =
    rw (trailing_digits-append p c (decimal n) h (all_digits-decimal n))
      (settled (decimal n) n (decimal-ne-empty n) (value-decimal n) lt)
