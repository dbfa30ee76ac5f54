-- ===== src/Audio/NoiseGate/Peaks.antt =====
-- The peaks that the noise gate keeps.
use pi_live_captions.Base.{
  List, [], ◌∷◌, false, ◌≡◌, refl, ℤ, ◌-ℤ◌, -ℤ_parts, ◌≤ℤ◌, ltb_ℤ, if◌then◌else◌, if_cases, All,
  arith, Bool-cases, inl, inr,
}
use pi_live_captions.Audio.Format.{second}
use pi_live_captions.Audio.NoiseGate.{PeakSample, trim_peaks}

module _ {F : Type 0} where
  -- The peaks of the last second.
  abbrev pub recent : ℤ → List (PeakSample F) → List (PeakSample F)
  recent now [] = []
  recent now (p ∷ ps) = if ltb_ℤ second (now -ℤ p.at) then recent now ps else p ∷ recent now ps

  -- Every peak is no older than the ones before it.
  abbrev pub IsOrdered : List (PeakSample F) → Type 0
  IsOrdered [] = Unit
  IsOrdered (p ∷ ps) = All (λ (q : PeakSample F). p.at ≤ℤ q.at) ps × IsOrdered ps

  recent_unchanged :
      (now : ℤ) (p : PeakSample F) (ps : List (PeakSample F))
      → ltb_ℤ second (now -ℤ p.at) ≡ false
      → All (λ (q : PeakSample F). p.at ≤ℤ q.at) ps
      → recent now ps ≡ ps
  recent_unchanged now p [] e a = refl
  recent_unchanged now p (q ∷ ps) e (le, a) = rw (recent_unchanged now p ps e a) (
      if_cases (λ r. r ≡ q ∷ ps) (ltb_ℤ second (now -ℤ q.at))
        (λ c. ground (arith, -ℤ_parts now p.at, -ℤ_parts now q.at)) (λ c. refl))

  -- If the peaks were added as the clock went on, the trimming from the front leaves exactly the
  -- peaks of the last second.
  pub trim_peaks-recent :
      (now : ℤ) (ps : List (PeakSample F)) → IsOrdered ps → trim_peaks now ps ≡ recent now ps
  unfolding trim_peaks
  trim_peaks-recent now [] o = refl
  trim_peaks-recent now (p ∷ ps) (a, o) = elim (Bool-cases (ltb_ℤ second (now -ℤ p.at))) [
    | inl c ↦ rw c (trim_peaks-recent now ps o)
    | inr c ↦ rw c (rw (recent_unchanged now p ps c a) refl)
  ]
