-- ===== src/Audio/NoiseGate/Opening.antt =====
-- When the noise gate lets sound through.
use pi_live_captions.Base.{
  List, [], ◌∷◌, Bool, true, false, ◌&&◌, ◌||◌, ◌≡◌, refl, sym, subst, ap, ◌∙◌, ℤ, ◌-ℤ◌, -ℤ_parts,
  ◌≤ℤ◌, ltb_ℤ, leb_ℤ, map, if◌then◌else◌, if_cases, arith,
}
use pi_live_captions.Audio.Float.{Float64}
use pi_live_captions.Audio.Format.{Duration, Frame}
use pi_live_captions.Audio.Level.{rms_dbfs}
use pi_live_captions.Audio.NoiseGate.{
  NoiseGate, NoiseSettings, release, decide, record_levels, process, process_all,
}
use pi_live_captions.Audio.NoiseGate.Contract.{passed, AreGated, Alternates, process_all_lem}

-- Some of the offsets lies less than `hold` before `at`.
abbrev pub is_near : Duration → Duration → List Duration → Bool
is_near hold at [] = false
is_near hold at (o ∷ os) = ltb_ℤ (at -ℤ o) hold || is_near hold at os

-- The offsets do not go back from `last` on.
abbrev pub InOrder : Duration → List (Frame × ℤ × Bool) → Type 0
InOrder last [] = Unit
InOrder last ((f, now, taken) ∷ fs) = (last ≤ℤ f.offset) × InOrder f.offset fs

-- The marks of the frames that come out.
abbrev pub marks : List Frame → List Bool
marks = map λ f. f.noise_gate_open

module _ (fl : Float64) where
  open fl use {F, lt}

  abbrev pub is_loud : NoiseSettings F → Frame → Bool
  is_loud s f = lt s.threshold_dbfs (rms_dbfs fl f.pcm)

  -- Whether each frame is let through, after sounds above the threshold at the offsets `os`: it is
  -- loud itself, or it follows one of them by less than the release.
  abbrev pub openings : NoiseSettings F → List Duration → List Frame → List Bool
  openings s os [] = []
  openings s os (f ∷ fs) =
      (is_loud s f || is_near (release fl s) f.offset os)
      ∷ openings s (if is_loud s f then f.offset ∷ os else os) fs

  -- The gate is open for a quiet frame at `at` if and only if a sound is near.
  abbrev Agrees : NoiseGate F → List Duration → Type 0
  Agrees g os =
      (at : Duration)
      → g.last_offset ≤ℤ at
      → (g.open_now && ltb_ℤ (at -ℤ g.last_above) (release fl g.settings))
        ≡ is_near (release fl g.settings) at os

  covers : (x b y n : Bool) → (y ≡ true → x ≡ true) → (b && y) ≡ n → x ≡ (x || n)
  covers true b y n h e = refl
  covers false b true n h e = absurd (ground (arith, h refl))
  covers false b false n h e = ground arith

  next : NoiseGate F → Frame → ℤ → NoiseGate F
  next g f now = decide fl (record_levels fl g f now) (rms_dbfs fl f.pcm) f.offset

  -- What a frame, loud or not, makes of the gate.
  record Keeps (g : NoiseGate F) (os : List Duration) (f : Frame) (loud : Bool) (g' : NoiseGate F)
      : Type 0 where
    settings : g'.settings ≡ g.settings
    offset : g'.last_offset ≡ f.offset
    above : g'.last_above ≤ℤ f.offset
    opened : g'.open_now ≡ (loud || is_near (release fl g.settings) f.offset os)
    agrees : Agrees g' (if loud then f.offset ∷ os else os)

  level_kept :
      (g : NoiseGate F) (f : Frame)
      → g.last_offset ≤ℤ f.offset
      → (if ltb_ℤ f.offset g.last_offset then f.offset else g.last_above) ≡ g.last_above
  level_kept g f o =
      if_cases (λ x. x ≡ g.last_above) (ltb_ℤ f.offset g.last_offset) (λ h. absurd (ground arith))
        (λ h. refl)

  -- The gate at a quiet frame, with its levels recorded.
  after_quiet : NoiseGate F → Frame → ℤ → Duration → NoiseGate F
  after_quiet g f now above =
      let g₁ = record (record_levels fl g f now) { last_above = above } in
      if g₁.open_now && leb_ℤ (release fl g₁.settings) (f.offset -ℤ above)
      then record g₁ { open_now = false }
      else g₁

  late :
      (hold x y : ℤ) (b : Bool) → (b && leb_ℤ hold x) ≡ true → x ≤ℤ y → (b && ltb_ℤ y hold) ≡ false
  late hold x y false e h = refl
  late hold x y true e h = ground arith

  soon : (hold x : ℤ) (b : Bool) → (b && leb_ℤ hold x) ≡ false → b ≡ (b && ltb_ℤ x hold)
  soon hold x false e = refl
  soon hold x true e = ground arith

  after_quiet-Keeps :
      (g : NoiseGate F) (os : List Duration) (f : Frame) (now : ℤ)
      → g.last_above ≤ℤ g.last_offset
      → g.last_offset ≤ℤ f.offset
      → Agrees g os
      → Keeps g os f false (after_quiet g f now g.last_above)
  unfolding after_quiet record_levels
  after_quiet-Keeps g os f now a o v =
      let hold = release fl g.settings in
      let x = f.offset -ℤ g.last_above in
      if_cases (Keeps g os f false) (g.open_now && leb_ℤ hold x)
        (λ h. record {
          settings = refl;
          offset = refl;
          above = omega arith;
          opened = sym (late hold x x g.open_now h (omega arith)) ∙ v f.offset o;
          agrees = λ at le.
              sym (
                late hold x (at -ℤ g.last_above) g.open_now h
                  (omega (arith, le, -ℤ_parts at g.last_above, -ℤ_parts f.offset g.last_above)))
              ∙ v at (omega (arith, o, le));
        })
        (λ h. record {
          settings = refl;
          offset = refl;
          above = omega arith;
          opened = soon hold x g.open_now h ∙ v f.offset o;
          agrees = λ at le. v at (omega (arith, o, le));
        })

  next-Keeps :
      (g : NoiseGate F) (os : List Duration) (f : Frame) (now : ℤ)
      → g.last_above ≤ℤ g.last_offset
      → g.last_offset ≤ℤ f.offset
      → Agrees g os
      → Keeps g os f (is_loud g.settings f) (next g f now)
  unfolding next decide record_levels after_quiet
  next-Keeps g os f now a o v = go (is_loud g.settings f)
    where
      g₁ : NoiseGate F
      g₁ = record_levels fl g f now

      louder :
          (at : Duration)
          → f.offset ≤ℤ at
          → ltb_ℤ (at -ℤ f.offset) (release fl g.settings) ≡ (
              ltb_ℤ (at -ℤ f.offset) (release fl g.settings)
              || is_near (release fl g.settings) at os)
      louder at h =
          covers (ltb_ℤ (at -ℤ f.offset) (release fl g.settings)) g.open_now
            (ltb_ℤ (at -ℤ g.last_above) (release fl g.settings))
            (is_near (release fl g.settings) at os)
            (λ n. ground (arith, a, o, -ℤ_parts at g.last_above, -ℤ_parts at f.offset))
            (v at (omega (arith, o, h)))

      go :
          (loud : Bool)
          → Keeps g os f loud (
              if loud
              then record g₁ { open_now = true; last_above = f.offset }
              else after_quiet g f now g₁.last_above)
      go false =
          subst (λ x. Keeps g os f false (after_quiet g f now x)) (sym (level_kept g f o))
            (after_quiet-Keeps g os f now a o v)
      go true = record {
        settings = refl;
        offset = refl;
        above = omega arith;
        opened = refl;
        agrees = λ at h. louder at h;
      }

  run_openings :
      (g : NoiseGate F) (os : List Duration) (fs : List (Frame × ℤ × Bool))
      → g.last_above ≤ℤ g.last_offset
      → InOrder g.last_offset fs
      → Agrees g os
      → marks (process_all fl g fs).1 ≡ openings g.settings os (passed fs)
  unfolding process_all process next
  run_openings g os [] a o v = refl
  run_openings g os ((f, now, false) ∷ fs) a o v = refl
  run_openings g os ((f, now, true) ∷ fs) a (o, r) v =
      let k = next-Keeps g os f now a o v in
      let loud = is_loud g.settings f in
      let os' = if loud then f.offset ∷ os else os in
      (λ i.
        k.opened i
        ∷ run_openings (next g f now) os' fs
            (subst (λ x. (next g f now).last_above ≤ℤ x) (sym k.offset) k.above)
            (subst (λ x. InOrder x fs) (sym k.offset) r) k.agrees i)
      ∙ ap (λ s. (loud || is_near (release fl g.settings) f.offset os) ∷ openings s os' (passed fs))
          k.settings

  -- The last sound that an open gate knows of.
  abbrev pub sounds : NoiseGate F → List Duration
  sounds g = if g.open_now then g.last_above ∷ [] else []

  -- Of frames whose offsets do not go back, sent through a gate: up to the first that is not taken
  -- before the context is done, each comes out with its own times, in order. It comes out unchanged
  -- if it is louder than the threshold, or less than the release behind one that was (or behind the
  -- last sound before them, if the gate was open); else as silence of the same length; and it says
  -- which. The edges reported turn the gate over one by one, from its state before the frames to
  -- its state after them.
  pub process_all-openings :
      (g : NoiseGate F) (fs : List (Frame × ℤ × Bool))
      → g.last_above ≤ℤ g.last_offset
      → InOrder g.last_offset fs
      → AreGated (passed fs) (process_all fl g fs).1
        × (marks (process_all fl g fs).1 ≡ openings g.settings (sounds g) (passed fs))
        × Alternates g.open_now (process_all fl g fs).2 (process_all fl g fs).0.open_now
  process_all-openings g fs a o =
      let (gated, edges) = process_all_lem fl g fs in
      (gated, run_openings g (sounds g) fs a o (known g.open_now), edges)
    where
      known :
          (b : Bool) (at : Duration)
          → g.last_offset ≤ℤ at
          → (b && ltb_ℤ (at -ℤ g.last_above) (release fl g.settings))
            ≡ is_near (release fl g.settings) at (if b then g.last_above ∷ [] else [])
      known true at h = ground arith
      known false at h = refl
