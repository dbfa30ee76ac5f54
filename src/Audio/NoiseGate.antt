-- ===== src/Audio/NoiseGate.antt =====
-- internal/audio/noise_gate.go: the noise gate on the caption audio. Its lock makes each operation
-- atomic; the callbacks that it makes after the lock are returned, as none or the call's arguments.
-- A reading of the wall clock is an integer of nanoseconds.
pub mod Contract
pub mod Opening
pub mod Peaks
use pi_live_captions.Base.{
  ℕ, ◌/◌, List, [], ◌∷◌, ◌++◌, map, Bool, true, false, not, ◌&&◌, ◌||◌, Option, none, some, ℤ, pos,
  negsuc, ◌-ℤ◌, ltb_ℤ, leb_ℤ, if◌then◌else◌,
}
use pi_live_captions.Audio.Float.{Float64}
use pi_live_captions.Audio.Format.{Duration, Time, Frame, second}
use pi_live_captions.Audio.Level.{samples, silence_floor, full_scale16, rms_dbfs}

pub record NoiseSettings (F : Type 0) : Type 0 where
  pub threshold_dbfs : F
  pub release_sec : F

pub record PeakSample (F : Type 0) : Type 0 where
  pub at : ℤ
  pub db : F

pub record NoiseGate (F : Type 0) : Type 0 where
  pub settings : NoiseSettings F
  pub startup : NoiseSettings F
  pub open_now : Bool
  pub last_above : Duration
  pub last_offset : Duration
  pub last_sample : Time
  pub rms : F
  pub peaks : List (PeakSample F)

pub record NoiseSnapshot (F : Type 0) : Type 0 where
  pub settings : NoiseSettings F
  pub startup : NoiseSettings F
  pub defaults : NoiseSettings F
  pub open_now : Bool
  pub rms_dbfs : F
  pub peak_dbfs : F
  pub last_sample_at : Time
  pub stale : Bool

-- The arguments of OnEdge.
pub record Edge (F : Type 0) : Type 0 where
  pub opened : Bool
  pub at : Duration
  pub settings : NoiseSettings F
  pub observed : ℤ

-- trimPeaks; the peaks are in the order in which they were added.
unfoldable pub trim_peaks : {F : Type 0} → ℤ → List (PeakSample F) → List (PeakSample F)
trim_peaks now [] = []
trim_peaks now (p ∷ ps) =
    let later = trim_peaks now ps in if ltb_ℤ second (now -ℤ p.at) then later else p ∷ ps

-- make([]byte, len(pcm))
abbrev pub zeros : List ℕ → List ℕ
zeros = map λ b. 0

abbrev pub gated : Bool → Frame → Frame
gated o f = record f {
  noise_gated = true;
  noise_gate_open = o;
  pcm = if o then f.pcm else zeros f.pcm;
}

-- g.open != wasOpen
abbrev pub differs : Bool → Bool → Bool
differs true b = not b
differs false b = b

module _ (fl : Float64) where
  open fl use {F, of_int, trunc, mul, div, log10, abs, max, lt, eq, is_nan, is_inf}

  abbrev pub out_of_range : F → ℤ → ℤ → Bool
  out_of_range x low high = is_nan x || is_inf x || lt x (of_int low) || lt (of_int high) x

  -- Validate: true for no error.
  unfoldable pub validate : NoiseSettings F → Bool
  validate s =
      not (out_of_range s.threshold_dbfs (negsuc 99) (pos 0))
      && not (out_of_range s.release_sec (pos 0) (pos 60))

  unfoldable pub new_noise_gate : NoiseSettings F → Option (NoiseGate F)
  new_noise_gate s =
      if validate s
      then some (record {
        settings = s;
        startup = s;
        open_now = false;
        last_above = pos 0;
        last_offset = pos 0;
        last_sample = none;
        rms = silence_floor fl;
        peaks = [];
      })
      else none

  -- The gate, and the settings that OnSettings is told; none is the error.
  unfoldable pub set : NoiseGate F → NoiseSettings F → NoiseGate F × Option (NoiseSettings F)
  set g s = if validate s then (record g { settings = s }, some s) else (g, none)

  abbrev pub default_settings : NoiseSettings F
  default_settings = record { threshold_dbfs = of_int (negsuc 49); release_sec = of_int (pos 5) }

  abbrev pub peak_of : F → List (PeakSample F) → F
  peak_of peak [] = peak
  peak_of peak (p ∷ ps) = peak_of (max peak p.db) ps

  abbrev pub is_stale : ℤ → Time → Bool
  is_stale now none = true
  is_stale now (some at) = ltb_ℤ (pos 2_000_000_000) (now -ℤ at)

  unfoldable pub snapshot : NoiseGate F → ℤ → NoiseGate F × NoiseSnapshot F
  snapshot g now =
      let peaks = trim_peaks now g.peaks in
      (
        record g { peaks = peaks },
        record {
          settings = g.settings;
          startup = g.startup;
          defaults = default_settings;
          open_now = g.open_now;
          rms_dbfs = g.rms;
          peak_dbfs = peak_of (silence_floor fl) peaks;
          last_sample_at = g.last_sample;
          stale = is_stale now g.last_sample;
        },
      )

  abbrev pub peak_sample : F → List ℤ → F
  peak_sample peak [] = peak
  peak_sample peak (s ∷ ss) = peak_sample (max peak (abs (of_int s))) ss

  unfoldable pub peak_dbfs : List ℕ → F
  peak_dbfs pcm =
      let peak = peak_sample (of_int (pos 0)) (samples pcm) in
      if eq peak (of_int (pos 0))
      then silence_floor fl
      else max (silence_floor fl) (mul (of_int (pos 20)) (log10 (div peak (full_scale16 fl))))

  -- time.Duration(g.settings.ReleaseSec * float64(time.Second))
  abbrev pub release : NoiseSettings F → Duration
  release s = trunc (mul s.release_sec (of_int second))

  -- The gate after a frame's levels are recorded, before its decision.
  unfoldable pub record_levels : NoiseGate F → Frame → ℤ → NoiseGate F
  record_levels g f now = record g {
    last_above = if ltb_ℤ f.offset g.last_offset then f.offset else g.last_above;
    last_offset = f.offset;
    last_sample = some now;
    rms = rms_dbfs fl f.pcm;
    peaks = trim_peaks now g.peaks ++ record { at = now; db = peak_dbfs f.pcm } ∷ [];
  }

  unfoldable pub decide : NoiseGate F → F → Duration → NoiseGate F
  decide g db offset =
      if lt g.settings.threshold_dbfs db
      then record g { open_now = true; last_above = offset }
      else if g.open_now && leb_ℤ (release g.settings) (offset -ℤ g.last_above)
      then record g { open_now = false }
      else g

  unfoldable pub edge_of : NoiseGate F → NoiseGate F → Frame → ℤ → Option (Edge F)
  edge_of g g' f now =
      if differs g'.open_now g.open_now
      then some
          (record { opened = g'.open_now; at = f.offset; settings = g'.settings; observed = now })
      else none

  unfoldable pub process : NoiseGate F → Frame → ℤ → NoiseGate F × Frame × Option (Edge F)
  process g f now =
      let g' = decide (record_levels g f now) (rms_dbfs fl f.pcm) f.offset in
      (g', gated g'.open_now f, edge_of g g' f now)

  -- What Wrap makes of the frames in order, each with the clock at it and whether `out` takes it
  -- before the context is done, else the loop ends with it. The list ends where the source closes,
  -- or the context is done between two frames.
  unfoldable pub process_all :
      NoiseGate F → List (Frame × ℤ × Bool) → NoiseGate F × List Frame × List (Edge F)
  process_all g [] = (g, [], [])
  process_all g ((f, now, taken) ∷ fs) =
      let one = process g f now in
      let rest = process_all one.0 fs in
      let edges : List (Edge F) = if taken then rest.2 else [] in
      (
        if taken then rest.0 else one.0,
        if taken then one.1 ∷ rest.1 else [],
        elim one.2 [ none ↦ edges | some e ↦ e ∷ edges ],
      )
