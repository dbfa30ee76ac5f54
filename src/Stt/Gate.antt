-- ===== src/Stt/Gate.antt =====
-- internal/stt/gate.go: the silence gate. Its lock makes each operation atomic.
pub mod Silence
use pi_live_captions.Base.{
  ℕ, suc, List, [], ◌∷◌, Bool, true, false, not, ◌&&◌, ◌||◌, ℤ, pos, negsuc, ◌-ℤ◌, ltb_ℤ, leb_ℤ,
  if◌then◌else◌,
}
use pi_live_captions.Audio.Float.{Float64}
use pi_live_captions.Audio.Format.{Duration, Frame}
use pi_live_captions.Audio.Level.{rms_dbfs}

pub record PauseConfig : Type 0 where
  pub enabled : Bool
  pub hold : Duration

-- `changed` numbers the channel that the next transition closes: to close it and to make a fresh
-- one is to go on to the next number.
pub record Gate : Type 0 where
  pub cfg : PauseConfig
  pub active : Bool
  pub in_silence : Bool
  pub sil_start : Duration
  pub changed : ℕ

unfoldable pub new_gate : PauseConfig → Gate
new_gate cfg = record {
  cfg = cfg;
  active = true;
  in_silence = false;
  sil_start = pos 0;
  changed = 0;
}

-- The branches of ObserveLevel, with what each reports; the channel is replaced by `announce`.
hear : Gate → Gate × Bool
hear g =
    if g.active
    then (record g { in_silence = false }, false)
    else (record g { in_silence = false; active = true }, true)

baseline : Gate → Duration → Duration
baseline g at = if not g.in_silence || ltb_ℤ at g.sil_start then at else g.sil_start

quiet : Gate → Duration → Gate × Bool
unfolding baseline
quiet g at =
    let start = baseline g at in
    let g' = record g { in_silence = true; sil_start = start } in
    if g.active && leb_ℤ g.cfg.hold (at -ℤ start)
    then (record g' { active = false }, true)
    else (g', false)

announce : Gate × Bool → Gate × Bool
announce (g, c) = if c then (record g { changed = suc g.changed }, true) else (g, false)

module _ (fl : Float64) where
  open fl use {F, of_int, lt}

  abbrev pub silence_threshold_db : F
  silence_threshold_db = of_int (negsuc 44)

  unfoldable pub observe_level : Gate → F → Duration → Gate × Bool
  unfolding hear quiet announce
  observe_level g db at =
      if not g.cfg.enabled
      then (g, false)
      else if lt silence_threshold_db db
      then announce (hear g)
      else announce (quiet g at)

  unfoldable pub observe : Gate → Frame → Gate × Bool
  unfolding observe_level
  observe g f =
      if f.noise_gated
      then observe_level g (if f.noise_gate_open then of_int (pos 0) else of_int (negsuc 99))
          f.offset
      else observe_level g (rms_dbfs fl f.pcm) f.offset
