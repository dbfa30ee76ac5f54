-- ===== src/Stt/Gate/Silence.antt =====
-- The silence gate against the history of levels that it was fed.
use pi_live_captions.Base.{
  List, [], ◌∷◌, Bool, true, false, not, ◌&&◌, ◌||◌, ◌≡◌, refl, ap, ◌∙◌, ◌-ℤ◌, ltb_ℤ, leb_ℤ,
  if◌then◌else◌, arith, -ℤ_parts, Bool-cases, inl, inr,
}
use pi_live_captions.Audio.Float.{Float64}
use pi_live_captions.Audio.Format.{Duration}
use pi_live_captions.Stt.Gate.{
  Gate, PauseConfig, new_gate, observe_level, silence_threshold_db, hear, quiet, announce, baseline,
}

-- Some offset of the list lies `hold` or more before `at`.
abbrev pub reaches : Duration → Duration → List Duration → Bool
reaches hold at [] = false
reaches hold at (b ∷ bs) = leb_ℤ hold (at -ℤ b) || reaches hold at bs

-- Of the offsets, newest first, an earlier one lies `hold` or more before a later one.
abbrev pub spans : Duration → List Duration → Bool
spans hold [] = false
spans hold (a ∷ older) = reaches hold a (a ∷ older) || spans hold older

abbrev is_cons : List Duration → Bool
is_cons [] = false
is_cons (x ∷ xs) = true

module _ (fl : Float64) where
  open fl use {F, lt}

  -- The offsets of the silence that is still going on, newest first as the history is.
  abbrev pub silent_run : List (F × Duration) → List Duration
  silent_run [] = []
  silent_run ((db, at) ∷ h) = if lt (silence_threshold_db fl) db then [] else at ∷ silent_run h

  -- The gate after a history of observations, newest first.
  abbrev pub observe_all : PauseConfig → List (F × Duration) → Gate
  observe_all cfg [] = new_gate cfg
  observe_all cfg ((db, at) ∷ h) = (observe_level fl (observe_all cfg h) db at).0

record Tracks (cfg : PauseConfig) (run : List Duration) (g : Gate) : Type 0 where
  config : g.cfg ≡ cfg
  silence : g.in_silence ≡ is_cons run
  start :
      (x : Duration)
      → g.in_silence ≡ true
      → reaches cfg.hold x run ≡ leb_ℤ cfg.hold (x -ℤ g.sil_start)
  paused : g.active ≡ not (spans cfg.hold run)

-- The start of the silence is the least offset in it.
reaches-baseline :
    (hold x at s : Duration) (silent : Bool) (run : List Duration)
    → silent ≡ is_cons run
    → (silent ≡ true → reaches hold x run ≡ leb_ℤ hold (x -ℤ s))
    → reaches hold x (at ∷ run) ≡ leb_ℤ hold (x -ℤ (if not silent || ltb_ℤ at s then at else s))
reaches-baseline hold x at s silent [] e h = ground arith
reaches-baseline hold x at s silent (b ∷ run) e h = ground (arith, h e, -ℤ_parts x at, -ℤ_parts x s)

hear-Tracks : (cfg : PauseConfig) (g : Gate) → g.cfg ≡ cfg → Tracks cfg [] (announce (hear g)).0
unfolding hear announce
hear-Tracks cfg g e = record {
  config = ground arith;
  silence = ground arith;
  start = λ x h. ground arith;
  paused = ground arith;
}

quiet_effect :
    (g : Gate) (at : Duration)
    → let q = (announce (quiet g at)).0 in
      (q.cfg ≡ g.cfg)
      × (q.in_silence ≡ true)
      × (q.sil_start ≡ baseline g at)
      × (q.active ≡ (g.active && not (leb_ℤ g.cfg.hold (at -ℤ baseline g at))))
unfolding quiet announce
quiet_effect g at = ground arith

quiet-Tracks :
    (cfg : PauseConfig) (run : List Duration) (g : Gate) (at : Duration)
    → Tracks cfg run g
    → Tracks cfg (at ∷ run) (announce (quiet g at)).0
unfolding baseline
quiet-Tracks cfg run g at t = record {
  config = e.0 ∙ t.config;
  silence = e.1;
  start = λ x h. rw e.2 (from x);
  paused = ground (arith, e.3, from at, t.paused, t.config);
}
  where
    e :
        let q = (announce (quiet g at)).0 in
        (q.cfg ≡ g.cfg)
        × (q.in_silence ≡ true)
        × (q.sil_start ≡ baseline g at)
        × (q.active ≡ (g.active && not (leb_ℤ g.cfg.hold (at -ℤ baseline g at))))
    e = quiet_effect g at

    from : (x : Duration) → reaches cfg.hold x (at ∷ run) ≡ leb_ℤ cfg.hold (x -ℤ baseline g at)
    from x = reaches-baseline cfg.hold x at g.sil_start g.in_silence run t.silence (t.start x)

module _ (fl : Float64) where
  open fl use {F, lt}

  observe_level_on :
      (g : Gate) (db : F) (at : Duration)
      → g.cfg.enabled ≡ true
      → observe_level fl g db at
        ≡ (if lt (silence_threshold_db fl) db then announce (hear g) else announce (quiet g at))
  unfolding observe_level
  observe_level_on g db at on = simp on

  observe_level-Tracks :
      (cfg : PauseConfig) (run : List Duration) (g : Gate) (db : F) (at : Duration)
      → cfg.enabled ≡ true
      → Tracks cfg run g
      → Tracks cfg
          (if lt (silence_threshold_db fl) db then [] else at ∷ run)
          (observe_level fl g db at).0
  observe_level-Tracks cfg run g db at on t =
      rw (observe_level_on g db at (ap (λ (c : PauseConfig). c.enabled) t.config ∙ on))
        (elim (Bool-cases (lt (silence_threshold_db fl) db)) [
          | inl e ↦ rw e (hear-Tracks cfg g t.config)
          | inr e ↦ rw e (quiet-Tracks cfg run g at t)
        ])

  observe_all-Tracks :
      (cfg : PauseConfig) (h : List (F × Duration))
      → cfg.enabled ≡ true
      → Tracks cfg (silent_run fl h) (observe_all fl cfg h)
  unfolding new_gate
  observe_all-Tracks cfg [] on = record {
    config = refl;
    silence = refl;
    start = λ x h. cc;
    paused = refl;
  }
  observe_all-Tracks cfg ((db, at) ∷ h) on =
      observe_level-Tracks cfg (silent_run fl h) (observe_all fl cfg h) db at on
        (observe_all-Tracks cfg h on)

  observe_all_off :
      (cfg : PauseConfig) (h : List (F × Duration))
      → cfg.enabled ≡ false
      → observe_all fl cfg h ≡ new_gate cfg
  unfolding observe_level new_gate
  observe_all_off cfg [] off = refl
  observe_all_off cfg ((db, at) ∷ h) off = ground (arith, observe_all_off cfg h off)

  -- After any history the gate is closed exactly when pausing is enabled and, within the silence
  -- that is still going on, some offset lies `hold` or more before a later one.
  pub observe_all-active :
      (cfg : PauseConfig) (h : List (F × Duration))
      → (observe_all fl cfg h).active ≡ not (cfg.enabled && spans cfg.hold (silent_run fl h))
  unfolding new_gate
  observe_all-active cfg h = elim (Bool-cases cfg.enabled) [
    | inl on ↦ (observe_all-Tracks cfg h on).paused ∙ ground (arith, on)
    | inr off ↦ ap (λ (g : Gate). g.active) (observe_all_off cfg h off) ∙ ground (arith, off)
  ]
