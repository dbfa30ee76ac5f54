-- ===== src/Web/Limiter.antt =====
-- internal/web/server.go: the fixed-window limit on viewers' reports.
use pi_live_captions.Base.{
  ℕ, ◌+◌, Bool, true, false, none, some, ℤ, ◌-ℤ◌, leb_ℤ, leb, if◌then◌else◌,
}
use pi_live_captions.Audio.Format.{Duration, Time, second}

abbrev pub rate_limit : ℕ
rate_limit = 20

abbrev pub rate_window : Duration
rate_window = second

-- A window at the zero time is centuries old.
pub record Limiter : Type 0 where
  pub window_at : Time
  pub count : ℕ

-- now.Sub(s.viewerLatWindowAt) >= viewerLatencyRateWindow
abbrev pub is_over : Time → ℤ → Bool
is_over none now = true
is_over (some at) now = leb_ℤ rate_window (now -ℤ at)

abbrev pub renewed : Limiter → ℤ → Limiter
renewed l now = if is_over l.window_at now then record { window_at = some now; count = 0 } else l

unfoldable pub allow_report : Limiter → ℤ → Limiter × Bool
allow_report l now =
    let l' = renewed l now in
    if leb rate_limit l'.count then (l', false) else (record l' { count = l'.count + 1 }, true)
