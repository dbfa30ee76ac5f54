-- ===== src/Ui/Status.antt =====
-- internal/ui/terminal.go: the text of the pinned status line. What fmt prints of a float64 is a
-- parameter.
use pi_live_captions.Base.{
  ℕ, suc, ◌+◌, List, [], ◌∷◌, ◌++◌, ℤ, pos, negsuc, eqb_ℤ, Text, codes, text_eq, decimal, ltb,
  if◌then◌else◌,
}
use pi_live_captions.Audio.Float.{Float64}
use pi_live_captions.Audio.Format.{Duration, second}
use pi_live_captions.Caption.Writer.Lines.{format_clock}
use pi_live_captions.Metrics.Report.{Snapshot}
use pi_live_captions.Ui.Terminal.{
  Terminal, colored, ansi_dim, ansi_red, ansi_green, ansi_yellow, ansi_blue,
}

-- The writes to a strings.Builder, put together.
abbrev pub joined : List Text → Text
joined [] = []
joined (s ∷ ss) = s ++ joined ss

-- %d
unfoldable pub signed : ℤ → Text
unfolding decimal
signed (pos n) = decimal n
signed (negsuc n) = b'-' ∷ decimal (suc n)

abbrev pub plural : ℤ → Text
plural n = if eqb_ℤ n (pos 1) then [] else codes "s"

-- A count and its noun: %d noun%s.
abbrev pub counted_noun : ℤ → Text → Text
unfolding signed
counted_noun n noun = signed n ++ (b' ' ∷ (noun ++ plural n))

unfoldable pub state_glyph : Terminal → Text → ℕ → Text
state_glyph t state reconnects =
    if text_eq state (codes "connected")
    then colored t ansi_green (codes "● connected")
    else if text_eq state (codes "connecting")
    then colored t ansi_yellow (codes "◐ connecting")
    else if text_eq state (codes "reconnecting")
    then colored t ansi_yellow (
        if ltb 0 reconnects
        then codes "○ reconnecting ×" ++ decimal reconnects
        else codes "○ reconnecting")
    else if text_eq state (codes "closed")
    then colored t ansi_red (codes "✕ closed")
    else if text_eq state (codes "paused")
    then colored t ansi_dim (codes "⏸ paused (no audio)")
    else colored t ansi_dim (codes "· idle")

module _ (fl : Float64) where
  open fl use {F, of_int, trunc, mul, lt}

  -- time.Duration(x * float64(time.Second))
  abbrev pub of_seconds : F → Duration
  of_seconds x = trunc (mul x (of_int second))

  abbrev pub clock_part : Snapshot F → Text
  clock_part s =
      let elapsed = format_clock (of_seconds s.source.seconds_total) in
      if lt (of_int (pos 0)) s.source.total_seconds
      then elapsed ++ (codes " / " ++ format_clock (of_seconds s.source.total_seconds))
      else elapsed

  abbrev pub drop_total : Snapshot F → ℕ
  drop_total s =
      s.source.frames_dropped + s.monitor.frames_dropped + s.web.slow_drops + s.stt.buffer_drops

  abbrev pub drops_part : Terminal → Snapshot F → List Text
  drops_part t s =
      if ltb 0 (drop_total s)
      then colored t ansi_dim (codes " │ ")
        ∷ colored t ansi_yellow (counted_noun (pos (drop_total s)) (codes "drop"))
        ∷ []
      else []

module _ (fl : Float64) (print0 : fl.F → Text) where
  open fl use {F}

  abbrev pub latency_part : Terminal → Snapshot F → List Text
  latency_part t s =
      if ltb 0 s.stt.latency_count
      then colored t ansi_dim (codes " │ ")
        ∷ codes "lat "
        ∷ print0 s.stt.latency.last
        ∷ codes "ms p95 "
        ∷ print0 s.stt.latency.p95
        ∷ codes "ms"
        ∷ []
      else []

  -- What renderStatus writes, piece by piece.
  abbrev pub status_parts : Terminal → Snapshot F → List Text
  status_parts t s =
      colored t ansi_blue (codes "▶")
      ∷ codes " "
      ∷ clock_part fl s
      ∷ colored t ansi_dim (codes " │ ")
      ∷ codes "stt "
      ∷ state_glyph t s.stt.state s.stt.reconnects
      ∷ (latency_part t s
          ++ (colored t ansi_dim (codes " │ ")
              ∷ counted_noun s.web.clients (codes "viewer")
              ∷ colored t ansi_dim (codes " │ ")
              ∷ counted_noun (pos s.stt.lines) (codes "line")
              ∷ drops_part fl t s))

  unfoldable pub render_status : Terminal → Snapshot F → Text
  render_status t s = joined (status_parts t s)
