-- ===== src/Ui/Calls.antt =====
-- internal/ui/terminal.go: the methods as calls. cli's run prints the banner and the ready line
-- before the status line starts; diagnostics and captions come at any time.
use pi_live_captions.Base.{List, [], ◌∷◌, Bool, true, false, ◌≡◌, Text, if◌then◌else◌}
use pi_live_captions.Audio.Float.{Float64}
use pi_live_captions.Audio.Format.{Duration}
use pi_live_captions.Metrics.Report.{Snapshot}
use pi_live_captions.Ui.Terminal.{
  Terminal, BannerField, caption, caption_line, write_log, banner, banner_lines, ready, colored,
  ansi_dim, tick, stop_status,
}
use pi_live_captions.Ui.Status.{render_status}
use pi_live_captions.Ui.Summary.{summarize, summary_lines}

pub data Call (F : Type 0) : Type 0 where
  banners : Text → List BannerField → Call F
  readies : Text → Call F
  logs : Text → Call F
  captions : Duration → Text → Call F
  ticks : Snapshot F → Call F
  summarizes : Snapshot F → Bool → Call F

module _ {F : Type 0} where
  -- No banner and no ready line once the status line started.
  abbrev pub IsTimely : Bool → Call F → Type 0
  IsTimely started (banners title fields) = started ≡ false
  IsTimely started (readies msg) = started ≡ false
  IsTimely started (logs line) = Unit
  IsTimely started (captions at text) = Unit
  IsTimely started (ticks s) = Unit
  IsTimely started (summarizes s b) = Unit

  abbrev pub has_started : Bool → Call F → Bool
  has_started started (banners title fields) = started
  has_started started (readies msg) = started
  has_started started (logs line) = started
  has_started started (captions at text) = started
  has_started started (ticks s) = true
  has_started started (summarizes s b) = started

  -- The calls in the order of a session.
  abbrev pub InOrder : Bool → List (Call F) → Type 0
  InOrder started [] = Unit
  InOrder started (c ∷ cs) = IsTimely started c × InOrder (has_started started c) cs

module _ (fl : Float64) (print0 print1 : fl.F → Text) where
  open fl use {F}

  unfoldable pub call : Terminal → Call F → Terminal
  call t (banners title fields) = banner t title fields
  call t (readies msg) = ready t msg
  call t (logs line) = write_log t line
  call t (captions at text) = caption t at text
  call t (ticks s) = tick t (render_status fl print0 t s)
  call t (summarizes s b) = summarize fl print0 print1 t s b

  unfoldable pub run : Terminal → List (Call F) → Terminal
  run t [] = t
  run t (c ∷ cs) = run (call t c) cs

  -- The lines that a call is to leave on the screen.
  unfoldable pub lines_of : Terminal → Call F → List Text
  unfolding colored stop_status
  lines_of t (banners title fields) = banner_lines t title fields
  lines_of t (readies msg) = colored t ansi_dim msg ∷ []
  lines_of t (logs line) = line ∷ []
  lines_of t (captions at text) = []
  lines_of t (ticks s) = []
  lines_of t (summarizes s b) = summary_lines fl print0 print1 (stop_status t) s b

  -- The lines that a call is to write to stdout.
  unfoldable pub printed_of : Terminal → Call F → List Text
  unfolding caption_line
  printed_of t (captions at text) = if t.suppress_captions then [] else caption_line t at text ∷ []
  printed_of t (banners title fields) = []
  printed_of t (readies msg) = []
  printed_of t (logs line) = []
  printed_of t (ticks s) = []
  printed_of t (summarizes s b) = []
