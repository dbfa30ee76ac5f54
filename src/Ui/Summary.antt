-- ===== src/Ui/Summary.antt =====
-- internal/ui/terminal.go: the report at the end of a run.
use pi_live_captions.Base.{
  ℕ, List, [], ◌∷◌, ◌++◌, Bool, not, pos, Text, codes, is_empty, decimal, ltb, leb, if◌then◌else◌,
}
use pi_live_captions.Audio.Float.{Float64}
use pi_live_captions.Caption.Writer.Lines.{format_clock}
use pi_live_captions.Metrics.Report.{Snapshot}
use pi_live_captions.Ui.Terminal.{
  Terminal, BannerField, colored, ansi_bold, ansi_dim, ansi_yellow, label_width, row, print_lines,
  stop_status,
}
use pi_live_captions.Ui.Status.{joined, counted_noun, of_seconds}

-- amber
abbrev pub amber : Terminal → ℕ → Text → Text
unfolding colored
amber t n s = if ltb 0 n then colored t ansi_yellow s else s

abbrev pub field : Text → Text → BannerField
field label value = record { label = label; value = value; note = [] }

abbrev pub rows_text : ℕ → List BannerField → List Text
rows_text width [] = []
rows_text width (f ∷ fs) = row width f ∷ rows_text width fs

module _ (fl : Float64) (print0 print1 : fl.F → Text) where
  open fl use {F, of_int, div}

  unfoldable pub human_bytes : ℕ → Text
  human_bytes n =
      if leb 1_048_576 n
      then print1 (div (of_int (pos n)) (of_int (pos 1_048_576))) ++ codes " MB"
      else if leb 1_024 n
      then print0 (div (of_int (pos n)) (of_int (pos 1_024))) ++ codes " KB"
      else decimal n ++ codes " B"

  abbrev pub audio_value : Terminal → Snapshot F → Text
  audio_value t s = joined (
      format_clock (of_seconds fl s.source.seconds_total)
      ∷ codes " processed, "
      ∷ amber t s.source.frames_dropped (counted_noun (pos s.source.frames_dropped) (codes "drop"))
      ∷ codes ", "
      ∷ amber t s.source.ffmpeg_restarts
          (counted_noun (pos s.source.ffmpeg_restarts) (codes "ffmpeg restart"))
      ∷ codes ", "
      ∷ amber t s.source.xruns (counted_noun (pos s.source.xruns) (codes "xrun"))
      ∷ [])

  abbrev pub captions_value : Terminal → Snapshot F → Text
  captions_value t s =
      counted_noun (pos s.stt.lines) (codes "line")
      ++ (codes ", "
          ++ amber t s.stt.reconnects (counted_noun (pos s.stt.reconnects) (codes "stt reconnect")))

  abbrev pub latency_value : Snapshot F → Text
  latency_value s = joined (
      codes "p50 "
      ∷ print0 s.stt.latency.p50
      ∷ codes "ms  p95 "
      ∷ print0 s.stt.latency.p95
      ∷ codes "ms  max (last 5m) "
      ∷ print0 s.stt.latency.max
      ∷ codes "ms"
      ∷ [])

  abbrev pub transcript_value : Snapshot F → Text
  unfolding human_bytes
  transcript_value s = joined (
      s.transcript.path
      ∷ codes " ("
      ∷ counted_noun (pos s.transcript.lines) (codes "line")
      ∷ codes ", "
      ∷ human_bytes s.transcript.bytes
      ∷ codes ")"
      ∷ [])

  abbrev pub when_set : Bool → BannerField → List BannerField
  when_set b f = if b then f ∷ [] else []

  abbrev pub summary_rows : Terminal → Snapshot F → Bool → List BannerField
  summary_rows t s monitor_enabled =
      field (codes "audio") (audio_value t s)
      ∷ (when_set monitor_enabled (
            field (codes "monitor") (
              amber t s.monitor.frames_dropped
                (counted_noun (pos s.monitor.frames_dropped) (codes "frame") ++ codes " dropped")))
          ++ (field (codes "captions") (captions_value t s)
              ∷ (when_set (ltb 0 s.stt.latency_count) (field (codes "latency") (latency_value s))
                  ++ when_set (not (is_empty s.transcript.path))
                      (field (codes "transcript") (transcript_value s)))))

  abbrev pub summary_lines : Terminal → Snapshot F → Bool → List Text
  summary_lines t s monitor_enabled =
      let rows = summary_rows t s monitor_enabled in
      colored t ansi_bold (codes "stopping…")
      ∷ (rows_text (label_width 0 rows) rows ++ colored t ansi_dim (codes "done") ∷ [])

  unfoldable pub summarize : Terminal → Snapshot F → Bool → Terminal
  summarize t s monitor_enabled =
      let t' = stop_status t in print_lines t' (summary_lines t' s monitor_enabled)
