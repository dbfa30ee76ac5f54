-- ===== src/Metrics/Health.antt =====
-- internal/metrics/metrics.go: the verdict of Snapshot on the session's health.
pub mod Window
use pi_live_captions.Base.{
  Bool, true, false, not, ◌&&◌, ◌||◌, none, some, ℤ, pos, ◌-ℤ◌, leb_ℤ, Text, codes, text_eq,
  is_empty, if◌then◌else◌,
}
use pi_live_captions.Audio.Format.{Duration, Time}
use pi_live_captions.Metrics.ConnState.{ConnState, conn_text}
use pi_live_captions.Metrics.State.{Metrics}

abbrev pub degraded_window : Duration
degraded_window = pos 60_000_000_000

abbrev pub is_recent : ℤ → Time → Bool
is_recent now none = false
is_recent now (some at) = leb_ℤ (now -ℤ at) degraded_window

module _ {F : Type 0} where
  abbrev pub source_lost : Metrics F → Bool
  source_lost m =
      text_eq m.source_kind (codes "live")
      && (text_eq m.source_state (codes "missing") || text_eq m.source_state (codes "unavailable"))

  abbrev pub has_trouble : Metrics F → ℤ → Bool
  has_trouble m now =
      is_recent now m.last_degraded_at
      || not (is_empty m.transcript_err)
      || not (is_empty m.audit_err)

  unfoldable pub health : Metrics F → ℤ → Text
  health m now =
      let state = conn_text m.stt_state in
      if text_eq state (codes "closed")
      then codes "closed"
      else if source_lost m
      then codes "degraded"
      else if text_eq state (codes "paused")
      then codes "paused"
      else if has_trouble m now
      then codes "degraded"
      else codes "ok"
