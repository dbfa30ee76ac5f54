-- ===== src/Metrics/Report.antt =====
-- internal/metrics/metrics.go: the type Snapshot. The four window figures of a latency series, which
-- Go keeps in four fields, are one record here.
use pi_live_captions.Base.{ℕ, Bool, Option, ℤ, Text}
use pi_live_captions.Audio.NoiseGate.{NoiseSnapshot}

-- The last, the percentiles and the greatest of a window, in milliseconds.
pub record Millis (F : Type 0) : Type 0 where
  pub last : F
  pub p50 : F
  pub p95 : F
  pub max : F

pub record SourceReport (F : Type 0) : Type 0 where
  pub kind : Text
  pub spec : Text
  pub format : Text
  pub frames_total : ℕ
  pub bytes_total : ℕ
  pub seconds_total : F
  pub total_seconds : F
  pub frames_dropped : ℕ
  pub ffmpeg_restarts : ℕ
  pub xruns : ℕ
  pub last_stderr : Text
  pub state : Text
  pub error : Text
  pub restart_required : Bool

pub record MonitorReport : Type 0 where
  pub enabled : Bool
  pub alive : Bool
  pub frames_dropped : ℕ

pub record AudioReport : Type 0 where
  pub enabled : Bool
  pub live : Bool
  pub reason : Text
  pub listeners : ℤ
  pub listeners_total : ℕ
  pub chunks_dropped : ℕ

pub record SttReport (F : Type 0) : Type 0 where
  pub engine : Text
  pub state : Text
  pub reconnects : ℕ
  pub buffer_drops : ℕ
  pub segments : ℕ
  pub lines : ℕ
  pub bytes_sent : ℕ
  pub minutes_sent : F
  pub hours_sent : F
  pub last_error : Text
  pub last_error_at : Text
  pub latency : Millis F
  pub latency_count : ℕ
  pub upload : Millis F
  pub recognize : Millis F
  pub recognize_session_max : F
  pub assemble : Millis F
  pub phase_latency_count : ℕ
  pub pauses : ℕ
  pub paused_sec : F

pub record WebReport (F : Type 0) : Type 0 where
  pub clients : ℤ
  pub clients_total : ℕ
  pub events : ℕ
  pub slow_drops : ℕ
  pub viewer : Millis F
  pub viewer_session_max : F
  pub viewer_count : ℕ
  pub viewer_reports : ℕ

pub record TranscriptReport : Type 0 where
  pub path : Text
  pub lines : ℕ
  pub bytes : ℕ
  pub last_error : Text

pub record Snapshot (F : Type 0) : Type 0 where
  pub noise_gate : Option (NoiseSnapshot F)
  pub version : Text
  pub session_id : Text
  pub started_at : ℤ
  pub uptime_sec : F
  pub health : Text
  pub source : SourceReport F
  pub monitor : MonitorReport
  pub audio : AudioReport
  pub stt : SttReport F
  pub web : WebReport F
  pub transcript : TranscriptReport
  pub audit_error : Text
  pub goroutines : ℕ
