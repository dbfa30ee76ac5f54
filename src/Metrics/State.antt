-- ===== src/Metrics/State.antt =====
-- internal/metrics/metrics.go: the struct. A counter is a number, also those that Go keeps as
-- atomic int64s; the two that go down are integers.
use pi_live_captions.Base.{ℕ, List, [], Bool, false, Option, none, ℤ, pos, Text}
use pi_live_captions.Audio.Format.{Duration, Time}
use pi_live_captions.Audio.NoiseGate.{NoiseGate}
use pi_live_captions.Metrics.ConnState.{ConnState}
use pi_live_captions.Metrics.Latency.{LatencySeries}

pub record AuditEvent : Type 0 where
  pub component : Text
  pub event : Text
  pub state : Text
  pub count : ℕ
  pub at : Duration
  pub has_at : Bool

-- `audited` and `states` are what the two hooks were called with, in order.
pub record Metrics (F : Type 0) : Type 0 where
  pub noise_gate : Option (NoiseGate F)
  pub version : Text
  pub session_id : Text
  pub started_at : ℤ
  pub source_kind : Text
  pub source_spec : Text
  pub source_format : Text
  pub frames_total : ℕ
  pub bytes_total : ℕ
  pub frames_dropped : ℕ
  pub ffmpeg_restarts : ℕ
  pub xruns : ℕ
  pub monitor_enabled : Bool
  pub monitor_dropped : ℕ
  pub monitor_alive : Bool
  pub audio_enabled : Bool
  pub audio_reason : Text
  pub audio_live : Bool
  pub audio_listeners : ℤ
  pub audio_listeners_total : ℕ
  pub audio_dropped : ℕ
  pub engine : Text
  pub has_state_hook : Bool
  pub states : List ConnState
  pub stt_state : ConnState
  pub stt_reconnect : ℕ
  pub stt_segments : ℕ
  pub stt_lines : ℕ
  pub stt_bytes_sent : ℕ
  pub stt_pauses : ℕ
  pub stt_buffer_drops : ℕ
  pub sse_clients : ℤ
  pub sse_clients_total : ℕ
  pub sse_events : ℕ
  pub sse_slow_drops : ℕ
  pub transcript_path : Text
  pub transcript_line : ℕ
  pub transcript_byte : ℕ
  pub has_audit_hook : Bool
  pub audited : List AuditEvent
  pub audit_err : Text
  pub last_stderr : Text
  pub source_state : Text
  pub source_error : Text
  pub source_restart : Bool
  pub stt_last_err : Text
  pub stt_last_err_at : Time
  pub stt_pause_start : Time
  pub stt_paused_total : Duration
  pub transcript_err : Text
  pub lat_caption : LatencySeries
  pub lat_viewer : LatencySeries
  pub lat_upload : LatencySeries
  pub lat_recognize : LatencySeries
  pub lat_assemble : LatencySeries
  pub media_processed : Duration
  pub media_total : Duration
  pub last_degraded_at : Time
  pub viewer_reports : ℕ

abbrev pub no_latencies : LatencySeries
no_latencies = record { samples = []; session_max = pos 0 }

-- New; the fields that are set at startup are as Go leaves them.
unfoldable pub new_metrics : {F : Type 0} → Text → Text → ℤ → Metrics F
new_metrics version session_id now = record {
  noise_gate = none;
  version = version;
  session_id = session_id;
  started_at = now;
  source_kind = [];
  source_spec = [];
  source_format = [];
  frames_total = 0;
  bytes_total = 0;
  frames_dropped = 0;
  ffmpeg_restarts = 0;
  xruns = 0;
  monitor_enabled = false;
  monitor_dropped = 0;
  monitor_alive = false;
  audio_enabled = false;
  audio_reason = [];
  audio_live = false;
  audio_listeners = pos 0;
  audio_listeners_total = 0;
  audio_dropped = 0;
  engine = [];
  has_state_hook = false;
  states = [];
  stt_state = ConnState.idle;
  stt_reconnect = 0;
  stt_segments = 0;
  stt_lines = 0;
  stt_bytes_sent = 0;
  stt_pauses = 0;
  stt_buffer_drops = 0;
  sse_clients = pos 0;
  sse_clients_total = 0;
  sse_events = 0;
  sse_slow_drops = 0;
  transcript_path = [];
  transcript_line = 0;
  transcript_byte = 0;
  has_audit_hook = false;
  audited = [];
  audit_err = [];
  last_stderr = [];
  source_state = [];
  source_error = [];
  source_restart = false;
  stt_last_err = [];
  stt_last_err_at = none;
  stt_pause_start = none;
  stt_paused_total = pos 0;
  transcript_err = [];
  lat_caption = no_latencies;
  lat_viewer = no_latencies;
  lat_upload = no_latencies;
  lat_recognize = no_latencies;
  lat_assemble = no_latencies;
  media_processed = pos 0;
  media_total = pos 0;
  last_degraded_at = none;
  viewer_reports = 0;
}
