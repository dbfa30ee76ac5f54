-- ===== src/Metrics/Snapshot.antt =====
-- internal/metrics/metrics.go: the method Snapshot. Each reading of the clock is an argument, as are
-- the number of goroutines and the library's formatting of a time.
use pi_live_captions.Base.{ℕ, Option, none, some, ℤ, pos, ◌+ℤ◌, ◌-ℤ◌, [], quot_ℤ, Text, ◌>>=◌}
use pi_live_captions.Audio.Float.{Float64}
use pi_live_captions.Audio.Format.{Duration, rem, pipeline_format, duration}
use pi_live_captions.Audio.NoiseGate.{NoiseGate, NoiseSnapshot}
use pi_live_captions.Audio.NoiseGate as NoiseGate
use pi_live_captions.Metrics.ConnState.{conn_text}
use pi_live_captions.Metrics.Health.{health}
use pi_live_captions.Metrics.Percentile.{Stats, stats}
use pi_live_captions.Metrics.State.{Metrics}
use pi_live_captions.Metrics.Report.{Millis, SourceReport, SttReport, WebReport, Snapshot}

-- The readings of the clock: under the lock, and for each difference after it.
pub record Clock : Type 0 where
  pub locked : ℤ
  pub paused : ℤ
  pub gate : ℤ
  pub up : ℤ
  pub degraded : ℤ

-- What the five series answer.
pub record Windows : Type 0 where
  pub caption : Stats
  pub viewer : Stats
  pub upload : Stats
  pub recognize : Stats
  pub assemble : Stats

-- The completed pauses and the one in progress.
unfoldable pub paused_time : {F : Type 0} → Metrics F → ℤ → Duration
paused_time m now = elim m.stt_pause_start [
  | none ↦ m.stt_paused_total
  | some at ↦ m.stt_paused_total +ℤ (now -ℤ at)
]

module _ (fl : Float64) where
  open fl use {F, of_int, add, div}

  abbrev pub ms : Duration → F
  ms d = div (of_int d) (of_int (pos 1_000_000))

  -- time.Duration's Seconds, Minutes and Hours: whole units, and the rest over one.
  abbrev pub in_units : ℕ → Duration → F
  unfolding quot_ℤ
  in_units n d = add (of_int (quot_ℤ d n)) (div (of_int (rem d n)) (of_int (pos n)))

  abbrev pub seconds : Duration → F
  seconds = in_units 1_000_000_000

  abbrev pub millis : Stats → Millis F
  millis s = record { last = ms s.last; p50 = ms s.p50; p95 = ms s.p95; max = ms s.max }

  -- The series, each trimmed and read; none for a panic.
  unfoldable pub read_windows : Metrics F → ℤ → Metrics F × Option Windows
  unfolding stats
  read_windows m now =
      let caption = stats fl m.lat_caption now in
      let viewer = stats fl m.lat_viewer now in
      let upload = stats fl m.lat_upload now in
      let recognize = stats fl m.lat_recognize now in
      let assemble = stats fl m.lat_assemble now in
      (
        record m {
          lat_caption = caption.0;
          lat_viewer = viewer.0;
          lat_upload = upload.0;
          lat_recognize = recognize.0;
          lat_assemble = assemble.0;
        },
        do
          c ← caption.1
          v ← viewer.1
          u ← upload.1
          r ← recognize.1
          a ← assemble.1
          some (record { caption = c; viewer = v; upload = u; recognize = r; assemble = a }),
      )

  abbrev pub source_report : Metrics F → SourceReport F
  source_report m = record {
    kind = m.source_kind;
    spec = m.source_spec;
    format = m.source_format;
    frames_total = m.frames_total;
    bytes_total = m.bytes_total;
    seconds_total = seconds m.media_processed;
    total_seconds = seconds m.media_total;
    frames_dropped = m.frames_dropped;
    ffmpeg_restarts = m.ffmpeg_restarts;
    xruns = m.xruns;
    last_stderr = m.last_stderr;
    state = m.source_state;
    error = m.source_error;
    restart_required = m.source_restart;
  }

  abbrev pub stt_report : (ℤ → Text) → Metrics F → Windows → ℤ → SttReport F
  unfolding paused_time duration
  stt_report rfc3339 m w now =
      let sent = duration fl pipeline_format (pos m.stt_bytes_sent) in
      record {
        engine = m.engine;
        state = conn_text m.stt_state;
        reconnects = m.stt_reconnect;
        buffer_drops = m.stt_buffer_drops;
        segments = m.stt_segments;
        lines = m.stt_lines;
        bytes_sent = m.stt_bytes_sent;
        minutes_sent = in_units 60_000_000_000 sent;
        hours_sent = in_units 3_600_000_000_000 sent;
        last_error = m.stt_last_err;
        last_error_at = elim m.stt_last_err_at [ none ↦ [] | some at ↦ rfc3339 at ];
        latency = millis w.caption;
        latency_count = w.caption.count;
        upload = millis w.upload;
        recognize = millis w.recognize;
        recognize_session_max = ms m.lat_recognize.session_max;
        assemble = millis w.assemble;
        phase_latency_count = w.upload.count;
        pauses = m.stt_pauses;
        paused_sec = seconds (paused_time m now);
      }

  abbrev pub web_report : Metrics F → Windows → WebReport F
  web_report m w = record {
    clients = m.sse_clients;
    clients_total = m.sse_clients_total;
    events = m.sse_events;
    slow_drops = m.sse_slow_drops;
    viewer = millis w.viewer;
    viewer_session_max = ms m.lat_viewer.session_max;
    viewer_count = w.viewer.count;
    viewer_reports = m.viewer_reports;
  }

  -- The gate, with its old peaks dropped, and its part of the snapshot.
  abbrev pub gate_report :
      Option (NoiseGate F) → ℤ → Option (NoiseGate F) × Option (NoiseSnapshot F)
  unfolding NoiseGate.snapshot
  gate_report none now = (none, none)
  gate_report (some g) now =
      let (g', report) = NoiseGate.snapshot fl g now in (some g', some report)

  abbrev pub snapshot_of :
      (ℤ → Text) → ℕ → Metrics F → Clock → Option (NoiseSnapshot F) → Windows → Snapshot F
  unfolding health
  snapshot_of rfc3339 goroutines m c gate w = record {
    noise_gate = gate;
    version = m.version;
    session_id = m.session_id;
    started_at = m.started_at;
    uptime_sec = seconds (c.up -ℤ m.started_at);
    health = health m c.degraded;
    source = source_report m;
    monitor = record {
      enabled = m.monitor_enabled;
      alive = m.monitor_alive;
      frames_dropped = m.monitor_dropped;
    };
    audio = record {
      enabled = m.audio_enabled;
      live = m.audio_live;
      reason = m.audio_reason;
      listeners = m.audio_listeners;
      listeners_total = m.audio_listeners_total;
      chunks_dropped = m.audio_dropped;
    };
    stt = stt_report rfc3339 m w c.paused;
    web = web_report m w;
    transcript = record {
      path = m.transcript_path;
      lines = m.transcript_line;
      bytes = m.transcript_byte;
      last_error = m.transcript_err;
    };
    audit_error = m.audit_err;
    goroutines = goroutines;
  }

  -- The state that taking a snapshot leaves.
  unfoldable pub after_snapshot : Metrics F → Clock → Metrics F
  after_snapshot m c =
      let read = (read_windows m c.locked).0 in
      record read { noise_gate = (gate_report read.noise_gate c.gate).0 }

  unfoldable pub snapshot : (ℤ → Text) → ℕ → Metrics F → Clock → Option (Metrics F × Snapshot F)
  snapshot rfc3339 goroutines m c =
      let (read, windows) = read_windows m c.locked in
      do
        w ← windows
        some (
          after_snapshot m c,
          snapshot_of rfc3339 goroutines read c (gate_report read.noise_gate c.gate).1 w,
        )
