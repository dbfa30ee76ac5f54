-- ===== src/Metrics/Operations.antt =====
-- internal/metrics/metrics.go: the methods that count. Each is one step: what it does under the
-- lock and to the counters beside it.
use pi_live_captions.Base.{
  ℕ, ◌+◌, [], ◌∷◌, ◌++◌, Bool, true, false, not, ◌||◌, Option, none, some, ℤ, pos, ◌+ℤ◌, ◌-ℤ◌,
  ltb_ℤ, Text, codes, text_eq, ◌==◌, if◌then◌else◌,
}
use pi_live_captions.Audio.Format.{Duration}
use pi_live_captions.Metrics.ConnState.{ConnState, conn_number}
use pi_live_captions.Metrics.Latency.{observe}
use pi_live_captions.Metrics.State.{Metrics, AuditEvent}

-- The degradations that are counted, each by its method.
pub data Degradation : Type 0 where
  drop_frame ffmpeg_restart xrun monitor_drop audio_drop stt_reconnect sse_slow_drop : Degradation
  stt_buffer_drop : Duration → Degradation

abbrev pub count_event : Text → Text → AuditEvent
count_event component event = record {
  component = component;
  event = event;
  state = [];
  count = 1;
  at = pos 0;
  has_at = false;
}

abbrev pub state_event : Text → AuditEvent
state_event state = record {
  component = codes "source";
  event = codes "state";
  state = state;
  count = 0;
  at = pos 0;
  has_at = false;
}

unfoldable pub event_of : Degradation → AuditEvent
event_of drop_frame = count_event (codes "source") (codes "frames_dropped")
event_of ffmpeg_restart = count_event (codes "source") (codes "restart")
event_of xrun = count_event (codes "source") (codes "xrun")
event_of monitor_drop = count_event (codes "monitor") (codes "drop")
event_of audio_drop = count_event (codes "audio_stream") (codes "drop")
event_of stt_reconnect = count_event (codes "stt") (codes "reconnect")
event_of sse_slow_drop = count_event (codes "web") (codes "slow_subscriber")
event_of (stt_buffer_drop at) = record (count_event (codes "stt") (codes "buffer_drop")) {
  at = at;
  has_at = ltb_ℤ (pos 0) at;
}

module _ {F : Type 0} where
  unfoldable pub bump : Metrics F → Degradation → Metrics F
  bump m drop_frame = record m { frames_dropped = m.frames_dropped + 1 }
  bump m ffmpeg_restart = record m { ffmpeg_restarts = m.ffmpeg_restarts + 1 }
  bump m xrun = record m { xruns = m.xruns + 1 }
  bump m monitor_drop = record m { monitor_dropped = m.monitor_dropped + 1 }
  bump m audio_drop = record m { audio_dropped = m.audio_dropped + 1 }
  bump m stt_reconnect = record m { stt_reconnect = m.stt_reconnect + 1 }
  bump m sse_slow_drop = record m { sse_slow_drops = m.sse_slow_drops + 1 }
  bump m (stt_buffer_drop at) = record m { stt_buffer_drops = m.stt_buffer_drops + 1 }

  unfoldable pub emit_audit : Metrics F → AuditEvent → Metrics F
  emit_audit m e = record m {
    audited = if m.has_audit_hook then m.audited ++ e ∷ [] else m.audited;
  }

  unfoldable pub set_audit_hook : Metrics F → Metrics F
  set_audit_hook m = record m { has_audit_hook = true }

  unfoldable pub set_stt_state_hook : Metrics F → Metrics F
  set_stt_state_hook m = record m { has_state_hook = true }

  unfoldable pub mark_degraded : Metrics F → ℤ → Metrics F
  mark_degraded m now = record m { last_degraded_at = some now }

  unfoldable pub degrade : Metrics F → Degradation → ℤ → Metrics F
  degrade m d now = emit_audit (mark_degraded (bump m d) now) (event_of d)

  unfoldable pub add_frame : Metrics F → ℕ → Duration → Metrics F
  add_frame m nbytes offset = record m {
    frames_total = m.frames_total + 1;
    bytes_total = m.bytes_total + nbytes;
    media_processed = offset;
  }

  unfoldable pub set_media_total : Metrics F → Duration → Metrics F
  set_media_total m d = record m { media_total = d }

  unfoldable pub set_monitor_alive : Metrics F → Bool → Metrics F
  set_monitor_alive m alive = record m { monitor_alive = alive }

  unfoldable pub set_audio_live : Metrics F → Bool → Metrics F
  set_audio_live m live = record m { audio_live = live }

  unfoldable pub set_last_stderr : Metrics F → Text → Metrics F
  set_last_stderr m t = record m { last_stderr = t }

  unfoldable pub stt_segment : Metrics F → Metrics F
  stt_segment m = record m { stt_segments = m.stt_segments + 1 }

  unfoldable pub stt_line : Metrics F → Metrics F
  stt_line m = record m { stt_lines = m.stt_lines + 1 }

  unfoldable pub count_bytes_sent : Metrics F → ℕ → Metrics F
  count_bytes_sent m n = record m { stt_bytes_sent = m.stt_bytes_sent + n }

  unfoldable pub sse_event : Metrics F → Metrics F
  sse_event m = record m { sse_events = m.sse_events + 1 }

  unfoldable pub audio_listener_joined : Metrics F → Metrics F
  audio_listener_joined m = record m {
    audio_listeners = m.audio_listeners +ℤ pos 1;
    audio_listeners_total = m.audio_listeners_total + 1;
  }

  unfoldable pub audio_listener_left : Metrics F → Metrics F
  audio_listener_left m = record m { audio_listeners = m.audio_listeners -ℤ pos 1 }

  unfoldable pub set_source_state : Metrics F → Text → Text → Bool → Metrics F
  set_source_state m state reason restart =
      let m' = record m { source_state = state; source_error = reason; source_restart = restart } in
      if not (text_eq state m.source_state) then emit_audit m' (state_event state) else m'

  unfoldable pub set_stt_state : Metrics F → ConnState → Metrics F
  set_stt_state m s = if conn_number m.stt_state == conn_number s then m else record m {
    stt_state = s;
    states = if m.has_state_hook then m.states ++ s ∷ [] else m.states;
  }

  -- An error's text; none is nil.
  unfoldable pub set_stt_error : Metrics F → Option Text → ℤ → Metrics F
  set_stt_error m none now = m
  set_stt_error m (some e) now = record m { stt_last_err = e; stt_last_err_at = some now }

  unfoldable pub stt_pause_begin : Metrics F → ℤ → Metrics F
  stt_pause_begin m now = elim m.stt_pause_start [
    | some at ↦ m
    | none ↦ record m { stt_pause_start = some now; stt_pauses = m.stt_pauses + 1 }
  ]

  unfoldable pub stt_pause_end : Metrics F → ℤ → Metrics F
  stt_pause_end m now = elim m.stt_pause_start [
    | none ↦ m
    | some at ↦ record m {
      stt_pause_start = none;
      stt_paused_total = m.stt_paused_total +ℤ (now -ℤ at);
    }
  ]

  unfoldable pub observe_latency : Metrics F → Duration → ℤ → Metrics F
  observe_latency m d now = record m { lat_caption = observe m.lat_caption d now }

  unfoldable pub observe_viewer_latency : Metrics F → Duration → ℤ → Metrics F
  observe_viewer_latency m d now = if ltb_ℤ d (pos 0) then m else record m {
    lat_viewer = observe m.lat_viewer d now;
    viewer_reports = m.viewer_reports + 1;
  }

  unfoldable pub observe_phases : Metrics F → Duration → Duration → Duration → ℤ → Metrics F
  observe_phases m upload recognize assemble now =
      if ltb_ℤ upload (pos 0) || ltb_ℤ recognize (pos 0) || ltb_ℤ assemble (pos 0)
      then m
      else record m {
        lat_upload = observe m.lat_upload upload now;
        lat_recognize = observe m.lat_recognize recognize now;
        lat_assemble = observe m.lat_assemble assemble now;
      }

  unfoldable pub sse_connect : Metrics F → Metrics F
  sse_connect m = record m {
    sse_clients = m.sse_clients +ℤ pos 1;
    sse_clients_total = m.sse_clients_total + 1;
  }

  unfoldable pub sse_disconnect : Metrics F → Metrics F
  sse_disconnect m = record m { sse_clients = m.sse_clients -ℤ pos 1 }

  unfoldable pub transcript_wrote : Metrics F → ℕ → ℕ → Metrics F
  transcript_wrote m lines bytes = record m {
    transcript_line = m.transcript_line + lines;
    transcript_byte = m.transcript_byte + bytes;
  }

  unfoldable pub set_transcript_error : Metrics F → Option Text → ℤ → Metrics F
  set_transcript_error m none now = m
  set_transcript_error m (some e) now = mark_degraded (record m { transcript_err = e }) now

  unfoldable pub set_audit_error : Metrics F → Option Text → ℤ → Metrics F
  set_audit_error m none now = m
  set_audit_error m (some e) now = mark_degraded (record m { audit_err = e }) now
