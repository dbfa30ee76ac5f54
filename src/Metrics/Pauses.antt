-- ===== src/Metrics/Pauses.antt =====
-- How much of the time was paused.
use pi_live_captions.Base.{
  List, [], ◌∷◌, ◌||◌, not, subst, none, some, ℤ, pos, ltb_ℤ, ◌≤ℤ◌, ◌+ℤ◌, ◌-ℤ◌, +ℤ_parts, -ℤ_parts,
  ◌==◌, if_cases, option_cases, Text, text_eq, arith,
}
use pi_live_captions.Audio.Float.{Float64}
use pi_live_captions.Audio.Format.{Duration, Time}
use pi_live_captions.Metrics.ConnState.{conn_number}
use pi_live_captions.Metrics.State.{Metrics, new_metrics}
use pi_live_captions.Metrics.Operations.{
  Degradation, drop_frame, ffmpeg_restart, xrun, monitor_drop, audio_drop, stt_reconnect,
  sse_slow_drop, stt_buffer_drop, bump, degrade, emit_audit, mark_degraded, add_frame,
  audio_listener_joined, audio_listener_left, set_source_state, set_stt_state, set_stt_error,
  stt_pause_begin, stt_pause_end, observe_latency, observe_viewer_latency, observe_phases,
  sse_connect, sse_disconnect, transcript_wrote, set_transcript_error, set_audit_error,
  set_media_total, set_monitor_alive, set_audio_live, set_last_stderr, stt_segment, stt_line,
  count_bytes_sent, sse_event,
}
use pi_live_captions.Metrics.Percentile.{stats}
use pi_live_captions.Metrics.Snapshot.{read_windows, after_snapshot}
use pi_live_captions.Metrics.History.{
  Call, degrades, frames, sets_source, sets_stt, fails_stt, begins_pause, ends_pause, observes,
  observes_viewer, observes_phases, connects, disconnects, joins, leaves, writes_lines,
  fails_transcript, fails_audit, totals, lives_monitor, lives_audio, says, segments, lines, sends,
  shows, takes_snapshot, call, run,
}
use pi_live_captions.Metrics.Snapshot.{paused_time}

-- At `now`: the pauses that are over fit between `start` and the one in progress, or `now`.
abbrev Paced : ℤ → ℤ → Time → Duration → Type 0
Paced start now none total = (pos 0 ≤ℤ total) × ((start +ℤ total) ≤ℤ now)
Paced start now (some at) total = (pos 0 ≤ℤ total) × ((start +ℤ total) ≤ℤ at) × (at ≤ℤ now)

abbrev IsPaced : {F : Type 0} → ℤ → ℤ → Metrics F → Type 0
IsPaced start now m = Paced start now m.stt_pause_start m.stt_paused_total

later :
    (start now now' : ℤ) (at : Time) (total : Duration)
    → now ≤ℤ now'
    → Paced start now at total
    → Paced start now' at total
later start now now' none total h (p, q) = (p, omega (arith, h, q))
later start now now' (some at) total h (p, q, r) = (p, q, omega (arith, h, r))

begun :
    (start now : ℤ) (total : Duration)
    → Paced start now none total
    → Paced start now (some now) total
begun start now total (p, q) = (p, q, omega arith)

ended :
    (start now at : ℤ) (total : Duration)
    → Paced start now (some at) total
    → Paced start now none (total +ℤ (now -ℤ at))
ended start now at total (p, q, r) = (
  omega (arith, p, r, +ℤ_parts total (now -ℤ at), -ℤ_parts now at),
  omega (
    arith,
    q,
    +ℤ_parts start (total +ℤ (now -ℤ at)),
    +ℤ_parts start total,
    +ℤ_parts total (now -ℤ at),
    -ℤ_parts now at,
  ),
)

-- The pauses that are over, and none in progress, are within the uptime.
over :
    (start now : ℤ) (total : Duration)
    → Paced start now none total
    → (pos 0 ≤ℤ total) × (total ≤ℤ (now -ℤ start))
over start now total (p, q) = (p, omega (arith, q, +ℤ_parts start total, -ℤ_parts now start))

module _ {F : Type 0} where
  bump-IsPaced :
      (start now : ℤ) (m : Metrics F) (d : Degradation)
      → IsPaced start now m
      → IsPaced start now (bump m d)
  unfolding bump
  bump-IsPaced start now m drop_frame v = v
  bump-IsPaced start now m ffmpeg_restart v = v
  bump-IsPaced start now m xrun v = v
  bump-IsPaced start now m monitor_drop v = v
  bump-IsPaced start now m audio_drop v = v
  bump-IsPaced start now m stt_reconnect v = v
  bump-IsPaced start now m sse_slow_drop v = v
  bump-IsPaced start now m (stt_buffer_drop at) v = v

-- The times of the calls, in order from `t`, none after `now`.
abbrev pub Within : ℤ → List (ℤ × Call) → ℤ → Type 0
Within t [] now = t ≤ℤ now
Within t ((u, c) ∷ cs) now = (t ≤ℤ u) × Within u cs now

module _ (fl : Float64) where
  open fl use {F}

  call-IsPaced :
      (start : ℤ) (m : Metrics F) (now : ℤ) (c : Call)
      → IsPaced start now m
      → IsPaced start now (call fl m now c)
  unfolding call degrade set_source_state emit_audit mark_degraded add_frame set_stt_state
      set_stt_error stt_pause_begin stt_pause_end observe_latency observe_viewer_latency
      observe_phases sse_connect sse_disconnect audio_listener_joined audio_listener_left
      transcript_wrote set_transcript_error set_audit_error set_media_total set_monitor_alive
      set_audio_live set_last_stderr stt_segment stt_line count_bytes_sent sse_event after_snapshot
      read_windows stats
  call-IsPaced start m now (degrades d) v = bump-IsPaced start now m d v
  call-IsPaced start m now (frames n at) v = v
  call-IsPaced start m now (sets_source s r b) v =
      if_cases (IsPaced start now) (not (text_eq s m.source_state)) (λ e. v) (λ e. v)
  call-IsPaced start m now (sets_stt s) v =
      if_cases (IsPaced start now) (conn_number m.stt_state == conn_number s) (λ h. v) (λ h. v)
  call-IsPaced start m now (fails_stt none) v = v
  call-IsPaced start m now (fails_stt (some e)) v = v
  call-IsPaced start m now begins_pause v =
      option_cases (IsPaced start now) m.stt_pause_start
        (λ e. begun start now _ (subst (λ o. Paced start now o m.stt_paused_total) e v)) (λ u e. v)
  call-IsPaced start m now ends_pause v =
      option_cases (IsPaced start now) m.stt_pause_start (λ e. v)
        (λ u e. ended start now u _ (subst (λ o. Paced start now o m.stt_paused_total) e v))
  call-IsPaced start m now (observes d) v = v
  call-IsPaced start m now (observes_viewer d) v =
      if_cases (IsPaced start now) (ltb_ℤ d (pos 0)) (λ h. v) (λ h. v)
  call-IsPaced start m now (observes_phases u r a) v =
      if_cases (IsPaced start now) (ltb_ℤ u (pos 0) || ltb_ℤ r (pos 0) || ltb_ℤ a (pos 0)) (λ h. v)
        (λ h. v)
  call-IsPaced start m now connects v = v
  call-IsPaced start m now disconnects v = v
  call-IsPaced start m now joins v = v
  call-IsPaced start m now leaves v = v
  call-IsPaced start m now (writes_lines l b) v = v
  call-IsPaced start m now (fails_transcript none) v = v
  call-IsPaced start m now (fails_transcript (some e)) v = v
  call-IsPaced start m now (fails_audit none) v = v
  call-IsPaced start m now (fails_audit (some e)) v = v
  call-IsPaced start m now (totals d) v = v
  call-IsPaced start m now (lives_monitor b) v = v
  call-IsPaced start m now (lives_audio b) v = v
  call-IsPaced start m now (says t) v = v
  call-IsPaced start m now segments v = v
  call-IsPaced start m now lines v = v
  call-IsPaced start m now (sends n) v = v
  call-IsPaced start m now shows v = v
  call-IsPaced start m now (takes_snapshot c) v = v

  run-IsPaced :
      (start t now : ℤ) (cs : List (ℤ × Call)) (m : Metrics F)
      → Within t cs now
      → IsPaced start t m
      → IsPaced start now (run fl m cs)
  unfolding run
  run-IsPaced start t now [] m w v = later start t now _ _ w v
  run-IsPaced start t now ((u, c) ∷ cs) m (h, w) v =
      run-IsPaced start u now cs (call fl m u c) w
        (call-IsPaced start m u c (later start t u _ _ h v))

  reported :
      (start now : ℤ) (m : Metrics F)
      → IsPaced start now m
      → (pos 0 ≤ℤ paused_time m now) × (paused_time m now ≤ℤ (now -ℤ start))
  unfolding paused_time
  reported start now m v =
      option_cases (λ (d : Duration). (pos 0 ≤ℤ d) × (d ≤ℤ (now -ℤ start))) m.stt_pause_start
        (λ e. over start now _ (subst (λ o. Paced start now o m.stt_paused_total) e v))
        (λ at e.
          over start now _
            (ended start now at _ (subst (λ o. Paced start now o m.stt_paused_total) e v)))

  -- Of a session whose calls read a clock that does not go back, the time that the snapshot at `now`
  -- reports as paused, with a pause in progress, is not negative and at most the session's uptime.
  pub paused_time-run :
      (version session_id : Text) (start now : ℤ) (cs : List (ℤ × Call))
      → Within start cs now
      → (pos 0 ≤ℤ paused_time (run fl (new_metrics version session_id start) cs) now)
        × (paused_time (run fl (new_metrics version session_id start) cs) now ≤ℤ (now -ℤ start))
  unfolding new_metrics
  paused_time-run v s start now cs w =
      reported start now _
        (run-IsPaced start start now cs _ w (omega arith, omega (arith, +ℤ_parts start (pos 0))))
