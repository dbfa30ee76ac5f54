-- ===== src/Metrics/Degraded.antt =====
-- The degradations that are counted, and the events that the audit stream is told.
use pi_live_captions.Base.{
  ℕ, ◌+◌, List, [], ◌∷◌, ◌++◌, Bool, true, ◌&&◌, ◌||◌, not, ◌≡◌, refl, sym, ap, subst, ◌∙◌, none,
  some, ℤ, pos, ltb_ℤ, ◌==◌, if◌then◌else◌, if_cases, option_cases, Text, text_eq, arith,
}
use pi_live_captions.Audio.Float.{Float64}
use pi_live_captions.Metrics.ConnState.{conn_number}
use pi_live_captions.Metrics.State.{Metrics, AuditEvent, new_metrics}
use pi_live_captions.Metrics.Operations.{
  Degradation, drop_frame, ffmpeg_restart, xrun, monitor_drop, audio_drop, stt_reconnect,
  sse_slow_drop, stt_buffer_drop, set_audit_hook, event_of, state_event, bump, degrade, emit_audit,
  mark_degraded, add_frame, audio_listener_joined, audio_listener_left, set_source_state,
  set_stt_state, set_stt_error, stt_pause_begin, stt_pause_end, observe_latency,
  observe_viewer_latency, observe_phases, sse_connect, sse_disconnect, transcript_wrote,
  set_transcript_error, set_audit_error, set_media_total, set_monitor_alive, set_audio_live,
  set_last_stderr, stt_segment, stt_line, count_bytes_sent, sse_event,
}
use pi_live_captions.Metrics.Percentile.{stats}
use pi_live_captions.Metrics.Snapshot.{read_windows, after_snapshot}
use pi_live_captions.Metrics.History.{
  Call, degrades, frames, sets_source, sets_stt, fails_stt, begins_pause, ends_pause, observes,
  observes_viewer, observes_phases, connects, disconnects, joins, leaves, writes_lines,
  fails_transcript, fails_audit, totals, lives_monitor, lives_audio, says, segments, lines, sends,
  shows, takes_snapshot, call, run, run_keeps,
}

-- What an event counts of one degradation: its count, where the component and the name are the same.
abbrev pub weight : Degradation → AuditEvent → ℕ
weight d e =
    if text_eq (event_of d).component e.component && text_eq (event_of d).event e.event
    then e.count
    else 0

abbrev pub told : Degradation → List AuditEvent → ℕ
told d [] = 0
told d (e ∷ es) = weight d e + told d es

told-append :
    (d : Degradation) (xs ys : List AuditEvent) → told d (xs ++ ys) ≡ told d xs + told d ys
told-append d [] ys = omega arith
told-append d (x ∷ xs) ys = omega (arith, told-append d xs ys)

-- One of eight numbers, in the order of the degradations.
abbrev pub pick : Degradation → (a b c d e f g h : ℕ) → ℕ
pick drop_frame a b c d e f g h = a
pick ffmpeg_restart a b c d e f g h = b
pick xrun a b c d e f g h = c
pick monitor_drop a b c d e f g h = d
pick audio_drop a b c d e f g h = e
pick stt_reconnect a b c d e f g h = f
pick sse_slow_drop a b c d e f g h = g
pick (stt_buffer_drop at) a b c d e f g h = h

module _ {F : Type 0} where
  abbrev pub counter : Metrics F → Degradation → ℕ
  counter m d =
      pick d m.frames_dropped m.ffmpeg_restarts m.xruns m.monitor_dropped m.audio_dropped
        m.stt_reconnect m.sse_slow_drops m.stt_buffer_drops

  -- Every counter is what the audit stream was told of it.
  abbrev pub IsAudited : Metrics F → Type 0
  IsAudited m = (m.has_audit_hook ≡ true) × ((d : Degradation) → counter m d ≡ told d m.audited)

  counter-bump :
      (m : Metrics F) (d d' : Degradation)
      → counter (bump m d') d ≡ counter m d + weight d (event_of d')
  unfolding bump event_of
  counter-bump m d d' = ground arith

  kept_by_bump :
      (m : Metrics F) (d : Degradation)
      → ((bump m d).has_audit_hook ≡ m.has_audit_hook) × ((bump m d).audited ≡ m.audited)
  unfolding bump
  kept_by_bump m d = ground arith

  -- A call that adds to the counters what it tells.
  tell :
      (m m' : Metrics F) (e : AuditEvent)
      → m'.has_audit_hook ≡ m.has_audit_hook
      → m'.audited ≡ m.audited
      → ((d : Degradation) → counter m' d ≡ counter m d + weight d e)
      → IsAudited m
      → IsAudited (emit_audit m' e)
  unfolding emit_audit
  tell m m' e h a w (hook, each) = (
    h ∙ hook,
    λ d.
        let now_told : told d (m'.audited ++ e ∷ []) ≡ told d m.audited + (weight d e + 0) =
          told-append d m'.audited (e ∷ []) ∙ ap (λ es. told d es + (weight d e + 0)) a in
        subst (λ b. counter m' d ≡ told d (if b then m'.audited ++ e ∷ [] else m'.audited))
          (sym (h ∙ hook)) (omega (arith, w d, each d, now_told)),
  )

  degrade-IsAudited :
      (m : Metrics F) (d : Degradation) (now : ℤ) → IsAudited m → IsAudited (degrade m d now)
  unfolding degrade mark_degraded
  degrade-IsAudited m d now v =
      tell m (mark_degraded (bump m d) now) (event_of d) (kept_by_bump m d).0 (kept_by_bump m d).1
        (λ d'. counter-bump m d' d) v

  state-IsAudited :
      (m : Metrics F) (s r : Text) (b : Bool) → IsAudited m → IsAudited (set_source_state m s r b)
  unfolding set_source_state
  state-IsAudited m s r b v =
      if_cases IsAudited (not (text_eq s m.source_state))
        (λ h. tell m _ _ refl refl (λ d. uncounted (counter m d) d (state_event s) refl) v) (λ h. v)
    where
      uncounted : (n : ℕ) (d : Degradation) (e : AuditEvent) → e.count ≡ 0 → n ≡ n + weight d e
      uncounted n d e h =
          if_cases (λ k. n ≡ n + k)
            (text_eq (event_of d).component e.component && text_eq (event_of d).event e.event)
            (λ t. omega (arith, h)) (λ f. omega arith)

module _ (fl : Float64) where
  open fl use {F}

  call-IsAudited : (m : Metrics F) (now : ℤ) (c : Call) → IsAudited m → IsAudited (call fl m now c)
  unfolding call emit_audit mark_degraded add_frame set_stt_state set_stt_error stt_pause_begin
      stt_pause_end observe_latency observe_viewer_latency observe_phases sse_connect sse_disconnect
      audio_listener_joined audio_listener_left transcript_wrote set_transcript_error
      set_audit_error set_media_total set_monitor_alive set_audio_live set_last_stderr stt_segment
      stt_line count_bytes_sent sse_event after_snapshot read_windows stats
  call-IsAudited m now (degrades d) v = degrade-IsAudited m d now v
  call-IsAudited m now (frames n at) v = v
  call-IsAudited m now (sets_source s r b) v = state-IsAudited m s r b v
  call-IsAudited m now (sets_stt s) v =
      if_cases IsAudited (conn_number m.stt_state == conn_number s) (λ h. v) (λ h. v)
  call-IsAudited m now (fails_stt none) v = v
  call-IsAudited m now (fails_stt (some e)) v = v
  call-IsAudited m now begins_pause v = option_cases IsAudited m.stt_pause_start (λ e. v) (λ t e. v)
  call-IsAudited m now ends_pause v = option_cases IsAudited m.stt_pause_start (λ e. v) (λ t e. v)
  call-IsAudited m now (observes d) v = v
  call-IsAudited m now (observes_viewer d) v =
      if_cases IsAudited (ltb_ℤ d (pos 0)) (λ h. v) (λ h. v)
  call-IsAudited m now (observes_phases u r a) v =
      if_cases IsAudited (ltb_ℤ u (pos 0) || ltb_ℤ r (pos 0) || ltb_ℤ a (pos 0)) (λ h. v) (λ h. v)
  call-IsAudited m now connects v = v
  call-IsAudited m now disconnects v = v
  call-IsAudited m now joins v = v
  call-IsAudited m now leaves v = v
  call-IsAudited m now (writes_lines l b) v = v
  call-IsAudited m now (fails_transcript none) v = v
  call-IsAudited m now (fails_transcript (some e)) v = v
  call-IsAudited m now (fails_audit none) v = v
  call-IsAudited m now (fails_audit (some e)) v = v
  call-IsAudited m now (totals d) v = v
  call-IsAudited m now (lives_monitor b) v = v
  call-IsAudited m now (lives_audio b) v = v
  call-IsAudited m now (says t) v = v
  call-IsAudited m now segments v = v
  call-IsAudited m now lines v = v
  call-IsAudited m now (sends n) v = v
  call-IsAudited m now shows v = v
  call-IsAudited m now (takes_snapshot c) v = v

  -- After any calls on new metrics whose audit hook is set, each of the eight counters of degradations
  -- is the sum of the counts of the events that the hook was called with for it.
  pub run-IsAudited :
      (version session_id : Text) (start : ℤ) (cs : List (ℤ × Call))
      → IsAudited (run fl (set_audit_hook (new_metrics version session_id start)) cs)
  unfolding new_metrics set_audit_hook
  run-IsAudited v s start cs = run_keeps fl IsAudited call-IsAudited cs _ (refl, λ d. ground arith)
