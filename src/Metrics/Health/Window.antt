-- ===== src/Metrics/Health/Window.antt =====
-- How long a degradation shows.
use pi_live_captions.Base.{
  List, [], ◌∷◌, true, false, ◌||◌, not, ◌≡◌, ◌≢◌, refl, sym, subst, none, some, ℤ, pos, ltb_ℤ,
  ◌≤ℤ◌, ◌-ℤ◌, -ℤ_parts, ◌==◌, if_cases, option_cases, Text, codes, text_eq, text_eq_self, All,
  arith,
}
use pi_live_captions.Audio.Float.{Float64}
use pi_live_captions.Metrics.ConnState.{conn_number, conn_text}
use pi_live_captions.Metrics.State.{Metrics}
use pi_live_captions.Metrics.Operations.{
  Degradation, degrade, emit_audit, mark_degraded, add_frame, audio_listener_joined,
  audio_listener_left, set_source_state, set_stt_state, set_stt_error, stt_pause_begin,
  stt_pause_end, observe_latency, observe_viewer_latency, observe_phases, sse_connect,
  sse_disconnect, transcript_wrote, set_transcript_error, set_audit_error, set_media_total,
  set_monitor_alive, set_audio_live, set_last_stderr, stt_segment, stt_line, count_bytes_sent,
  sse_event,
}
use pi_live_captions.Metrics.Percentile.{stats}
use pi_live_captions.Metrics.Snapshot.{read_windows, after_snapshot}
use pi_live_captions.Metrics.History.{
  Call, degrades, frames, sets_source, sets_stt, fails_stt, begins_pause, ends_pause, observes,
  observes_viewer, observes_phases, connects, disconnects, joins, leaves, writes_lines,
  fails_transcript, fails_audit, totals, lives_monitor, lives_audio, says, segments, lines, sends,
  shows, takes_snapshot, call, run,
}
use pi_live_captions.Metrics.Health.{degraded_window, is_recent, has_trouble, source_lost, health}

-- The last degradation is not before `t`.
abbrev IsAlarmed : {F : Type 0} → ℤ → Metrics F → Type 0
IsAlarmed t m = (at : ℤ) × (m.last_degraded_at ≡ some at) × (t ≤ℤ at)

module _ (fl : Float64) where
  open fl use {F}

  call-IsAlarmed :
      (t : ℤ) (m : Metrics F) (now : ℤ) (c : Call)
      → t ≤ℤ now
      → IsAlarmed t m
      → IsAlarmed t (call fl m now c)
  unfolding call degrade set_source_state emit_audit mark_degraded add_frame set_stt_state
      set_stt_error stt_pause_begin stt_pause_end observe_latency observe_viewer_latency
      observe_phases sse_connect sse_disconnect audio_listener_joined audio_listener_left
      transcript_wrote set_transcript_error set_audit_error set_media_total set_monitor_alive
      set_audio_live set_last_stderr stt_segment stt_line count_bytes_sent sse_event after_snapshot
      read_windows stats
  call-IsAlarmed t m now (degrades d) h v = (now, refl, h)
  call-IsAlarmed t m now (frames n at) h v = v
  call-IsAlarmed t m now (sets_source s r b) h v =
      if_cases (IsAlarmed t) (not (text_eq s m.source_state)) (λ e. v) (λ e. v)
  call-IsAlarmed t m now (sets_stt s) h v =
      if_cases (IsAlarmed t) (conn_number m.stt_state == conn_number s) (λ e. v) (λ e. v)
  call-IsAlarmed t m now (fails_stt none) h v = v
  call-IsAlarmed t m now (fails_stt (some e)) h v = v
  call-IsAlarmed t m now begins_pause h v =
      option_cases (IsAlarmed t) m.stt_pause_start (λ e. v) (λ u e. v)
  call-IsAlarmed t m now ends_pause h v =
      option_cases (IsAlarmed t) m.stt_pause_start (λ e. v) (λ u e. v)
  call-IsAlarmed t m now (observes d) h v = v
  call-IsAlarmed t m now (observes_viewer d) h v =
      if_cases (IsAlarmed t) (ltb_ℤ d (pos 0)) (λ e. v) (λ e. v)
  call-IsAlarmed t m now (observes_phases u r a) h v =
      if_cases (IsAlarmed t) (ltb_ℤ u (pos 0) || ltb_ℤ r (pos 0) || ltb_ℤ a (pos 0)) (λ e. v)
        (λ e. v)
  call-IsAlarmed t m now connects h v = v
  call-IsAlarmed t m now disconnects h v = v
  call-IsAlarmed t m now joins h v = v
  call-IsAlarmed t m now leaves h v = v
  call-IsAlarmed t m now (writes_lines l b) h v = v
  call-IsAlarmed t m now (fails_transcript none) h v = v
  call-IsAlarmed t m now (fails_transcript (some e)) h v = (now, refl, h)
  call-IsAlarmed t m now (fails_audit none) h v = v
  call-IsAlarmed t m now (fails_audit (some e)) h v = (now, refl, h)
  call-IsAlarmed t m now (totals d) h v = v
  call-IsAlarmed t m now (lives_monitor b) h v = v
  call-IsAlarmed t m now (lives_audio b) h v = v
  call-IsAlarmed t m now (says e) h v = v
  call-IsAlarmed t m now segments h v = v
  call-IsAlarmed t m now lines h v = v
  call-IsAlarmed t m now (sends n) h v = v
  call-IsAlarmed t m now shows h v = v
  call-IsAlarmed t m now (takes_snapshot c) h v = v

  run-IsAlarmed :
      (t : ℤ) (cs : List (ℤ × Call)) (m : Metrics F)
      → All (λ c. t ≤ℤ c.0) cs
      → IsAlarmed t m
      → IsAlarmed t (run fl m cs)
  unfolding run
  run-IsAlarmed t [] m a v = v
  run-IsAlarmed t ((now, c) ∷ cs) m (h, a) v =
      run-IsAlarmed t cs (call fl m now c) a (call-IsAlarmed t m now c h v)

  differ : (a b : Text) → text_eq a b ≡ false → a ≢ b
  differ a b h e = absurd (ground (arith, h, subst (λ c. text_eq a c ≡ true) e (text_eq_self a)))

  alarmed_is_recent :
      (t now : ℤ) (m : Metrics F)
      → (now -ℤ t) ≤ℤ degraded_window
      → IsAlarmed t m
      → is_recent now m.last_degraded_at ≡ true
  alarmed_is_recent t now m w (at, e, h) =
      subst (λ o. is_recent now o ≡ true) (sym e) (ground (arith, -ℤ_parts now t, -ℤ_parts now at))

  -- For 60 seconds from a counted degradation, whatever is called at times from then on, the verdict
  -- on the session's health is never "ok".
  pub health-degrade :
      (m : Metrics F) (d : Degradation) (t now : ℤ) (cs : List (ℤ × Call))
      → All (λ c. t ≤ℤ c.0) cs
      → (now -ℤ t) ≤ℤ degraded_window
      → health (run fl (degrade m d t) cs) now ≢ codes "ok"
  unfolding health degrade mark_degraded emit_audit
  health-degrade m d t now cs a w =
      let after = run fl (degrade m d t) cs in
      let is_ok : (s : Text) → Type 0 = λ s. s ≢ codes "ok" in
      if_cases is_ok (text_eq (conn_text after.stt_state) (codes "closed")) (λ e. differ _ _ refl)
        (λ e.
          if_cases is_ok (source_lost after) (λ e. differ _ _ refl)
            (λ e.
              if_cases is_ok (text_eq (conn_text after.stt_state) (codes "paused"))
                (λ e. differ _ _ refl)
                (λ e.
                  if_cases is_ok (has_trouble after now) (λ e. differ _ _ refl)
                    (λ e. absurd (
                      ground (
                        arith,
                        alarmed_is_recent t now after w
                            (run-IsAlarmed t cs _ a (t, refl, ground arith)),
                      ))))))
