-- ===== src/Metrics/Phases.antt =====
-- The three phases of a transcript's latency: their series never come apart.
use pi_live_captions.Base.{
  ℕ, zero, suc, ◌-◌, List, [], ◌∷◌, ◌++◌, map, map-append, Bool, false, ◌||◌, not, ◌≡◌, refl, sym,
  ap, ◌∙◌, none, some, ℤ, pos, ◌-ℤ◌, ltb_ℤ, length, ltb, ◌==◌, if◌then◌else◌, if_cases,
  option_cases, Text, text_eq, arith,
}
use pi_live_captions.Audio.Float.{Float64}
use pi_live_captions.Audio.Format.{Duration}
use pi_live_captions.Metrics.ConnState.{conn_number}
use pi_live_captions.Metrics.Latency.{
  LatencySample, LatencySeries, latency_window, latency_cap, drop, expired, first_kept, trim,
  observe,
}
use pi_live_captions.Metrics.State.{Metrics, new_metrics}
use pi_live_captions.Metrics.Operations.{
  Degradation, drop_frame, ffmpeg_restart, xrun, monitor_drop, audio_drop, stt_reconnect,
  sse_slow_drop, stt_buffer_drop, bump, degrade, emit_audit, mark_degraded, add_frame,
  audio_listener_joined, audio_listener_left, set_source_state, set_stt_state, set_stt_error,
  stt_pause_begin, stt_pause_end, observe_latency, observe_viewer_latency, observe_phases,
  sse_connect, sse_disconnect, transcript_wrote, set_transcript_error, set_audit_error,
  set_media_total, set_monitor_alive, set_audio_live, set_last_stderr, stt_segment, stt_line,
  count_bytes_sent, sse_event,
}
use pi_live_captions.Metrics.Percentile.{stats}
use pi_live_captions.Metrics.Snapshot.{read_windows, after_snapshot}
use pi_live_captions.Metrics.History.{
  Call, degrades, frames, sets_source, sets_stt, fails_stt, begins_pause, ends_pause, observes,
  observes_viewer, observes_phases, connects, disconnects, joins, leaves, writes_lines,
  fails_transcript, fails_audit, totals, lives_monitor, lives_audio, says, segments, lines, sends,
  shows, takes_snapshot, call, run, run_keeps,
}

abbrev pub instants : LatencySeries → List ℤ
instants s = map (λ (x : LatencySample). x.at) s.samples

-- The series hold samples of the same moments.
abbrev pub AreTogether : LatencySeries → LatencySeries → Type 0
AreTogether s s' = instants s ≡ instants s'

unfoldable pub expired_of : ℤ → List ℤ → ℕ
expired_of now [] = 0
expired_of now (t ∷ ts) =
    let n = expired_of now ts in if ltb_ℤ latency_window (now -ℤ t) then suc n else 0

trim_instants : ℤ → List ℤ → List ℤ
trim_instants now ts =
    let i = expired_of now ts in
    drop (if ltb latency_cap (length ts - i) then length ts - latency_cap else i) ts

pub expired-instants :
    (now : ℤ) (ss : List LatencySample)
    → expired now ss ≡ expired_of now (map (λ (x : LatencySample). x.at) ss)
unfolding expired expired_of
expired-instants now [] = refl
expired-instants now (s ∷ ss) =
    ap (λ n. if ltb_ℤ latency_window (now -ℤ s.at) then suc n else 0) (expired-instants now ss)

map-drop :
    (n : ℕ) (ss : List LatencySample)
    → map (λ (x : LatencySample). x.at) (drop n ss) ≡ drop n (map (λ (x : LatencySample). x.at) ss)
map-drop zero ss = refl
map-drop (suc n) [] = refl
map-drop (suc n) (s ∷ ss) = map-drop n ss

pub length-instants :
    (ss : List LatencySample) → length ss ≡ length (map (λ (x : LatencySample). x.at) ss)
length-instants [] = refl
length-instants (s ∷ ss) = ap suc (length-instants ss)

instants-trim :
    (s : LatencySeries) (now : ℤ) → instants (trim s now) ≡ trim_instants now (instants s)
unfolding trim first_kept trim_instants
instants-trim s now = map-drop (first_kept now s.samples) s.samples ∙ (λ i.
    let n = length-instants s.samples i in
    let e = expired-instants now s.samples i in
    drop (if ltb latency_cap (n - e) then n - latency_cap else e) (instants s))

trim-AreTogether :
    (s s' : LatencySeries) (now : ℤ) → AreTogether s s' → AreTogether (trim s now) (trim s' now)
trim-AreTogether s s' now e =
    instants-trim s now ∙ ap (trim_instants now) e ∙ sym (instants-trim s' now)

observe-AreTogether :
    (s s' : LatencySeries) (d d' : Duration) (now : ℤ)
    → ltb_ℤ d (pos 0) ≡ false
    → ltb_ℤ d' (pos 0) ≡ false
    → AreTogether s s'
    → AreTogether (observe s d now) (observe s' d' now)
unfolding observe
observe-AreTogether s s' d d' now h h' e =
    rw (h, h')
      (trim-AreTogether _ _ now
        (map-append _ s.samples _ ∙ ap (λ ts. ts ++ now ∷ []) e ∙ sym (map-append _ s'.samples _)))

abbrev pub ArePhases : {F : Type 0} → Metrics F → Type 0
ArePhases m = AreTogether m.lat_upload m.lat_recognize × AreTogether m.lat_upload m.lat_assemble

module _ {F : Type 0} where
  bump-ArePhases : (m : Metrics F) (d : Degradation) → ArePhases m → ArePhases (bump m d)
  unfolding bump
  bump-ArePhases m drop_frame v = v
  bump-ArePhases m ffmpeg_restart v = v
  bump-ArePhases m xrun v = v
  bump-ArePhases m monitor_drop v = v
  bump-ArePhases m audio_drop v = v
  bump-ArePhases m stt_reconnect v = v
  bump-ArePhases m sse_slow_drop v = v
  bump-ArePhases m (stt_buffer_drop at) v = v

  pub observe_phases-ArePhases :
      (m : Metrics F) (u r a : Duration) (now : ℤ)
      → ArePhases m
      → ArePhases (observe_phases m u r a now)
  unfolding observe_phases
  observe_phases-ArePhases m u r a now v =
      if_cases ArePhases (ltb_ℤ u (pos 0) || ltb_ℤ r (pos 0) || ltb_ℤ a (pos 0)) (λ h. v)
        (λ h.
          let (x, y, z) = none_of _ _ _ h in
          (observe-AreTogether _ _ u r now x y v.0, observe-AreTogether _ _ u a now x z v.1))
    where
      none_of : (x y z : Bool) → (x || y || z) ≡ false → (x ≡ false) × (y ≡ false) × (z ≡ false)
      none_of x y z h = ground arith

module _ (fl : Float64) where
  open fl use {F}

  call-ArePhases : (m : Metrics F) (now : ℤ) (c : Call) → ArePhases m → ArePhases (call fl m now c)
  unfolding call degrade emit_audit mark_degraded add_frame set_source_state set_stt_state
      set_stt_error stt_pause_begin stt_pause_end observe_latency observe_viewer_latency sse_connect
      sse_disconnect audio_listener_joined audio_listener_left transcript_wrote set_transcript_error
      set_audit_error set_media_total set_monitor_alive set_audio_live set_last_stderr stt_segment
      stt_line count_bytes_sent sse_event after_snapshot read_windows stats
  call-ArePhases m now (degrades d) v = bump-ArePhases m d v
  call-ArePhases m now (frames n at) v = v
  call-ArePhases m now (sets_source s r b) v =
      if_cases ArePhases (not (text_eq s m.source_state)) (λ h. v) (λ h. v)
  call-ArePhases m now (sets_stt s) v =
      if_cases ArePhases (conn_number m.stt_state == conn_number s) (λ h. v) (λ h. v)
  call-ArePhases m now (fails_stt none) v = v
  call-ArePhases m now (fails_stt (some e)) v = v
  call-ArePhases m now begins_pause v = option_cases ArePhases m.stt_pause_start (λ e. v) (λ t e. v)
  call-ArePhases m now ends_pause v = option_cases ArePhases m.stt_pause_start (λ e. v) (λ t e. v)
  call-ArePhases m now (observes d) v = v
  call-ArePhases m now (observes_viewer d) v =
      if_cases ArePhases (ltb_ℤ d (pos 0)) (λ h. v) (λ h. v)
  call-ArePhases m now (observes_phases u r a) v = observe_phases-ArePhases m u r a now v
  call-ArePhases m now connects v = v
  call-ArePhases m now disconnects v = v
  call-ArePhases m now joins v = v
  call-ArePhases m now leaves v = v
  call-ArePhases m now (writes_lines l b) v = v
  call-ArePhases m now (fails_transcript none) v = v
  call-ArePhases m now (fails_transcript (some e)) v = v
  call-ArePhases m now (fails_audit none) v = v
  call-ArePhases m now (fails_audit (some e)) v = v
  call-ArePhases m now (totals d) v = v
  call-ArePhases m now (lives_monitor b) v = v
  call-ArePhases m now (lives_audio b) v = v
  call-ArePhases m now (says t) v = v
  call-ArePhases m now segments v = v
  call-ArePhases m now lines v = v
  call-ArePhases m now (sends n) v = v
  call-ArePhases m now shows v = v
  call-ArePhases m now (takes_snapshot c) v =
      (trim-AreTogether _ _ c.locked v.0, trim-AreTogether _ _ c.locked v.1)

  -- After any calls on new metrics, at any readings of the clock, the series of the three phases hold
  -- samples of the same moments, and so equally many: a snapshot's one count is that of all three.
  pub run-ArePhases :
      (version session_id : Text) (start : ℤ) (cs : List (ℤ × Call))
      → ArePhases (run fl (new_metrics version session_id start) cs)
  unfolding new_metrics
  run-ArePhases v s start cs = run_keeps fl ArePhases call-ArePhases cs _ (refl, refl)
