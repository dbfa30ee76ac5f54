-- ===== src/Metrics/History.antt =====
-- internal/metrics/metrics.go: the methods as calls, in the order in which the pipeline's goroutines
-- take the lock, each with the time it read.
use pi_live_captions.Base.{ℕ, List, [], ◌∷◌, Bool, ℤ, Option, Text}
use pi_live_captions.Audio.Float.{Float64}
use pi_live_captions.Audio.Format.{Duration}
use pi_live_captions.Metrics.ConnState.{ConnState}
use pi_live_captions.Metrics.State.{Metrics}
use pi_live_captions.Metrics.Operations.{
  Degradation, degrade, add_frame, set_source_state, set_stt_state, set_stt_error, stt_pause_begin,
  stt_pause_end, observe_latency, observe_viewer_latency, observe_phases, sse_connect,
  sse_disconnect, audio_listener_joined, audio_listener_left, transcript_wrote,
  set_transcript_error, set_audit_error, set_media_total, set_monitor_alive, set_audio_live,
  set_last_stderr, stt_segment, stt_line, count_bytes_sent, sse_event,
}
use pi_live_captions.Metrics.Snapshot.{Clock, after_snapshot}

-- The methods as calls.
pub data Call : Type 0 where
  degrades : Degradation → Call
  frames : ℕ → Duration → Call
  sets_source : Text → Text → Bool → Call
  sets_stt : ConnState → Call
  fails_stt : Option Text → Call
  begins_pause : Call
  ends_pause : Call
  observes : Duration → Call
  observes_viewer : Duration → Call
  observes_phases : Duration → Duration → Duration → Call
  connects : Call
  disconnects : Call
  joins : Call
  leaves : Call
  writes_lines : ℕ → ℕ → Call
  fails_transcript : Option Text → Call
  fails_audit : Option Text → Call
  totals : Duration → Call
  lives_monitor : Bool → Call
  lives_audio : Bool → Call
  says : Text → Call
  segments : Call
  lines : Call
  sends : ℕ → Call
  shows : Call
  takes_snapshot : Clock → Call

module _ (fl : Float64) where
  open fl use {F}

  unfoldable pub call : Metrics F → ℤ → Call → Metrics F
  call m now (degrades d) = degrade m d now
  call m now (frames n at) = add_frame m n at
  call m now (sets_source s r b) = set_source_state m s r b
  call m now (sets_stt s) = set_stt_state m s
  call m now (fails_stt e) = set_stt_error m e now
  call m now begins_pause = stt_pause_begin m now
  call m now ends_pause = stt_pause_end m now
  call m now (observes d) = observe_latency m d now
  call m now (observes_viewer d) = observe_viewer_latency m d now
  call m now (observes_phases u r a) = observe_phases m u r a now
  call m now connects = sse_connect m
  call m now disconnects = sse_disconnect m
  call m now joins = audio_listener_joined m
  call m now leaves = audio_listener_left m
  call m now (writes_lines l b) = transcript_wrote m l b
  call m now (fails_transcript e) = set_transcript_error m e now
  call m now (fails_audit e) = set_audit_error m e now
  call m now (totals d) = set_media_total m d
  call m now (lives_monitor b) = set_monitor_alive m b
  call m now (lives_audio b) = set_audio_live m b
  call m now (says t) = set_last_stderr m t
  call m now segments = stt_segment m
  call m now lines = stt_line m
  call m now (sends n) = count_bytes_sent m n
  call m now shows = sse_event m
  call m now (takes_snapshot c) = after_snapshot fl m c

  unfoldable pub run : Metrics F → List (ℤ × Call) → Metrics F
  run m [] = m
  run m ((now, c) ∷ cs) = run (call m now c) cs

  -- What every call keeps, every history keeps.
  pub run_keeps {ℓ} :
      (P : Metrics F → Type ℓ)
      → ((m : Metrics F) (now : ℤ) (c : Call) → P m → P (call m now c))
      → (cs : List (ℤ × Call)) (m : Metrics F) → P m
      → P (run m cs)
  unfolding run
  run_keeps P k [] m p = p
  run_keeps P k ((now, c) ∷ cs) m p = run_keeps P k cs (call m now c) (k m now c p)
