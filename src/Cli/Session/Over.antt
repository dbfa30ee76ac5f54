-- ===== src/Cli/Session/Over.antt =====
-- internal/metrics/metrics.go: the snapshots of a session that is over.
use pi_live_captions.Base.{
  ℕ, List, [], ◌∷◌, Option, none, some, ◌≡◌, refl, ap, ℤ, pos, ◌≤ℤ◌, Text, codes, length, ◌==◌,
  if_cases, ◌>>=◌, arith,
}
use pi_live_captions.Audio.Float.{Float64}
use pi_live_captions.Caption.Writer.State.{Failure}
use pi_live_captions.Metrics.ConnState.{ConnState, conn_text, conn_number}
use pi_live_captions.Metrics.Latency.{LatencySeries, trim}
use pi_live_captions.Metrics.State.{Metrics}
use pi_live_captions.Metrics.Operations.{
  set_stt_state, set_audit_error, set_transcript_error, mark_degraded,
}
use pi_live_captions.Metrics.Percentile.{Stats, durations, rank, half, most, stats}
use pi_live_captions.Metrics.Percentile.Summary.{Summarizes, stats-Summarizes}
use pi_live_captions.Metrics.Health.{health}
use pi_live_captions.Metrics.Report.{Snapshot}
use pi_live_captions.Metrics.Snapshot.{
  Clock, Windows, read_windows, after_snapshot, gate_report, snapshot_of, snapshot,
}
use pi_live_captions.Cli.Session.{audit_fails}

module _ {F : Type 0} where
  -- The connection is over.
  abbrev pub IsOver : Metrics F → Type 0
  IsOver m = conn_number m.stt_state ≡ 4

  pub audit_fails-IsOver :
      (es : List Failure) (m : Metrics F) (now : ℤ) → IsOver m → IsOver (audit_fails m es now)
  unfolding audit_fails set_audit_error mark_degraded
  audit_fails-IsOver [] m now h = h
  audit_fails-IsOver (e ∷ es) m now h = audit_fails-IsOver es _ now h

  pub set_transcript_error-IsOver :
      (m : Metrics F) (e : Option Failure) (now : ℤ)
      → IsOver m
      → IsOver (set_transcript_error m e now)
  unfolding set_transcript_error mark_degraded
  set_transcript_error-IsOver m none now h = h
  set_transcript_error-IsOver m (some e) now h = h

  pub set_stt_state-IsOver : (m : Metrics F) → IsOver (set_stt_state m ConnState.closed)
  unfolding set_stt_state
  set_stt_state-IsOver m =
      if_cases IsOver (conn_number m.stt_state == 4) (λ h. ground arith) (λ h. refl)

  health-IsOver : (m : Metrics F) (now : ℤ) → IsOver m → health m now ≡ codes "closed"
  unfolding health
  health-IsOver m now h = rw (closed_text m.stt_state h) refl
    where
      closed_text : (s : ConnState) → conn_number s ≡ 4 → conn_text s ≡ codes "closed"
      closed_text ConnState.idle h = absurd (omega arith)
      closed_text ConnState.connecting h = absurd (omega arith)
      closed_text ConnState.connected h = absurd (omega arith)
      closed_text ConnState.reconnecting h = absurd (omega arith)
      closed_text ConnState.closed h = refl
      closed_text ConnState.paused h = absurd (omega arith)

module _ (fl : Float64) where
  open fl use {F}

  -- What the arithmetic of the percentiles relies on.
  abbrev pub Ranks : Type 0
  Ranks = (n : ℕ) → (pos 0 ≤ℤ rank fl (half fl) n) × (rank fl (half fl) n ≤ℤ rank fl (most fl) n)

  some_of : (ds : _) (o : Option Stats) → Summarizes ds o → (s : Stats) × (o ≡ some s)
  some_of [] o e = (_, e)
  some_of (d ∷ ds) o (s, e, f) = (s, e)

  figures_exist :
      Ranks → (s : LatencySeries) (now : ℤ) → (r : Stats) × ((stats fl s now).1 ≡ some r)
  figures_exist k s now =
      let n = length (durations (trim s now)) in
      some_of _ _ (stats-Summarizes fl s now (k n).0 (k n).1)

  windows_exist :
      Ranks → (m : Metrics F) (now : ℤ) → (w : Windows) × ((read_windows fl m now).1 ≡ some w)
  unfolding read_windows
  windows_exist k m now =
      let (c, ec) = figures_exist k m.lat_caption now in
      let (v, ev) = figures_exist k m.lat_viewer now in
      let (u, eu) = figures_exist k m.lat_upload now in
      let (r, er) = figures_exist k m.lat_recognize now in
      let (a, ea) = figures_exist k m.lat_assemble now in
      (
        record { caption = c; viewer = v; upload = u; recognize = r; assemble = a },
        rw (ec, ev, eu, er, ea) refl,
      )

  module _ (rfc3339 : ℤ → Text) (goroutines : ℕ) where
    -- A snapshot is taken, leaves the connection's state, and after the end says so.
    pub snapshot-IsOver :
        Ranks
        → (m : Metrics F) (c : Clock) → IsOver m
        → (m' : Metrics F) × (s : Snapshot F) × (snapshot fl rfc3339 goroutines m c ≡ some (m', s))
          × IsOver m'
          × (s.health ≡ codes "closed")
    unfolding snapshot after_snapshot read_windows stats health
    snapshot-IsOver k m c h =
        let (w, e) = windows_exist k m c.locked in
        let read = (read_windows fl m c.locked).0 in
        (
          after_snapshot fl m c,
          snapshot_of fl rfc3339 goroutines read c (gate_report fl read.noise_gate c.gate).1 w,
          ap
              (λ o. o >>= (λ x. some (
                after_snapshot fl m c,
                snapshot_of fl rfc3339 goroutines read c (gate_report fl read.noise_gate c.gate).1
                    x,
              )))
              e,
          h,
          health-IsOver read c.degraded h,
        )
