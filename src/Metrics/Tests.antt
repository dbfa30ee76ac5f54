-- ===== src/Metrics/Tests.antt =====
-- The metrics at concrete inputs.
use pi_live_captions.Base.{[], true, quot_ℤ, ◌∷◌, List, ℤ, pos, ◌≤ℤ◌, ◌-ℤ◌, ◌≢◌, codes, arith}
use pi_live_captions.Audio.Toy.{toy}
use pi_live_captions.Metrics.Latency.{LatencySeries, first_kept, expired, trim, observe}
use pi_live_captions.Metrics.Latency.Window.{IsValid, observe-IsValid}
use pi_live_captions.Metrics.State.{no_latencies, new_metrics}
use pi_live_captions.Metrics.Percentile.{stats, durations}
use pi_live_captions.Metrics.Percentile.Summary.{Summarizes, stats-Summarizes}
use pi_live_captions.Metrics.Operations.{drop_frame, xrun, degrade, set_audit_hook}
use pi_live_captions.Metrics.Snapshot.{paused_time}
use pi_live_captions.Metrics.Health.{health}
use pi_live_captions.Metrics.Health.Window.{health-degrade}
use pi_live_captions.Metrics.History.{
  Call, degrades, sets_source, begins_pause, ends_pause, observes_phases, run,
}
use pi_live_captions.Metrics.Phases.{ArePhases, run-ArePhases}
use pi_live_captions.Metrics.Degraded.{IsAudited, run-IsAudited}
use pi_live_captions.Metrics.Pauses.{paused_time-run}

no_latencies-IsValid : IsValid no_latencies
no_latencies-IsValid = record { capped = omega arith; sampled = tt }

observe-IsValid_example : IsValid (observe no_latencies (pos 40) (pos 7))
observe-IsValid_example = observe-IsValid no_latencies (pos 40) (pos 7) no_latencies-IsValid

abbrev three_samples : LatencySeries
three_samples = record {
  samples =
      record { d = pos 30; at = pos 1 }
      ∷ record { d = pos 90; at = pos 2 }
      ∷ record { d = pos 60; at = pos 3 }
      ∷ [];
  session_max = pos 90;
}

stats-Summarizes_example :
    Summarizes (durations (trim three_samples (pos 5))) (stats toy three_samples (pos 5)).1
unfolding quot_ℤ trim first_kept expired ◌-ℤ◌
stats-Summarizes_example = stats-Summarizes toy three_samples (pos 5) (omega arith) (omega arith)

abbrev session : List (ℤ × Call)
session =
    (pos 11, degrades drop_frame)
    ∷ (pos 12, begins_pause)
    ∷ (pos 13, sets_source (codes "missing") (codes "unplugged") true)
    ∷ (pos 14, observes_phases (pos 3) (pos 4) (pos 5))
    ∷ (pos 15, ends_pause)
    ∷ (pos 16, degrades xrun)
    ∷ (pos 17, begins_pause)
    ∷ []

run-ArePhases_example : ArePhases (run toy (new_metrics (codes "v1") (codes "s1") (pos 10)) session)
run-ArePhases_example = run-ArePhases toy (codes "v1") (codes "s1") (pos 10) session

run-IsAudited_example :
    IsAudited (run toy (set_audit_hook (new_metrics (codes "v1") (codes "s1") (pos 10))) session)
run-IsAudited_example = run-IsAudited toy (codes "v1") (codes "s1") (pos 10) session

paused_time-run_example :
    (pos 0
      ≤ℤ paused_time (run toy (new_metrics (codes "v1") (codes "s1") (pos 10)) session) (pos 20))
    × (paused_time (run toy (new_metrics (codes "v1") (codes "s1") (pos 10)) session) (pos 20)
        ≤ℤ (pos 20 -ℤ pos 10))
paused_time-run_example = paused_time-run toy (codes "v1") (codes "s1") (pos 10) (pos 20) session (
  omega arith,
  (
    omega arith,
    (omega arith, (omega arith, (omega arith, (omega arith, (omega arith, omega arith))))),
  ),
)

health-degrade_example :
    health
      (run toy (degrade (new_metrics (codes "v1") (codes "s1") (pos 10)) xrun (pos 11)) session)
      (pos 40)
    ≢ codes "ok"
unfolding ◌-ℤ◌
health-degrade_example =
    health-degrade toy (new_metrics (codes "v1") (codes "s1") (pos 10)) xrun (pos 11) (pos 40)
      session
      (
        omega arith,
        (
          omega arith,
          (omega arith, (omega arith, (omega arith, (omega arith, (omega arith, tt))))),
        ),
      )
      (omega arith)
