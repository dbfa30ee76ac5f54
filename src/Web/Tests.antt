-- ===== src/Web/Tests.antt =====
-- The requests at concrete inputs.
use pi_live_captions.Base.{
  [], ◌∷◌, Option, negsuc, none, some, pos, ◌≤◌, ◌-ℤ◌, arith, codes, ltb_ℤ, ℤ, true, false, ◌≡◌,
  ◌≤ℤ◌,
}
use pi_live_captions.Audio.Toy.{toy, times}
use pi_live_captions.Audio.NoiseGate.{NoiseGate}
use pi_live_captions.Caption.Hub.State.{new_hub}
use pi_live_captions.Metrics.State.{new_metrics}
use pi_live_captions.Web.Limiter.{Limiter}
use pi_live_captions.Web.Requests.{GateBody, post_clear, handle_viewer_latency, handle_noise_gate}
use pi_live_captions.Web.Rate.{allowed, allowed-bound}
use pi_live_captions.Web.Reports.{
  Guards, post_clear-Guards, Settles, handle_viewer_latency-Settles, Applies,
  handle_noise_gate-Applies,
}

abbrev fresh : Limiter
fresh = record { window_at = none; count = 0 }

allowed-bound_example : allowed fresh (pos 7 ∷ pos 5 ∷ pos 9 ∷ []) ≤ 40
unfolding ◌-ℤ◌
allowed-bound_example =
    allowed-bound (pos 5) fresh (pos 7 ∷ pos 5 ∷ pos 9 ∷ [])
      ((omega arith, omega arith), ((omega arith, omega arith), ((omega arith, omega arith), tt)))

post_clear-Guards_example :
    Guards (codes "secret") (some (codes "admin", codes "secret")) (new_hub true true) (pos 4) (
      post_clear
        (codes "secret")
        (some (codes "admin", codes "secret"))
        (new_hub true true)
        (pos 4))
post_clear-Guards_example =
    post_clear-Guards (codes "secret") (some (codes "admin", codes "secret")) (new_hub true true)
      (pos 4)

millis_not_negative :
    (x : ℤ)
    → false ≡ false
    → false ≡ false
    → ltb_ℤ x (pos 0) ≡ false
    → ltb_ℤ (pos 60_000) x ≡ false
    → pos 0 ≤ℤ times x (pos 1_000_000)
millis_not_negative x n i h most = ground arith

handle_viewer_latency-Settles_example :
    Settles toy fresh (new_metrics (codes "v1") (codes "s1") (pos 1)) (
      handle_viewer_latency toy fresh
        (new_metrics (codes "v1") (codes "s1") (pos 1))
        (pos 2)
        (pos 3)
        (some (pos 40)))
handle_viewer_latency-Settles_example =
    handle_viewer_latency-Settles toy fresh (new_metrics (codes "v1") (codes "s1") (pos 1)) (pos 2)
      (pos 3) (some (pos 40)) millis_not_negative

abbrev open_gate : NoiseGate ℤ
open_gate = record {
  settings = record { threshold_dbfs = negsuc 49; release_sec = pos 5 };
  startup = record { threshold_dbfs = negsuc 49; release_sec = pos 5 };
  open_now = true;
  last_above = pos 0;
  last_offset = pos 0;
  last_sample = none;
  rms = negsuc 119;
  peaks = [];
}

abbrev posted : Option (GateBody ℤ)
posted = some (record { threshold = some (negsuc 39); release = some (pos 2); alone = true })

handle_noise_gate-Applies_example :
    Applies toy open_gate
      (some (codes "application/json"))
      posted
      (pos 9)
      (handle_noise_gate toy (some open_gate) (some (codes "application/json")) posted (pos 9))
handle_noise_gate-Applies_example =
    handle_noise_gate-Applies toy open_gate (some (codes "application/json")) posted (pos 9)
