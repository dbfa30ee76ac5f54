-- ===== src/Web/Requests.antt =====
-- internal/web/server.go: the handlers that decide or change something. A response is its status
-- code. What the libraries read of a request (basic auth, the media type, the decoded body) is an
-- argument; subtle.ConstantTimeCompare is the comparison of texts.
use pi_live_captions.Base.{
  ℕ, Bool, not, ◌||◌, Option, none, some, ℤ, pos, Text, codes, text_eq, is_empty, if◌then◌else◌,
}
use pi_live_captions.Audio.Float.{Float64}
use pi_live_captions.Audio.NoiseGate.{NoiseGate, NoiseSettings}
use pi_live_captions.Audio.NoiseGate as NoiseGate
use pi_live_captions.Caption.Hub.State.{Hub}
use pi_live_captions.Caption.Hub.Operations.{clear}
use pi_live_captions.Metrics.State.{Metrics}
use pi_live_captions.Metrics.Operations.{observe_viewer_latency}
use pi_live_captions.Web.Limiter.{Limiter, allow_report}

abbrev pub admin_user : Text
admin_user = codes "admin"

-- The status that refuses; none serves the request by the wrapped handler.
unfoldable pub require_admin : Text → Option (Text × Text) → Option ℕ
require_admin password credentials = if is_empty password then some 503 else elim credentials [
  | none ↦ some 401
  | some (user, pass) ↦
      let user_ok = text_eq user admin_user in
      let pass_ok = text_eq pass password in if not user_ok || not pass_ok then some 401 else none
]

unfoldable pub handle_clear : Hub → ℤ → Hub × ℕ
handle_clear h now = (clear h now, 204)

-- The clear control, behind the password.
unfoldable pub post_clear : Text → Option (Text × Text) → Hub → ℤ → Hub × ℕ
post_clear password credentials h now = elim (require_admin password credentials) [
  | none ↦ handle_clear h now
  | some status ↦ (h, status)
]

-- A body of the noise gate's request; `alone` says that nothing follows its object.
pub record GateBody (F : Type 0) : Type 0 where
  pub threshold : Option F
  pub release : Option F
  pub alone : Bool

module _ (fl : Float64) where
  open fl use {F, of_int, trunc, mul, lt, is_nan, is_inf}

  abbrev pub settings_of : Option (GateBody F) → Option (NoiseSettings F × Bool)
  settings_of none = none
  settings_of (some b) = elim b.threshold [
    | none ↦ none
    | some t ↦ elim b.release [
      | none ↦ none
      | some r ↦ some (record { threshold_dbfs = t; release_sec = r }, b.alone)
    ]
  ]

  -- The gate, and 200 for the snapshot of it, which is taken at `now`.
  unfoldable pub handle_noise_gate :
      Option (NoiseGate F) → Option Text → Option (GateBody F) → ℤ → Option (NoiseGate F) × ℕ
  unfolding NoiseGate.set NoiseGate.snapshot
  handle_noise_gate none media body now = (none, 503)
  handle_noise_gate (some g) none body now = (some g, 415)
  handle_noise_gate (some g) (some media) body now =
      if not (text_eq media (codes "application/json"))
      then (some g, 415)
      else elim (settings_of body) [
        | none ↦ (some g, 400)
        | some (s, alone) ↦ if not alone then (some g, 400) else elim (NoiseGate.set fl g s).1 [
          | none ↦ (some g, 400)
          | some told ↦ (some (NoiseGate.snapshot fl (NoiseGate.set fl g s).0 now).0, 200)
        ]
      ]

  abbrev pub max_viewer_latency : F
  max_viewer_latency = of_int (pos 60_000)

  -- The limiter, the metrics and the status. The body is none when it does not decode.
  unfoldable pub handle_viewer_latency :
      Limiter → Metrics F → ℤ → ℤ → Option F → Limiter × Metrics F × ℕ
  unfolding allow_report observe_viewer_latency
  handle_viewer_latency l m now observed none = (l, m, 400)
  handle_viewer_latency l m now observed (some paint) =
      if is_nan paint || is_inf paint
      then (l, m, 400)
      else if lt paint (of_int (pos 0)) || lt max_viewer_latency paint
      then (l, m, 400)
      else if not (allow_report l now).1
      then ((allow_report l now).0, m, 429)
      else (
        (allow_report l now).0,
        observe_viewer_latency m (trunc (mul paint (of_int (pos 1_000_000)))) observed,
        204,
      )
