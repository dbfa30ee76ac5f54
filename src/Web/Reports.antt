-- ===== src/Web/Reports.antt =====
-- What the guarded requests change.
use mathlib.Core.Option.{none-ne-some, some-injective}
use pi_live_captions.Base.{
  ℕ, ◌+◌, [], ◌∷◌, length, Bool, true, false, not, ◌||◌, Option, none, some, ℤ, pos, ◌≤ℤ◌, ltb_ℤ,
  Text, codes, text_eq, text_eq_sound, text_eq_self, if◌then◌else◌, if_cases, ◌≡◌, ◌≢◌, refl, ap,
  subst, arith,
}
use pi_live_captions.Audio.Float.{Float64}
use pi_live_captions.Audio.Format.{Duration}
use pi_live_captions.Audio.NoiseGate.{NoiseGate, NoiseSettings, validate, trim_peaks}
use pi_live_captions.Audio.NoiseGate as NoiseGate
use pi_live_captions.Caption.Hub.State.{Hub}
use pi_live_captions.Caption.Hub.Operations.{clear}
use pi_live_captions.Metrics.State.{Metrics}
use pi_live_captions.Metrics.Operations.{observe_viewer_latency}
use pi_live_captions.Web.Limiter.{Limiter, allow_report}
use pi_live_captions.Web.Requests.{
  GateBody, settings_of, handle_noise_gate, admin_user, require_admin, handle_clear, post_clear,
  max_viewer_latency, handle_viewer_latency,
}

-- The screen is cleared, or nothing changed and the status says why.
pub record Guards (password : Text) (credentials : Option (Text × Text)) (h : Hub) (now : ℤ)
    (r : Hub × ℕ) : Type 0 where
  pub served :
      r.1 ≡ 204
      → (password ≢ []) × (credentials ≡ some (codes "admin", password)) × (r.0 ≡ clear h now)
  pub refused : r.1 ≢ 204 → r.0 ≡ h
  pub allowed : password ≢ [] → credentials ≡ some (codes "admin", password) → r.1 ≡ 204
  pub disabled : password ≡ [] → r ≡ (h, 503)

-- A report's three outcomes.
pub record Settles (fl : Float64) (l : Limiter) (m : Metrics fl.F) (r : Limiter × Metrics fl.F × ℕ)
    : Type 0 where
  pub counted : r.2 ≡ 204 → r.1.viewer_reports ≡ m.viewer_reports + 1
  pub ignored : r.2 ≢ 204 → r.1 ≡ m
  pub unread : r.2 ≡ 400 → r.0 ≡ l

not_empty : (c : ℕ) (cs : Text) → (c ∷ cs) ≢ []
not_empty c cs e = absurd (omega (arith, ap length e))

same_text : (a b : Text) → a ≡ b → text_eq a b ≡ true
same_text a b e = subst (λ c. text_eq a c ≡ true) e (text_eq_self a)

-- The clear control clears the screen for the user "admin" with the password that is set, and for
-- nobody else; a refusal leaves the hub alone, and with no password set every request is one, 503.
pub post_clear-Guards :
    (password : Text) (credentials : Option (Text × Text)) (h : Hub) (now : ℤ)
    → Guards password credentials h now (post_clear password credentials h now)
unfolding post_clear require_admin handle_clear
post_clear-Guards [] credentials h now = record {
  served = λ e. absurd (omega (arith, e));
  refused = λ e. refl;
  allowed = λ e f. absurd (e refl);
  disabled = λ e. refl;
}
post_clear-Guards (c ∷ cs) none h now = record {
  served = λ e. absurd (omega (arith, e));
  refused = λ e. refl;
  allowed = λ e f. absurd (none-ne-some _ f);
  disabled = λ e. absurd (not_empty c cs e);
}
post_clear-Guards (c ∷ cs) (some (user, pass)) h now =
    if_cases
      (λ (o : Option ℕ).
        Guards (c ∷ cs) (some (user, pass)) h now
          (elim o [ none ↦ (clear h now, 204) | some status ↦ (h, status) ]))
      (not (text_eq user admin_user) || not (text_eq pass (c ∷ cs)))
      (λ e. record {
        served = λ f. absurd (omega (arith, f));
        refused = λ f. refl;
        allowed = λ f g. absurd (
            ground (
              arith,
              e,
              same_text user admin_user (ap (λ p. p.0) (some-injective _ _ g)),
              same_text pass (c ∷ cs) (ap (λ p. p.1) (some-injective _ _ g)),
            ));
        disabled = λ f. absurd (not_empty c cs f);
      })
      (λ e.
        let u = text_eq_sound user admin_user (ground arith) in
        let p = text_eq_sound pass (c ∷ cs) (ground arith) in
        record {
          served = λ f. (not_empty c cs, (λ i. some (u i, p i)), refl);
          refused = λ f. absurd (f refl);
          allowed = λ f g. refl;
          disabled = λ f. absurd (not_empty c cs f);
        })

module _ (fl : Float64) where
  open fl use {F, of_int, trunc, mul, lt, is_nan, is_inf}

  observed_once :
      (m : Metrics F) (d : Duration) (now : ℤ)
      → pos 0 ≤ℤ d
      → (observe_viewer_latency m d now).viewer_reports ≡ m.viewer_reports + 1
  unfolding observe_viewer_latency
  observed_once m d now h =
      if_cases (λ (m' : Metrics F). m'.viewer_reports ≡ m.viewer_reports + 1) (ltb_ℤ d (pos 0))
        (λ e. absurd (ground arith)) (λ e. refl)

  -- Where float64 products of a finite number from 0 to 60,000 and 1,000,000 are not truncated below
  -- 0: a report that is answered 204 adds one to the count of reports, and one that is not changes
  -- no metric; one that is answered 400 does not count towards the limit.
  pub handle_viewer_latency-Settles :
      (l : Limiter) (m : Metrics F) (now observed : ℤ) (paint : Option F)
      → ((x : F)
          → is_nan x ≡ false
          → is_inf x ≡ false
          → lt x (of_int (pos 0)) ≡ false
          → lt (of_int (pos 60_000)) x ≡ false
          → pos 0 ≤ℤ trunc (mul x (of_int (pos 1_000_000))))
      → Settles fl l m (handle_viewer_latency fl l m now observed paint)
  unfolding handle_viewer_latency observe_viewer_latency
  handle_viewer_latency-Settles l m now observed none h = record {
    counted = λ e. absurd (omega (arith, e));
    ignored = λ e. refl;
    unread = λ e. refl;
  }
  handle_viewer_latency-Settles l m now observed (some paint) h =
      let bad : Settles fl l m (l, m, 400) = record {
        counted = λ e. absurd (omega (arith, e));
        ignored = λ e. refl;
        unread = λ e. refl;
      } in
      if_cases (Settles fl l m) (is_nan paint || is_inf paint) (λ e. bad)
        (λ e.
          if_cases (Settles fl l m) (lt paint (of_int (pos 0)) || lt (max_viewer_latency fl) paint)
            (λ f. bad)
            (λ f.
              if_cases (Settles fl l m) (not (allow_report l now).1)
                (λ g. record {
                  counted = λ e. absurd (omega (arith, e));
                  ignored = λ e. refl;
                  unread = λ e. absurd (omega (arith, e));
                })
                (λ g. record {
                  counted = λ c.
                      observed_once m _ observed
                        (h paint (ground arith) (ground arith) (ground arith) (ground arith));
                  ignored = λ e. absurd (e refl);
                  unread = λ e. absurd (omega (arith, e));
                })))

-- The gate after a request: changed only by one that is answered 200, which is of JSON, with one
-- object that has both numbers, and those valid; the snapshot of the answer drops old peaks.
pub record Applies (fl : Float64) (g : NoiseGate fl.F) (media : Option Text)
    (body : Option (GateBody fl.F)) (now : ℤ) (r : Option (NoiseGate fl.F) × ℕ) : Type 0 where
  pub refused : r.1 ≢ 200 → r.0 ≡ some g
  pub applied :
      r.1 ≡ 200
      → (s : NoiseSettings fl.F) × (media ≡ some (codes "application/json"))
        × (body
            ≡ some (record {
              threshold = some s.threshold_dbfs;
              release = some s.release_sec;
              alone = true;
            }))
        × (validate fl s ≡ true)
        × (r.0 ≡ some (record g { settings = s; peaks = trim_peaks now g.peaks }))

module _ (fl : Float64) where
  open fl use {F}

  refuses :
      (g : NoiseGate F) (media : Option Text) (body : Option (GateBody F)) (now : ℤ) (status : ℕ)
      → status ≢ 200
      → Applies fl g media body now (some g, status)
  refuses g media body now status n = record { refused = λ e. refl; applied = λ e. absurd (n e) }

  accepted :
      (g : NoiseGate F) (media : Text) (s : NoiseSettings F) (alone : Bool) (now : ℤ)
      → media ≡ codes "application/json"
      → Applies fl g
          (some media)
          (some (record {
            threshold = some s.threshold_dbfs;
            release = some s.release_sec;
            alone = alone;
          }))
          now
          (if not alone then (some g, 400) else elim (NoiseGate.set fl g s).1 [
            | none ↦ (some g, 400)
            | some told ↦ (some (NoiseGate.snapshot fl (NoiseGate.set fl g s).0 now).0, 200)
          ])
  unfolding NoiseGate.set NoiseGate.snapshot
  accepted g media s false now m = refuses g _ _ now 400 (λ e. omega (arith, e))
  accepted g media s true now m =
      if_cases
        (λ (r : NoiseGate F × Option (NoiseSettings F)).
          Applies fl g (some media)
            (some (record {
              threshold = some s.threshold_dbfs;
              release = some s.release_sec;
              alone = true;
            }))
            now
            (elim r.1 [
              | none ↦ (some g, 400)
              | some told ↦ (some (NoiseGate.snapshot fl r.0 now).0, 200)
            ]))
        (validate fl s)
        (λ e. record {
          refused = λ n. absurd (n refl);
          applied = λ n. (s, ap (λ x. some x) m, refl, e, refl);
        })
        (λ e. refuses g _ _ now 400 (λ n. omega (arith, n)))

  -- A request to a gate that is there changes nothing unless it is answered 200, which needs the
  -- JSON media type and one object with both numbers, in range; then the gate has these settings
  -- and is otherwise as it was, but for peaks of more than a second ago, which are dropped.
  pub handle_noise_gate-Applies :
      (g : NoiseGate F) (media : Option Text) (body : Option (GateBody F)) (now : ℤ)
      → Applies fl g media body now (handle_noise_gate fl (some g) media body now)
  unfolding handle_noise_gate NoiseGate.set NoiseGate.snapshot
  handle_noise_gate-Applies g none body now = refuses g none body now 415 (λ e. omega (arith, e))
  handle_noise_gate-Applies g (some media) body now =
      if_cases (Applies fl g (some media) body now) (not (text_eq media (codes "application/json")))
        (λ e. refuses g (some media) body now 415 (λ e. omega (arith, e)))
        (λ e. read body (text_eq_sound media (codes "application/json") (ground arith)))
    where
      bad : (b : Option (GateBody F)) → Applies fl g (some media) b now (some g, 400)
      bad b = refuses g (some media) b now 400 (λ e. omega (arith, e))

      body_read :
          (t r : Option F) (alone : Bool)
          → media ≡ codes "application/json"
          → Applies fl g
              (some media)
              (some (record { threshold = t; release = r; alone = alone }))
              now
              (elim (settings_of fl (some (record { threshold = t; release = r; alone = alone })))
                as (λ x. Option (NoiseGate F) × ℕ) [
                  | none ↦ (some g, 400)
                  | some p ↦ if not p.1 then (some g, 400) else elim (NoiseGate.set fl g p.0).1 [
                    | none ↦ (some g, 400)
                    | some told ↦
                        (some (NoiseGate.snapshot fl (NoiseGate.set fl g p.0).0 now).0, 200)
                  ]
                ])
      body_read none r alone m = bad _
      body_read (some t) none alone m = bad _
      body_read (some t) (some r) alone m =
          accepted g media (record { threshold_dbfs = t; release_sec = r }) alone now m

      read :
          (b : Option (GateBody F))
          → media ≡ codes "application/json"
          → Applies fl g
              (some media)
              b
              now
              (elim (settings_of fl b) as (λ x. Option (NoiseGate F) × ℕ) [
                | none ↦ (some g, 400)
                | some p ↦ if not p.1 then (some g, 400) else elim (NoiseGate.set fl g p.0).1 [
                  | none ↦ (some g, 400)
                  | some told ↦ (some (NoiseGate.snapshot fl (NoiseGate.set fl g p.0).0 now).0, 200)
                ]
              ])
      read none m = bad none
      read (some b) m = body_read b.threshold b.release b.alone m
