-- ===== src/Cli/Session/Latency.antt =====
-- internal/cli/run.go: observeLatency's split of a latency into phases adds up.
use mathlib.Core.List.{Memᴰ}
use pi_live_captions.Base.{
  ℕ, zero, suc, ◌-◌, List, [], ◌∷◌, ◌++◌, map, map-append, Bool, false, ◌||◌, ◌≡◌, refl, sym, subst,
  ap, ◌∙◌, none, some, ℤ, pos, ◌+ℤ◌, ◌-ℤ◌, ltb_ℤ, length, ltb, +ℤ_parts, -ℤ_parts, eq_of_parts, All,
  if◌then◌else◌, if_cases, option_cases, is_empty, Text, arith,
}
use pi_live_captions.Audio.Format.{Duration, Time}
use pi_live_captions.Stt.Transcript.{text_of}
use pi_live_captions.Metrics.Latency.{LatencySample, latency_cap, drop, first_kept, trim, observe}
use pi_live_captions.Metrics.Percentile.Sorting.{every_member}
use pi_live_captions.Metrics.State.{Metrics, new_metrics}
use pi_live_captions.Metrics.Operations.{observe_latency, observe_phases}
use pi_live_captions.Metrics.Phases.{
  expired_of, expired-instants, length-instants, ArePhases, observe_phases-ArePhases,
}
use pi_live_captions.Cli.Session.{Published, attribute, observe_transcript, observe_transcripts}

-- What each moment's three phases add up to.
abbrev pub sums : List LatencySample → List LatencySample → List LatencySample → List ℤ
sums [] ks bs = []
sums (u ∷ us) [] bs = []
sums (u ∷ us) (k ∷ ks) [] = []
sums (u ∷ us) (k ∷ ks) (a ∷ bs) = (u.d +ℤ k.d +ℤ a.d) ∷ sums us ks bs

sums-no_second : (us bs : List LatencySample) → sums us [] bs ≡ []
sums-no_second [] bs = refl
sums-no_second (u ∷ us) bs = refl

sums-no_third : (us ks : List LatencySample) → sums us ks [] ≡ []
sums-no_third [] ks = refl
sums-no_third (u ∷ us) [] = refl
sums-no_third (u ∷ us) (k ∷ ks) = refl

abbrev times : List LatencySample → List ℤ
times ss = map (λ (x : LatencySample). x.at) ss

times_grow :
    (d d' : Duration) (ss ss' : List LatencySample) (now : ℤ)
    → times ss ≡ times ss'
    → times (ss ++ record { d = d; at = now } ∷ [])
      ≡ times (ss' ++ record { d = d'; at = now } ∷ [])
times_grow d d' ss ss' now e =
    map-append _ ss _ ∙ ap (λ ts. ts ++ now ∷ []) e ∙ sym (map-append _ ss' _)

same_length : (ss ss' : List LatencySample) → times ss ≡ times ss' → length ss ≡ length ss'
same_length ss ss' e = length-instants ss ∙ ap length e ∙ sym (length-instants ss')

first_kept_times :
    (ss ss' : List LatencySample)
    → times ss ≡ times ss'
    → (now : ℤ) → first_kept now ss ≡ first_kept now ss'
unfolding first_kept
first_kept_times ss ss' e now =
    keeps ss ∙ ap (λ ts. kept (expired_of now ts) (length ts)) e ∙ sym (keeps ss')
  where
    kept : ℕ → ℕ → ℕ
    kept i n = if ltb latency_cap (n - i) then n - latency_cap else i

    keeps :
        (xs : List LatencySample)
        → first_kept now xs ≡ kept (expired_of now (times xs)) (length (times xs))
    keeps xs i = kept (expired-instants now xs i) (length-instants xs i)

adds_up : (c s r p : ℤ) → (s -ℤ c) +ℤ (r -ℤ s) +ℤ (p -ℤ r) ≡ p -ℤ c
adds_up c s r p = eq_of_parts _ _ (
    omega (
      arith,
      +ℤ_parts ((s -ℤ c) +ℤ (r -ℤ s)) (p -ℤ r),
      +ℤ_parts (s -ℤ c) (r -ℤ s),
      -ℤ_parts s c,
      -ℤ_parts r s,
      -ℤ_parts p r,
      -ℤ_parts p c,
    ))

-- The latencies from capture to publication, in front of others.
abbrev pub total_of : Time → ℤ → List ℤ → List ℤ
total_of none published ds = ds
total_of (some captured) published ds = (published -ℤ captured) ∷ ds

abbrev pub totals : List Published → List ℤ
totals [] = []
totals (h ∷ hs) = total_of h.transcript.captured_at h.published (totals hs)

module _ (P : ℤ → Type 0) where
  sums-drop :
      (n : ℕ) (us ks bs : List LatencySample)
      → All P (sums us ks bs)
      → All P (sums (drop n us) (drop n ks) (drop n bs))
  sums-drop zero us ks bs p = p
  sums-drop (suc n) [] ks bs p = tt
  sums-drop (suc n) (u ∷ us) [] bs p = rw (sums-no_second) tt
  sums-drop (suc n) (u ∷ us) (k ∷ ks) [] p = rw (sums-no_third) tt
  sums-drop (suc n) (u ∷ us) (k ∷ ks) (a ∷ bs) p = sums-drop n us ks bs p.1

  sums-append :
      (us ks bs : List LatencySample) (u k a : LatencySample)
      → length us ≡ length ks
      → length us ≡ length bs
      → All P (sums us ks bs)
      → P (u.d +ℤ k.d +ℤ a.d)
      → All P (sums (us ++ u ∷ []) (ks ++ k ∷ []) (bs ++ a ∷ []))
  sums-append [] [] [] u k a e f p q = (q, tt)
  sums-append [] [] (x ∷ bs) u k a e f p q = absurd (omega arith)
  sums-append [] (x ∷ ks) bs u k a e f p q = absurd (omega arith)
  sums-append (x ∷ us) [] bs u k a e f p q = absurd (omega arith)
  sums-append (x ∷ us) (y ∷ ks) [] u k a e f p q = absurd (omega arith)
  sums-append (x ∷ us) (y ∷ ks) (z ∷ bs) u k a e f p q =
      (p.0, sums-append us ks bs u k a (omega arith) (omega arith) p.1 q)

  sums-trim :
      (us ks bs : List LatencySample) (now : ℤ)
      → times us ≡ times ks
      → times us ≡ times bs
      → All P (sums us ks bs)
      → All P (
          sums
            (drop (first_kept now us) us)
            (drop (first_kept now ks) ks)
            (drop (first_kept now bs) bs))
  sums-trim us ks bs now e f p =
      subst
        (λ n. All P (sums (drop (first_kept now us) us) (drop n ks) (drop (first_kept now bs) bs)))
        (first_kept_times us ks e now)
        (subst
          (λ n.
            All P (sums (drop (first_kept now us) us) (drop (first_kept now us) ks) (drop n bs)))
          (first_kept_times us bs f now) (sums-drop (first_kept now us) us ks bs p))

  -- The series of the phases are of the same moments, and what they add up to has the property.
  abbrev pub Accounted : {F : Type 0} → Metrics F → Type 0
  Accounted m =
      ArePhases m × All P (sums m.lat_upload.samples m.lat_recognize.samples m.lat_assemble.samples)

  module _ {F : Type 0} where
    phases-sums :
        (m : Metrics F) (u k a : Duration) (now : ℤ)
        → ltb_ℤ u (pos 0) ≡ false
        → ltb_ℤ k (pos 0) ≡ false
        → ltb_ℤ a (pos 0) ≡ false
        → P (u +ℤ k +ℤ a)
        → Accounted m
        → All P (
            sums
              (observe m.lat_upload u now).samples
              (observe m.lat_recognize k now).samples
              (observe m.lat_assemble a now).samples)
    unfolding observe trim
    phases-sums m u k a now x y z p (v, s) =
        rw (x, y, z)
          (sums-trim _ _ _ now (times_grow _ _ _ _ now v.0) (times_grow _ _ _ _ now v.1) (
            sums-append m.lat_upload.samples m.lat_recognize.samples m.lat_assemble.samples _ _ _
              (same_length _ _ v.0) (same_length _ _ v.1) s p))

    phases-Accounted :
        (m : Metrics F) (u k a : Duration) (now : ℤ)
        → P (u +ℤ k +ℤ a)
        → Accounted m
        → Accounted (observe_phases m u k a now)
    unfolding observe_phases
    phases-Accounted m u k a now p v = (
      observe_phases-ArePhases m u k a now v.0,
      if_cases
          (λ (x : Metrics F).
            All P (sums x.lat_upload.samples x.lat_recognize.samples x.lat_assemble.samples))
          (ltb_ℤ u (pos 0) || ltb_ℤ k (pos 0) || ltb_ℤ a (pos 0)) (λ h. v.1)
          (λ h. let (x, y, z) = none_of _ _ _ h in phases-sums m u k a now x y z p v),
    )
      where
        none_of : (x y z : Bool) → (x || y || z) ≡ false → (x ≡ false) × (y ≡ false) × (z ≡ false)
        none_of x y z h = ground arith

    attribute-Accounted :
        (m : Metrics F) (captured received : ℤ) (sent : Time) (published now : ℤ)
        → P (published -ℤ captured)
        → Accounted m
        → Accounted (attribute m captured received sent (some published) now)
    unfolding attribute
    attribute-Accounted m c r none p now h v = v
    attribute-Accounted m c r (some s) p now h v =
        phases-Accounted m _ _ _ now (subst P (sym (adds_up c s r p)) h) v

    -- One transcript and those behind it.
    observe_transcript-Accounted :
        (m : Metrics F) (h : Published) (ds : List ℤ)
        → All P (total_of h.transcript.captured_at h.published ds)
        → Accounted m
        → Accounted (observe_transcript m h.transcript (some h.published) h.now h.now_phases)
          × All P ds
    unfolding observe_transcript observe_latency
    observe_transcript-Accounted m h ds p v = (
      option_cases Accounted h.transcript.received_at (λ e. v)
          (λ r e.
            option_cases Accounted h.transcript.captured_at (λ e. v)
              (λ c e.
                if_cases Accounted (is_empty (text_of h.transcript)) (λ e. v)
                  (λ f.
                    attribute-Accounted _ c r h.transcript.sent_at h.published h.now_phases
                      (subst (λ t. All P (total_of t h.published ds)) e p).0 v))),
      rest h.transcript.captured_at p,
    )
      where
        rest : (captured : Time) → All P (total_of captured h.published ds) → All P ds
        rest none p = p
        rest (some c) p = p.1

    observe_transcripts-Accounted :
        (hs : List Published) (m : Metrics F)
        → All P (totals hs)
        → Accounted m
        → Accounted (observe_transcripts m hs)
    unfolding observe_transcripts
    observe_transcripts-Accounted [] m p v = v
    observe_transcripts-Accounted (h ∷ hs) m p v =
        let (v', q) = observe_transcript-Accounted m h (totals hs) p v in
        observe_transcripts-Accounted hs _ q v'

-- Of the transcripts of a session, from new metrics and at any readings of the clock: the series of
-- the three phases are of the same moments, and what they add up to at each is exactly the latency
-- from the capture to the publication of one of the transcripts.
pub observe_transcripts-new_metrics-Accounted :
    (F : Type 0) (version id : Text) (start : ℤ) (hs : List Published)
    → let m : Metrics F = new_metrics version id start in
      Accounted (λ x. Memᴰ x (totals hs)) (observe_transcripts m hs)
unfolding new_metrics
observe_transcripts-new_metrics-Accounted F version id start hs =
    observe_transcripts-Accounted (λ x. Memᴰ x (totals hs)) hs _ (every_member (totals hs))
      ((refl, refl), tt)
