-- ===== src/Cli/Session/Records.antt =====
-- internal/cli/run.go: what the last calls on the writer add to the audit stream.
use pi_live_captions.Base.{
  List, [], ◌∷◌, ◌++◌, map, map-append, append-nil, true, false, Option, none, some, ◌≡◌, refl, sym,
  ℤ, codes, if_cases, arith,
}
use pi_live_captions.Caption.Writer.State.{Writer, Failure, AuditRecord, Payload, AttrValue}
use pi_live_captions.Caption.Writer.Sink.{write_audit, write_audit_locked, report_audit_err}
use pi_live_captions.Caption.Writer.Lines.{fail, flush_audit, flushed, flush, close}

module _ {F : Type 0} where
  abbrev pub payloads : Writer F → List (Payload F)
  payloads w = map (λ (r : AuditRecord F). r.payload) w.records

  -- The record of a transcript that cannot be written.
  abbrev pub failure_payloads : Option Failure → List (Payload F)
  failure_payloads none = []
  failure_payloads (some e) =
      Payload.diagnostic (codes "error") (codes "transcript write failed")
        ((codes "err", AttrValue.text e) ∷ [])
      ∷ []

  abbrev pub IsWorking : Writer F → Type 0
  IsWorking w = (w.closed ≡ false) × (w.audit_disabled ≡ false)

  pub write_audit-accepted :
      (w : Writer F) (r : AuditRecord F)
      → w.audit_disabled ≡ false
      → write_audit w r none ≡ record w { records = w.records ++ r ∷ [] }
  unfolding write_audit write_audit_locked report_audit_err
  write_audit-accepted w r d =
      if_cases
        (λ (o : Writer F × Option Failure).
          report_audit_err o.0 o.1 ≡ record w { records = w.records ++ r ∷ [] })
        w.audit_disabled (λ h. ground arith) (λ h. refl)

  pub flushed-payloads :
      (w : Writer F) (refused : Option Failure) (now : ℤ)
      → w.audit_disabled ≡ false
      → payloads (flushed w refused none now) ≡ payloads w ++ failure_payloads refused
  unfolding flushed fail write_audit_locked
  flushed-payloads w none now d = sym (append-nil (payloads w))
  flushed-payloads w (some e) now d =
      if_cases
        (λ (o : Writer F × Option Failure). payloads o.0 ≡ payloads w ++ failure_payloads (some e))
        w.audit_disabled (λ h. ground arith) (λ h. map-append _ w.records _)

  pub flushed-IsWorking :
      (w : Writer F) (refused : Option Failure) (now : ℤ)
      → IsWorking w
      → IsWorking (flushed w refused none now)
  unfolding flushed fail write_audit_locked
  flushed-IsWorking w none now v = v
  flushed-IsWorking w (some e) now v =
      if_cases (λ (o : Writer F × Option Failure). IsWorking o.0) w.audit_disabled (λ h. v) (λ h. v)

  pub flush-flushed :
      (w : Writer F) (refused : Option Failure) (now : ℤ)
      → w.closed ≡ false
      → flush w refused none none now ≡ flushed w refused none now
  unfolding flush flush_audit report_audit_err
  flush-flushed w refused now c = rw (c) refl

  report_audit_err-records :
      (w : Writer F) (e : Option Failure) → (report_audit_err w e).records ≡ w.records
  unfolding report_audit_err
  report_audit_err-records w none = refl
  report_audit_err-records w (some e) = refl

  flush_audit-records :
      (w : Writer F) (e : Option Failure) → (flush_audit w e).0.records ≡ w.records
  unfolding flush_audit
  flush_audit-records w none = refl
  flush_audit-records w (some e) =
      if_cases (λ (o : Writer F × Option Failure). o.0.records ≡ w.records) _ (λ h. refl)
        (λ h. refl)

  -- A close of a working writer whose audit stream takes the record.
  pub close-payloads :
      (w : Writer F) (refused close_err audit_refused audit_close_err : Option Failure) (now : ℤ)
      → IsWorking w
      → payloads (close w refused none close_err audit_refused audit_close_err now).0
        ≡ payloads w ++ failure_payloads refused
  unfolding close
  close-payloads w refused ce ar ac now (c, d) =
      rw (c, report_audit_err-records, report_audit_err-records, flush_audit-records)
        (flushed-payloads (record w { closed = true }) refused now d)
