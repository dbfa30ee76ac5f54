-- ===== src/Caption/Writer/Reports.antt =====
-- How often a failure of the audit stream is reported.
use pi_live_captions.Base.{
  [], ◌∷◌, ◌++◌, append_assoc, Bool, true, false, ◌&&◌, Option, none, some, ◌≡◌, refl, ap, ◌∙◌, ℤ,
  text_eq, if_cases, arith,
}
use pi_live_captions.Caption.Event.{Line}
use pi_live_captions.Caption.Writer.State.{Writer, Failure, AuditRecord}
use pi_live_captions.Caption.Writer.Sink.{
  write_audit_locked, report_audit_err, flush_pending_audit_err, write_audit,
}
use pi_live_captions.Caption.Writer.Lines.{is_marker, wrote, write}

module _ {F : Type 0} where
  -- What a record that the sink refuses leaves, of a writer whose sink works.
  abbrev after_refusal : Writer F → Failure → Writer F
  after_refusal w e = record w {
    audit_disabled = true;
    pending_audit_err = some e;
    reports = w.reports ++ e ∷ [];
  }

  write_audit-refused :
      (w : Writer F) (r : AuditRecord F) (e : Failure)
      → w.audit_disabled ≡ false
      → write_audit w r (some e) ≡ after_refusal w e
  unfolding write_audit write_audit_locked report_audit_err
  write_audit-refused w r e d =
      if_cases (λ (o : Writer F × Option Failure). report_audit_err o.0 o.1 ≡ after_refusal w e)
        w.audit_disabled (λ h. ground arith) (λ h. refl)

  -- A line written with the sink disabled and a failure pending.
  write-pending :
      (w : Writer F) (e : Failure) (l : Line) (answer : Option Failure) (now : ℤ)
      → w.closed ≡ false
      → is_marker l.text ≡ false
      → (write (after_refusal w e) l none answer now).reports ≡ (w.reports ++ e ∷ []) ++ e ∷ []
  unfolding write wrote write_audit_locked flush_pending_audit_err report_audit_err
  write-pending w e l answer now c m =
      if_cases (λ (x : Writer F). x.reports ≡ (w.reports ++ e ∷ []) ++ e ∷ []) w.closed
        (λ h. ground arith)
        (λ h.
          if_cases (λ (x : Writer F). x.reports ≡ (w.reports ++ e ∷ []) ++ e ∷ [])
            (is_marker l.text && text_eq l.text w.last_marker)
            (λ k. absurd_marker (is_marker l.text) (text_eq l.text w.last_marker) m k) (λ k. refl))
    where
      absurd_marker : {A : Type 0} (a b : Bool) → a ≡ false → (a && b) ≡ true → A
      absurd_marker true b f t = absurd (ground arith)
      absurd_marker false b f t = absurd (ground arith)

  -- If the working sink refuses a record that is not a line's, the failure is reported twice: at
  -- once, and again by the next line that is written, since it was left pending.
  pub write_audit-reports_twice :
      (w : Writer F) (r : AuditRecord F) (e : Failure) (l : Line) (answer : Option Failure)
      (now : ℤ)
      → w.closed ≡ false
      → w.audit_disabled ≡ false
      → is_marker l.text ≡ false
      → (write (write_audit w r (some e)) l none answer now).reports ≡ w.reports ++ e ∷ e ∷ []
  write_audit-reports_twice w r e l answer now c d m =
      ap (λ x. (write x l none answer now).reports) (write_audit-refused w r e d)
      ∙ write-pending w e l answer now c m
      ∙ append_assoc w.reports (e ∷ []) (e ∷ [])
