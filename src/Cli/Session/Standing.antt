-- ===== src/Cli/Session/Standing.antt =====
-- internal/cli/run.go: a session that is over and whose writer still works.
use pi_live_captions.Base.{
  List, [], ◌∷◌, ◌++◌, map-append, append-nil, not, ◌||◌, Option, none, some, ◌≡◌, refl, sym, subst,
  ap, ◌∙◌, ℤ, Text, codes, ◌==◌, if◌then◌else◌, if_cases, if_cases_both, option_cases,
}
use pi_live_captions.Caption.Writer.State.{Writer, AuditRecord, Payload}
use pi_live_captions.Caption.Writer.Sink.{write_audit, state_record}
use pi_live_captions.Metrics.ConnState.{ConnState, conn_number}
use pi_live_captions.Metrics.State.{Metrics}
use pi_live_captions.Ui.Terminal.{Terminal}
use pi_live_captions.Cli.Session.{
  Session, Answers, Meeting, with_writer, audit_state, change_state, transcript_fails, flush_writer,
  close_writer, on_writer,
}
use pi_live_captions.Cli.Session.Over.{
  IsOver, audit_fails-IsOver, set_transcript_error-IsOver, set_stt_state-IsOver,
}
use pi_live_captions.Cli.Session.Records.{
  payloads, failure_payloads, IsWorking, write_audit-accepted, flushed-payloads, flushed-IsWorking,
  flush-flushed, close-payloads,
}

-- What the audit stream answers is that it takes the records.
abbrev pub Accepts : Meeting → Type 0
Accepts e =
    (e.state_answer ≡ none)
    × (e.flushing.answer ≡ none)
    × (e.flushing.audit_refused ≡ none)
    × (e.end_answer ≡ none)
    × (e.closing.answer ≡ none)

module _ {F : Type 0} where
  -- A working writer that wrote these.
  abbrev pub IsRecording : Option (Writer F) → List (Payload F) → Type 0
  IsRecording none ps = ⊥
  IsRecording (some w) ps = IsWorking w × (payloads w ≡ ps)

  -- A session that is over and has this terminal, with its writer still working.
  abbrev pub Stands : Session F → Terminal → List (Payload F) → Type 0
  Stands s t ps = IsOver s.met × (s.term ≡ t) × IsRecording s.writer ps

  -- What a change to the closed state writes.
  abbrev pub state_payloads : Metrics F → List (Payload F)
  state_payloads m =
      if conn_number m.stt_state == conn_number ConnState.closed || not m.has_state_hook
      then []
      else Payload.state_change (codes "stt") (codes "closed") ∷ []

  pub record-Stands :
      (s : Session F) (w : Writer F) (r : AuditRecord F) (t : Terminal) (ps : List (Payload F))
      (now : ℤ)
      → IsOver s.met
      → s.term ≡ t
      → IsWorking w
      → payloads w ≡ ps
      → Stands (with_writer s w (write_audit w r none) now) t (ps ++ r.payload ∷ [])
  unfolding with_writer
  record-Stands s w r t ps now o e v p = rw (write_audit-accepted w r v.1) (
    audit_fails-IsOver _ s.met now o,
    e,
    (v, map-append _ w.records _ ∙ ap (λ x. x ++ r.payload ∷ []) p),
  )

  audit_state-Stands :
      (s : Session F) (t : Terminal) (ps : List (Payload F)) (component state : Text) (now : ℤ)
      → Stands s t ps
      → Stands
          (audit_state s component state now none)
          t
          (ps ++ Payload.state_change component state ∷ [])
  unfolding audit_state state_record
  audit_state-Stands s t ps component state now (o, e, r) =
      option_cases (λ (x : Session F). Stands x t (ps ++ Payload.state_change component state ∷ []))
        s.writer (λ h. absurd (subst (λ x. IsRecording x ps) h r))
        (λ w h.
          let (v, p) = subst (λ x. IsRecording x ps) h r in record-Stands s w _ t ps now o e v p)

  pub change_state-Stands :
      (s : Session F) (ps : List (Payload F)) (now : ℤ)
      → IsRecording s.writer ps
      → Stands (change_state s ConnState.closed now none) s.term (ps ++ state_payloads s.met)
  unfolding change_state
  change_state-Stands s ps now r =
      if_cases_both (λ (x : Session F) (qs : List (Payload F)). Stands x s.term (ps ++ qs))
        (conn_number s.met.stt_state == 4 || not s.met.has_state_hook)
        (λ h.
          (set_stt_state-IsOver s.met, refl, subst (IsRecording s.writer) (sym (append-nil ps)) r))
        (λ h.
          audit_state-Stands _ s.term ps (codes "stt") (codes "closed") now
            (set_stt_state-IsOver s.met, refl, r))

  pub flush_writer-Stands :
      (s : Session F) (w : Writer F) (a : Answers) (t : Terminal) (ps : List (Payload F)) (now : ℤ)
      → a.answer ≡ none
      → a.audit_refused ≡ none
      → IsOver s.met
      → s.term ≡ t
      → IsWorking w
      → payloads w ≡ ps
      → Stands (flush_writer s w a now) t (ps ++ failure_payloads a.refused)
  unfolding flush_writer with_writer transcript_fails
  flush_writer-Stands s w a t ps now f g o e v p =
      rw (f, g, flush-flushed w a.refused now v.0)
        (
          audit_fails-IsOver _ _ now (
              if_cases IsOver w.closed (λ h. o)
                (λ h. set_transcript_error-IsOver s.met a.refused now o)),
          e,
          (
            flushed-IsWorking w a.refused now v,
            flushed-payloads w a.refused now v.1 ∙ ap (λ x. x ++ failure_payloads a.refused) p,
          ),
        )

  abbrev pub IsWritten : Option (Writer F) → List (Payload F) → Type 0
  IsWritten none ps = ⊥
  IsWritten (some w) ps = payloads w ≡ ps

  -- A step on the writer that is there.
  pub on_writer_lem :
      (Q : Session F → Type 0) (f : Session F → Writer F → Session F) (s : Session F)
      (ps : List (Payload F))
      → IsRecording s.writer ps
      → ((w : Writer F) → IsWorking w → payloads w ≡ ps → Q (f s w))
      → Q (on_writer f s)
  unfolding on_writer
  on_writer_lem Q f s ps r q =
      option_cases Q s.writer (λ h. absurd (subst (λ x. IsRecording x ps) h r))
        (λ w h. let (v, p) = subst (λ x. IsRecording x ps) h r in q w v p)

  pub close_writer-IsWritten :
      (s : Session F) (w : Writer F) (a : Answers) (ps : List (Payload F)) (now : ℤ)
      → a.answer ≡ none
      → IsWorking w
      → payloads w ≡ ps
      → IsWritten (close_writer s w a now).writer (ps ++ failure_payloads a.refused)
  unfolding close_writer with_writer
  close_writer-IsWritten s w a ps now f v p = rw (f) (
      close-payloads w a.refused a.close_err a.audit_refused a.audit_close_err now v
      ∙ ap (λ x. x ++ failure_payloads a.refused) p)
