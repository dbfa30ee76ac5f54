-- ===== src/Caption/Writer/Mirror.antt =====
-- What the two files say of the lines.
pub mod History
use pi_live_captions.Base.{
  ℕ, suc, ◌+◌, List, [], ◌∷◌, ◌++◌, append-nil, append_assoc, map, map-append, Bool, true, false,
  not, ◌&&◌, ◌||◌, Option, none, some, ◌≡◌, refl, ap, sym, subst, ◌∙◌, ℤ, Text, text_eq,
  text_eq_sound, length, length-append, if◌then◌else◌, if_cases, option_cases, Option-cases, inl,
  inr, arith, Bool-cases,
}
use pi_live_captions.Audio.NoiseGate.{NoiseSettings}
use pi_live_captions.Caption.Event.{Line}
use pi_live_captions.Caption.Writer.State.{
  Writer, Failure, AuditRecord, Payload, started, spoken, marked, gate_edge, gate_config,
  state_change, diagnostic, dropped, ended, new_writer,
}
use pi_live_captions.Caption.Writer.Sink.{
  plain, write_audit_locked, report_audit_err, flush_pending_audit_err, write_audit, session_start,
  session_end, gate_edge_record, gate_config_record, state_record, drop_record, log_record,
}
use pi_live_captions.Caption.Writer.Lines.{
  is_marker, line_record, fail, wrote, write, flush_audit, flushed, flush, close_audit, close,
}
use pi_live_captions.Caption.Writer.Compact.{
  IsCompact, marker_or_none, marker_of_last, IsCompact-append, marker_of_last-append,
}
use pi_live_captions.Caption.Writer.Run.{
  Call, writes, flushes, closes, starts, ends, edges, configures, changes_state, drops, logs, call,
  run,
}

abbrev pub line_texts : List Line → List Text
line_texts = map λ l. l.text

module _ {F : Type 0} where
  -- The texts of the records that mirror lines.
  abbrev pub mirrored_of : Payload F → List Text
  mirrored_of (started m) = []
  mirrored_of (spoken t n e) = t ∷ []
  mirrored_of (marked t) = t ∷ []
  mirrored_of (gate_edge o s) = []
  mirrored_of (gate_config c s) = []
  mirrored_of (state_change c s) = []
  mirrored_of (diagnostic l m a) = []
  mirrored_of (dropped c e n) = []
  mirrored_of (ended s) = []

  abbrev pub mirrored : List (AuditRecord F) → List Text
  mirrored [] = []
  mirrored (r ∷ rs) = mirrored_of r.payload ++ mirrored rs

  pub record IsMirrored (w : Writer F) : Type 0 where
    pub compact : IsCompact w.lines
    pub marker : w.last_marker ≡ marker_of_last w.lines
    pub counted : w.lines_wrote ≡ length w.lines
    pub lost : List Text
    pub texts : line_texts w.lines ≡ mirrored w.records ++ lost
    pub complete : w.audit_disabled ≡ false → lost ≡ []

  pub mirrored-append :
      (rs ss : List (AuditRecord F)) → mirrored (rs ++ ss) ≡ mirrored rs ++ mirrored ss
  mirrored-append [] ss = refl
  mirrored-append (r ∷ rs) ss =
      ap (λ t. mirrored_of r.payload ++ t) (mirrored-append rs ss)
      ∙ sym (append_assoc (mirrored_of r.payload) (mirrored rs) (mirrored ss))

  mirrored-silent :
      (rs : List (AuditRecord F)) (r : AuditRecord F)
      → mirrored_of r.payload ≡ []
      → mirrored (rs ++ r ∷ []) ≡ mirrored rs
  mirrored-silent rs r e =
      mirrored-append rs (r ∷ []) ∙ ap (λ t. mirrored rs ++ (t ++ [])) e ∙ append-nil (mirrored rs)

  -- A record that mirrors no line.
  pub locked-IsMirrored :
      (w : Writer F) (r : AuditRecord F) (answer : Option Failure)
      → mirrored_of r.payload ≡ []
      → IsMirrored w
      → IsMirrored (write_audit_locked w r answer).0
  unfolding write_audit_locked
  locked-IsMirrored w r answer e v =
      if_cases (λ (o : Writer F × Option Failure). IsMirrored o.0) w.audit_disabled (λ d. v)
        (λ d.
          option_cases (λ (o : Writer F × Option Failure). IsMirrored o.0) answer
            (λ a. record {
              compact = v.compact;
              marker = v.marker;
              counted = v.counted;
              lost = v.lost;
              texts = v.texts ∙ ap (λ t. t ++ v.lost) (sym (mirrored-silent w.records r e));
              complete = v.complete;
            })
            (λ x a. record {
              compact = v.compact;
              marker = v.marker;
              counted = v.counted;
              lost = v.lost;
              texts = v.texts;
              complete = λ h. ground arith;
            }))

  pub report-IsMirrored :
      (w : Writer F) (o : Option Failure) → IsMirrored w → IsMirrored (report_audit_err w o)
  unfolding report_audit_err
  report-IsMirrored w none v = v
  report-IsMirrored w (some e) v = record {
    compact = v.compact;
    marker = v.marker;
    counted = v.counted;
    lost = v.lost;
    texts = v.texts;
    complete = v.complete;
  }

  pub pending-IsMirrored : (w : Writer F) → IsMirrored w → IsMirrored (flush_pending_audit_err w)
  unfolding flush_pending_audit_err
  pending-IsMirrored w v =
      report-IsMirrored (record w { pending_audit_err = none }) w.pending_audit_err
        (record {
          compact = v.compact;
          marker = v.marker;
          counted = v.counted;
          lost = v.lost;
          texts = v.texts;
          complete = v.complete;
        })

  pub write_audit-IsMirrored :
      (w : Writer F) (r : AuditRecord F) (answer : Option Failure)
      → mirrored_of r.payload ≡ []
      → IsMirrored w
      → IsMirrored (write_audit w r answer)
  unfolding write_audit
  write_audit-IsMirrored w r answer e v =
      report-IsMirrored _ (write_audit_locked w r answer).1 (locked-IsMirrored w r answer e v)

  pub fail-IsMirrored :
      (w : Writer F) (e : Failure) (answer : Option Failure) (now : ℤ)
      → IsMirrored w
      → IsMirrored (fail w e answer now)
  unfolding fail
  fail-IsMirrored w e answer now v =
      locked-IsMirrored (record w { transcript_err = some e }) _ answer refl
        (record {
          compact = v.compact;
          marker = v.marker;
          counted = v.counted;
          lost = v.lost;
          texts = v.texts;
          complete = v.complete;
        })

  flushed-IsMirrored :
      (w : Writer F) (o answer : Option Failure) (now : ℤ)
      → IsMirrored w
      → IsMirrored (flushed w o answer now)
  unfolding flushed
  flushed-IsMirrored w none answer now v = v
  flushed-IsMirrored w (some e) answer now v = fail-IsMirrored w e answer now v

  flush_audit-IsMirrored :
      (w : Writer F) (o : Option Failure) → IsMirrored w → IsMirrored (flush_audit w o).0
  unfolding flush_audit
  flush_audit-IsMirrored w none v = v
  flush_audit-IsMirrored w (some e) v =
      if_cases (λ (o : Writer F × Option Failure). IsMirrored o.0)
        (w.has_audit && not w.audit_disabled)
        (λ h. record {
          compact = v.compact;
          marker = v.marker;
          counted = v.counted;
          lost = v.lost;
          texts = v.texts;
          complete = λ x. ground arith;
        })
        (λ h. v)

  pub flush-IsMirrored :
      (w : Writer F) (o answer a : Option Failure) (now : ℤ)
      → IsMirrored w
      → IsMirrored (flush w o answer a now)
  unfolding flush
  flush-IsMirrored w o answer a now v =
      if_cases IsMirrored w.closed (λ h. v)
        (λ h.
          report-IsMirrored _ _ (flush_audit-IsMirrored _ a (flushed-IsMirrored w o answer now v)))

  pub close-IsMirrored :
      (w : Writer F) (o answer c a ac : Option Failure) (now : ℤ)
      → IsMirrored w
      → IsMirrored (close w o answer c a ac now).0
  unfolding close
  close-IsMirrored w o answer c a ac now v =
      if_cases (λ (p : Writer F × Option Failure). IsMirrored p.0) w.closed (λ h. v)
        (λ h. report-IsMirrored _ _ (
          report-IsMirrored _ _ (
            flush_audit-IsMirrored _ a (
              flushed-IsMirrored (record w { closed = true }) o answer now
                (record {
                  compact = v.compact;
                  marker = v.marker;
                  counted = v.counted;
                  lost = v.lost;
                  texts = v.texts;
                  complete = v.complete;
                })))))

  pub line_record-mirrors :
      (w : Writer F) (l : Line) (now : ℤ) → mirrored_of (line_record w l now).payload ≡ l.text ∷ []
  unfolding line_record
  line_record-mirrors w l now =
      if_cases (λ (r : AuditRecord F). mirrored_of r.payload ≡ l.text ∷ []) (is_marker l.text)
        (λ e. refl) (λ e. refl)
