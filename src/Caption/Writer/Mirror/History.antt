-- ===== src/Caption/Writer/Mirror/History.antt =====
-- The lines of a history of calls, and the records that mirror them.
use pi_live_captions.Base.{
  ◌+◌, List, [], ◌∷◌, ◌++◌, append-nil, append_assoc, map-append, false, ◌&&◌, Option, ◌≡◌, refl,
  ap, sym, subst, ◌∙◌, ℤ, Text, text_eq, length, length-append, if_cases, option_cases, arith,
}
use pi_live_captions.Caption.Event.{Line}
use pi_live_captions.Caption.Writer.State.{Writer, Failure, AuditRecord, new_writer}
use pi_live_captions.Caption.Writer.Sink.{
  write_audit_locked, session_start, session_end, gate_edge_record, gate_config_record,
  state_record, drop_record, log_record,
}
use pi_live_captions.Caption.Writer.Lines.{is_marker, wrote, write}
use pi_live_captions.Caption.Writer.Compact.{
  IsCompact, marker_or_none, marker_of_last, IsCompact-append, marker_of_last-append,
}
use pi_live_captions.Caption.Writer.Run.{
  Call, writes, flushes, closes, starts, ends, edges, configures, changes_state, drops, logs, call,
  run,
}
use pi_live_captions.Caption.Writer.Mirror.{
  line_texts, mirrored_of, mirrored, IsMirrored, mirrored-append, pending-IsMirrored,
  write_audit-IsMirrored, fail-IsMirrored, flush-IsMirrored, close-IsMirrored, line_record-mirrors,
}

module _ {F : Type 0} where
  kept_texts :
      (ls : List Line) (rs : List (AuditRecord F)) (l : Line) (r : AuditRecord F)
      → mirrored_of r.payload ≡ l.text ∷ []
      → line_texts ls ≡ mirrored rs
      → line_texts (ls ++ l ∷ []) ≡ mirrored (rs ++ r ∷ []) ++ []
  kept_texts ls rs l r m e =
      map-append _ ls (l ∷ [])
      ∙ ap (λ t. t ++ l.text ∷ []) e
      ∙ sym (
          append-nil (mirrored (rs ++ r ∷ []))
          ∙ mirrored-append rs (r ∷ [])
          ∙ ap (λ t. mirrored rs ++ (t ++ [])) m)

  -- The line `l` behind the lines of the writer, with the text that mirrors it or without.
  wrote-IsMirrored :
      (w : Writer F) (l : Line) (answer : Option Failure) (now : ℤ)
      → (is_marker l.text && text_eq l.text w.last_marker) ≡ false
      → IsMirrored w
      → IsMirrored (wrote w l answer now)
  unfolding wrote write_audit_locked
  wrote-IsMirrored w l answer now n v =
      if_cases (λ (o : Writer F × Option Failure). IsMirrored o.0) w.audit_disabled
        (λ d. record {
          compact = compact;
          marker = marker;
          counted = counted;
          lost = v.lost ++ l.text ∷ [];
          texts = lost_texts v.lost v.texts;
          complete = λ x. ground arith;
        })
        (λ d.
          option_cases (λ (o : Writer F × Option Failure). IsMirrored o.0) answer
            (λ a. record {
              compact = compact;
              marker = marker;
              counted = counted;
              lost = [];
              texts = kept_texts w.lines w.records l _ (line_record-mirrors _ l now) (
                  v.texts
                  ∙ ap (λ t. mirrored w.records ++ t) (v.complete d)
                  ∙ append-nil (mirrored w.records));
              complete = λ x. refl;
            })
            (λ x a. record {
              compact = compact;
              marker = marker;
              counted = counted;
              lost = v.lost ++ l.text ∷ [];
              texts = lost_texts v.lost v.texts;
              complete = λ h. ground arith;
            }))
    where
      compact : IsCompact (w.lines ++ l ∷ [])
      compact =
          IsCompact-append w.lines l
            (subst (λ m. (is_marker l.text && text_eq l.text m) ≡ false) v.marker n) v.compact

      marker : marker_or_none l.text ≡ marker_of_last (w.lines ++ l ∷ [])
      marker = sym (marker_of_last-append w.lines l)

      counted : w.lines_wrote + 1 ≡ length (w.lines ++ l ∷ [])
      counted = omega (arith, v.counted, length-append w.lines (l ∷ []))

      lost_texts :
          (lost : List Text)
          → line_texts w.lines ≡ mirrored w.records ++ lost
          → line_texts (w.lines ++ l ∷ []) ≡ mirrored w.records ++ (lost ++ l.text ∷ [])
      lost_texts lost e =
          map-append _ w.lines (l ∷ [])
          ∙ ap (λ t. t ++ l.text ∷ []) e
          ∙ append_assoc (mirrored w.records) lost (l.text ∷ [])

  write-IsMirrored :
      (w : Writer F) (l : Line) (refused answer : Option Failure) (now : ℤ)
      → IsMirrored w
      → IsMirrored (write w l refused answer now)
  unfolding write
  write-IsMirrored w l refused answer now v =
      if_cases IsMirrored w.closed (λ h. v)
        (λ h.
          if_cases IsMirrored (is_marker l.text && text_eq l.text w.last_marker) (λ n. v)
            (λ n. pending-IsMirrored _ (
              option_cases IsMirrored refused (λ o. wrote-IsMirrored w l answer now n v)
                (λ e o. fail-IsMirrored w e answer now v))))

  call-IsMirrored : (w : Writer F) (now : ℤ) (c : Call F) → IsMirrored w → IsMirrored (call w now c)
  unfolding call session_start session_end gate_edge_record gate_config_record state_record
      drop_record log_record
  call-IsMirrored w now (writes l r a) v = write-IsMirrored w l r a now v
  call-IsMirrored w now (flushes r a b) v = flush-IsMirrored w r a b now v
  call-IsMirrored w now (closes r a c b d) v = close-IsMirrored w r a c b d now v
  call-IsMirrored w now (starts m a) v = write_audit-IsMirrored w _ a refl v
  call-IsMirrored w now (ends s a) v = write_audit-IsMirrored w _ a refl v
  call-IsMirrored w now (edges o t s b a) v = write_audit-IsMirrored w _ a refl v
  call-IsMirrored w now (configures s a) v = write_audit-IsMirrored w _ a refl v
  call-IsMirrored w now (changes_state c s a) v = write_audit-IsMirrored w _ a refl v
  call-IsMirrored w now (drops c e n t a) v = write_audit-IsMirrored w _ a refl v
  call-IsMirrored w now (logs b m t a) v = write_audit-IsMirrored w _ a refl v

  run-IsMirrored : (w : Writer F) (cs : List (ℤ × Call F)) → IsMirrored w → IsMirrored (run w cs)
  unfolding run
  run-IsMirrored w [] v = v
  run-IsMirrored w ((now, c) ∷ cs) v = run-IsMirrored (call w now c) cs (call-IsMirrored w now c v)

  new_writer-IsMirrored : (start : ℤ) (e : Option Failure) → IsMirrored (new_writer {F = F} start e)
  unfolding new_writer
  new_writer-IsMirrored start e = record {
    compact = tt;
    marker = refl;
    counted = refl;
    lost = [];
    texts = refl;
    complete = λ h. refl;
  }

  -- After any calls on a new writer, whatever the files answered: no marker follows itself in the
  -- transcript; the metrics count its lines; and the audit stream's caption and marker records are
  -- the transcript's lines in their order, all of them unless the stream failed, and then up to a point.
  pub run-new_writer-IsMirrored :
      (start : ℤ) (audit_err : Option Failure) (cs : List (ℤ × Call F))
      → IsMirrored (run (new_writer start audit_err) cs)
  run-new_writer-IsMirrored start e cs = run-IsMirrored _ cs (new_writer-IsMirrored start e)
