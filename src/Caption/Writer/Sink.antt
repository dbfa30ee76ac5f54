-- ===== src/Caption/Writer/Sink.antt =====
-- internal/caption/audit.go: how a record is made and written. What the file answers is an argument.
use pi_live_captions.Base.{
  ℕ, List, [], ◌∷◌, ◌++◌, Bool, true, Option, none, some, ℤ, ◌-ℤ◌, Text, codes, text_eq,
  if◌then◌else◌,
}
use pi_live_captions.Audio.Format.{Duration, Time}
use pi_live_captions.Audio.NoiseGate.{NoiseSettings}
use pi_live_captions.Caption.Event.{milliseconds}
use pi_live_captions.Caption.Writer.State.{
  Writer, Failure, AuditRecord, AuditHead, RecordKind, Payload, StartMeta, AttrValue,
  audit_schema_version,
}

module _ {F : Type 0} where
  -- newHead, with the clock for a zero time.
  unfoldable pub new_head : Writer F → RecordKind → Time → ℤ → Option ℤ → AuditHead
  new_head w kind at now source =
      let observed : ℤ = elim at [ none ↦ now | some t ↦ t ] in
      record {
        schema_version = audit_schema_version;
        kind = kind;
        observed_at = observed;
        elapsed_ms = milliseconds (observed -ℤ w.start);
        source_ms = source;
      }

  -- writeAuditLocked: what the seam, the encoder or the buffer refuses is `answer`.
  unfoldable pub write_audit_locked :
      Writer F → AuditRecord F → Option Failure → Writer F × Option Failure
  write_audit_locked w rec answer = if w.audit_disabled then (w, none) else elim answer [
    | none ↦ (record w { records = w.records ++ rec ∷ [] }, none)
    | some e ↦ (record w { audit_disabled = true; pending_audit_err = some e }, some e)
  ]

  unfoldable pub report_audit_err : Writer F → Option Failure → Writer F
  report_audit_err w none = w
  report_audit_err w (some e) = record w { reports = w.reports ++ e ∷ [] }

  unfoldable pub flush_pending_audit_err : Writer F → Writer F
  flush_pending_audit_err w =
      report_audit_err (record w { pending_audit_err = none }) w.pending_audit_err

  unfoldable pub write_audit : Writer F → AuditRecord F → Option Failure → Writer F
  write_audit w rec answer = let r = write_audit_locked w rec answer in report_audit_err r.0 r.1

  -- The records that the session's parts write, but for those of lines.
  abbrev pub plain : Writer F → RecordKind → ℤ → Payload F → AuditRecord F
  plain w kind now payload = record { head = new_head w kind none now none; payload = payload }

  unfoldable pub session_start : Writer F → StartMeta F → ℤ → AuditRecord F
  session_start w m now = record {
    head = new_head w RecordKind.session_start (some w.start) now none;
    payload = Payload.started m;
  }

  unfoldable pub session_end : Writer F → ℕ → ℤ → AuditRecord F
  session_end w summary now = plain w RecordKind.session_end now (Payload.ended summary)

  unfoldable pub gate_edge_record :
      Writer F → Bool → Duration → NoiseSettings F → Time → ℤ → AuditRecord F
  gate_edge_record w opened at settings observed now = record {
    head = new_head w RecordKind.noise_gate observed now (some (milliseconds at));
    payload = Payload.gate_edge opened settings;
  }

  unfoldable pub gate_config_record : Writer F → NoiseSettings F → ℤ → AuditRecord F
  gate_config_record w settings now =
      plain w RecordKind.config now (Payload.gate_config (codes "noise_gate") settings)

  unfoldable pub state_record : Writer F → Text → Text → ℤ → AuditRecord F
  state_record w component state now =
      plain w RecordKind.state now (Payload.state_change component state)

  unfoldable pub drop_record : Writer F → Text → Text → ℕ → Option Duration → ℤ → AuditRecord F
  drop_record w component event count source now = record {
    head =
        new_head w RecordKind.drop none now
          (elim source [ none ↦ none | some d ↦ some (milliseconds d) ]);
    payload = Payload.dropped component event count;
  }

  unfoldable pub log_record : Writer F → Text → Text → List (Text × AttrValue) → ℤ → AuditRecord F
  log_record w level message attrs now =
      plain w (if text_eq level (codes "error") then RecordKind.error else RecordKind.warning) now
        (Payload.diagnostic level message attrs)
