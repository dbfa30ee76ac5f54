-- ===== src/Caption/Writer/State.antt =====
-- internal/caption/audit.go and internal/caption/writer.go: the audit records and the writer.
use pi_live_captions.Base.{ℕ, List, [], Bool, true, false, Option, none, some, ℤ, Text}
use pi_live_captions.Audio.NoiseGate.{NoiseSettings}
use pi_live_captions.Caption.Event.{Line}

abbrev pub audit_schema_version : ℕ
audit_schema_version = 1

pub data RecordKind : Type 0 where
  session_start caption marker noise_gate config state warning error drop session_end : RecordKind

-- Times are in milliseconds but for `observed_at`; `source_ms` is none where it is not known.
pub record AuditHead : Type 0 where
  pub schema_version : ℕ
  pub kind : RecordKind
  pub observed_at : ℤ
  pub elapsed_ms : ℤ
  pub source_ms : Option ℤ

pub record StartMeta (F : Type 0) : Type 0 where
  pub version : Text
  pub session_id : Text
  pub source_kind : Text
  pub source_spec : Text
  pub source_format : Text
  pub engine : Text
  pub model : Text
  pub language : Text
  pub keyterms : List Text
  pub diarize : Bool
  pub music_detect : Bool
  pub noise_gate : NoiseSettings F

-- What slog.Value.Any gives of an attribute's value: the attributes of a group, each with its own
-- name, or anything else, by its text.
mutual
  pub data AttrValue : Type 0 where
    text : Text → AttrValue
    group : Attrs → AttrValue

  pub data Attrs : Type 0 where
    none_left : Attrs
    attr : Text → AttrValue → Attrs → Attrs

-- The fields of each record behind its head. A summary is a number that stands for its snapshot.
pub data Payload (F : Type 0) : Type 0 where
  started : StartMeta F → Payload F
  spoken : Text → ℕ → Option ℤ → Payload F
  marked : Text → Payload F
  gate_edge : Bool → NoiseSettings F → Payload F
  gate_config : Text → NoiseSettings F → Payload F
  state_change : Text → Text → Payload F
  diagnostic : Text → Text → List (Text × AttrValue) → Payload F
  dropped : Text → Text → ℕ → Payload F
  ended : ℕ → Payload F

pub record AuditRecord (F : Type 0) : Type 0 where
  pub head : AuditHead
  pub payload : Payload F

-- An error, by its text.
abbrev pub Failure : Type 0
Failure = Text

-- `lines` and `records` are what the two buffers have accepted. `reports` are the failures that
-- reportAuditErr was given: each is set as the metrics' audit error and passed to OnAuditFail.
-- `lines_wrote`, `bytes_wrote` and `transcript_err` are the metrics'.
pub record Writer (F : Type 0) : Type 0 where
  pub start : ℤ
  pub closed : Bool
  pub last_marker : Text
  pub lines : List Line
  pub has_audit : Bool
  pub audit_disabled : Bool
  pub pending_audit_err : Option Failure
  pub records : List (AuditRecord F)
  pub reports : List Failure
  pub lines_wrote : ℕ
  pub bytes_wrote : ℕ
  pub transcript_err : Option Failure

-- NewWriter, once the transcript is open; the argument is the failure to create the audit file,
-- which is only set as the metrics' error.
unfoldable pub new_writer : {F : Type 0} → ℤ → Option Failure → Writer F
new_writer start audit_err = record {
  start = start;
  closed = false;
  last_marker = [];
  lines = [];
  has_audit = elim audit_err [ none ↦ true | some e ↦ false ];
  audit_disabled = elim audit_err [ none ↦ false | some e ↦ true ];
  pending_audit_err = none;
  records = [];
  reports = [];
  lines_wrote = 0;
  bytes_wrote = 0;
  transcript_err = none;
}
