-- ===== src/Caption/Writer/Lines.antt =====
-- internal/caption/writer.go: Write, flush and Close. What each call on the files answers is an
-- argument. FormatClock is in internal/audio/ffmpeg.go.
use pi_live_captions.Base.{
  ℕ, ◌+◌, ◌*◌, ◌/◌, ◌%◌, [], ◌∷◌, ◌++◌, Bool, true, not, ◌&&◌, ◌||◌, Option, none, some, ℤ, pos,
  negsuc, Text, codes, text_eq, byte_len, decimal, two_digits, ltb, ◌==◌, if◌then◌else◌,
}
use pi_live_captions.Audio.Format.{Duration}
use pi_live_captions.Caption.Event.{Line}
use pi_live_captions.Caption.Hub.Music.{music_marker}
use pi_live_captions.Caption.Hub.Operations.{silence_marker}
use pi_live_captions.Caption.Writer.State.{
  Writer, Failure, AuditRecord, RecordKind, Payload, AttrValue,
}
use pi_live_captions.Caption.Writer.Sink.{
  new_head, plain, write_audit_locked, report_audit_err, flush_pending_audit_err,
}

-- The whole seconds of a duration, with none for a negative one.
abbrev pub whole_seconds : Duration → ℕ
whole_seconds (pos n) = n / 1_000_000_000
whole_seconds (negsuc n) = 0

unfoldable pub format_clock : Duration → Text
format_clock d =
    let total = whole_seconds d in
    let h = total / 3600 in
    let rest = two_digits (total / 60 % 60) ++ b':' ∷ two_digits (total % 60) in
    if ltb 0 h then decimal h ++ b':' ∷ rest else rest

-- An offset of milliseconds as a duration.
abbrev pub from_ms : ℤ → Duration
from_ms (pos n) = pos (n * 1_000_000)
from_ms (negsuc n) = negsuc (n * 1_000_000 + 999_999)

-- The line of transcript.txt.
unfoldable pub format_line : Line → Text
format_line l =
    let speaker = if l.speaker == 0 then [] else codes "[S" ++ (decimal l.speaker ++ codes "] ") in
    b'[' ∷ format_clock (from_ms l.offset_ms) ++ (codes "] " ++ (speaker ++ (l.text ++ b'\n' ∷ [])))

abbrev pub is_marker : Text → Bool
is_marker text = text_eq text music_marker || text_eq text silence_marker

module _ {F : Type 0} where
  -- auditCaptionLine's record.
  unfoldable pub line_record : Writer F → Line → ℤ → AuditRecord F
  line_record w l now =
      if is_marker l.text
      then record {
        head = new_head w RecordKind.marker l.at now (some l.offset_ms);
        payload = Payload.marked l.text;
      }
      else record {
        head = new_head w RecordKind.caption l.at now (some l.offset_ms);
        payload = Payload.spoken l.text l.speaker (if l.end_ok then some l.end_ms else none);
      }

  -- fail, with what the audit stream answers to its record.
  unfoldable pub fail : Writer F → Failure → Option Failure → ℤ → Writer F
  fail w e answer now =
      let w' = record w { transcript_err = some e } in
      (write_audit_locked w'
        (plain w' RecordKind.error now (
          Payload.diagnostic (codes "error") (codes "transcript write failed")
            ((codes "err", AttrValue.text e) ∷ [])))
        answer).0

  -- The line is in the transcript; it goes into the audit stream.
  unfoldable pub wrote : Writer F → Line → Option Failure → ℤ → Writer F
  wrote w l answer now =
      let w' = record w {
        last_marker = if is_marker l.text then l.text else [];
        lines = w.lines ++ l ∷ [];
        lines_wrote = w.lines_wrote + 1;
        bytes_wrote = w.bytes_wrote + byte_len (format_line l);
      } in
      (write_audit_locked w' (line_record w' l now) answer).0

  -- Write: `refused` is what the transcript's buffer answers, `answer` the audit stream.
  unfoldable pub write : Writer F → Line → Option Failure → Option Failure → ℤ → Writer F
  write w l refused answer now =
      if w.closed
      then w
      else if is_marker l.text && text_eq l.text w.last_marker
      then w
      else flush_pending_audit_err
          (elim refused [ none ↦ wrote w l answer now | some e ↦ fail w e answer now ])

  -- The audit buffer's flush, at whose failure the sink is disabled.
  unfoldable pub flush_audit : Writer F → Option Failure → Writer F × Option Failure
  flush_audit w none = (w, none)
  flush_audit w (some e) =
      if w.has_audit && not w.audit_disabled
      then (record w { audit_disabled = true }, some e)
      else (w, none)

  unfoldable pub flushed : Writer F → Option Failure → Option Failure → ℤ → Writer F
  flushed w none answer now = w
  flushed w (some e) answer now = fail w e answer now

  unfoldable pub flush : Writer F → Option Failure → Option Failure → Option Failure → ℤ → Writer F
  flush w refused answer audit_refused now =
      let r = flush_audit (flushed w refused answer now) audit_refused in
      if w.closed then w else report_audit_err r.0 r.1

  -- The failure to close the audit file counts if there was none before.
  unfoldable pub close_audit : Writer F → Option Failure → Option Failure → Option Failure
  close_audit w (some e) close_err = some e
  close_audit w none none = none
  close_audit w none (some e) = if w.has_audit && not w.audit_disabled then some e else none

  -- Close; `close_err` is the transcript file's and `audit_close_err` the audit file's. The error
  -- returned is the flush's, or else the close's.
  unfoldable pub close :
      Writer F
      → Option Failure
      → Option Failure
      → Option Failure
      → Option Failure
      → Option Failure
      → ℤ
      → Writer F × Option Failure
  close w refused answer close_err audit_refused audit_close_err now =
      let w' = flushed (record w { closed = true }) refused answer now in
      let r = flush_audit w' audit_refused in
      let audit_err = close_audit r.0 r.1 audit_close_err in
      if w.closed then (w, none) else (
        report_audit_err (report_audit_err r.0 r.0.pending_audit_err) audit_err,
        elim refused [ none ↦ close_err | some e ↦ some e ],
      )
