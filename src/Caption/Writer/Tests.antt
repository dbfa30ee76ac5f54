-- ===== src/Caption/Writer/Tests.antt =====
-- The theorems on the transcript and the audit stream at concrete inputs.
use pi_live_captions.Base.{
  ℕ, ◌+◌, List, [], ◌∷◌, ◌++◌, false, ◌&&◌, if◌then◌else◌, leb, none, some, ◌≡◌, refl, ℤ, pos, Text,
  codes, decimal, two_digits, digits,
}
use pi_live_captions.Audio.NoiseGate.{NoiseSettings}
use pi_live_captions.Caption.Event.{Line}
use pi_live_captions.Caption.Hub.Music.{music_marker}
use pi_live_captions.Caption.Writer.State.{Writer, AuditRecord, AttrValue, Attrs, new_writer}
use pi_live_captions.Caption.Writer.Sink.{write_audit, gate_config_record}
use pi_live_captions.Caption.Writer.Lines.{format_clock, format_line, write}
use pi_live_captions.Caption.Writer.Redaction.{is_sensitive, put_attr, log_attrs}
use pi_live_captions.Caption.Writer.Run.{Call, run}
use pi_live_captions.Caption.Writer.Mirror.{IsMirrored}
use pi_live_captions.Caption.Writer.Mirror.History.{run-new_writer-IsMirrored}
use pi_live_captions.Caption.Writer.Reports.{write_audit-reports_twice}

abbrev line : Text → Line
line text = record {
  text = text;
  offset_ms = pos 754_000;
  at = none;
  speaker = 2;
  end_ms = pos 0;
  end_ok = false;
}

printed : format_line (line (codes "Amen.")) ≡ codes "[12:34] [S2] Amen.\n"
unfolding format_line format_clock decimal two_digits digits
printed = refl

-- A marker twice, with the audit stream failing after the first line.
abbrev calls : List (ℤ × Call ℤ)
calls =
    (pos 1, Call.writes (line (codes "Amen.")) none none)
    ∷ (pos 2, Call.writes (line music_marker) none (some (codes "full")))
    ∷ (pos 3, Call.writes (line music_marker) none none)
    ∷ []

run-new_writer-IsMirrored_example : IsMirrored (run (new_writer (pos 0) none) calls)
run-new_writer-IsMirrored_example = run-new_writer-IsMirrored (pos 0) none calls

abbrev settings : NoiseSettings ℤ
settings = record { threshold_dbfs = pos 0; release_sec = pos 5 }

abbrev fresh : Writer ℤ
fresh = new_writer (pos 0) none

abbrev change : AuditRecord ℤ
change = gate_config_record fresh settings (pos 1)

write_audit-reports_twice_example :
    (write
      (write_audit fresh change (some (codes "full")))
      (line (codes "Amen."))
      none
      none
      (pos 2)).reports
    ≡ fresh.reports ++ codes "full" ∷ codes "full" ∷ []
unfolding new_writer
write_audit-reports_twice_example =
    write_audit-reports_twice fresh change (codes "full") (line (codes "Amen.")) none (pos 2) refl
      refl refl

-- strings.ToLower on a code point of ASCII.
abbrev lower : ℕ → ℕ
lower c = if leb 65 c && leb c 90 then c + 32 else c

-- A key in capitals and with an underscore, a plain name, and a group.
abbrev attributes : List (Text × AttrValue)
attributes =
    (codes "API_Key", AttrValue.text (codes "s3cret"))
    ∷ (codes "retry", AttrValue.text (codes "4"))
    ∷ (
      codes "server",
      AttrValue.group (Attrs.attr (codes "port") (AttrValue.text (codes "80")) Attrs.none_left),
    )
    ∷ []

attributes_lem :
    log_attrs lower [] attributes
    ≡ (codes "API_Key", AttrValue.text (codes "[REDACTED]"))
      ∷ (codes "retry", AttrValue.text (codes "4"))
      ∷ (
        codes "server",
        AttrValue.group (Attrs.attr (codes "port") (AttrValue.text (codes "80")) Attrs.none_left),
      )
      ∷ []
unfolding log_attrs put_attr is_sensitive
attributes_lem = refl
