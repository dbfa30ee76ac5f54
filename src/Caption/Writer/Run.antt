-- ===== src/Caption/Writer/Run.antt =====
-- The writer's methods as calls, and a run of them. Each call holds the lock, or takes it again to
-- report; each comes with what the files answer and with the clock.
use pi_live_captions.Base.{ℕ, List, [], ◌∷◌, Bool, Option, ℤ, Text}
use pi_live_captions.Audio.Format.{Duration, Time}
use pi_live_captions.Audio.NoiseGate.{NoiseSettings}
use pi_live_captions.Caption.Event.{Line}
use pi_live_captions.Caption.Writer.State.{Writer, Failure, StartMeta, AttrValue}
use pi_live_captions.Caption.Writer.Sink.{
  write_audit, session_start, session_end, gate_edge_record, gate_config_record, state_record,
  drop_record, log_record,
}
use pi_live_captions.Caption.Writer.Lines.{write, flush, close}

pub data Call (F : Type 0) : Type 0 where
  writes : Line → Option Failure → Option Failure → Call F
  flushes : Option Failure → Option Failure → Option Failure → Call F
  closes :
      Option Failure → Option Failure → Option Failure → Option Failure → Option Failure → Call F
  starts : StartMeta F → Option Failure → Call F
  ends : ℕ → Option Failure → Call F
  edges : Bool → Duration → NoiseSettings F → Time → Option Failure → Call F
  configures : NoiseSettings F → Option Failure → Call F
  changes_state : Text → Text → Option Failure → Call F
  drops : Text → Text → ℕ → Option Duration → Option Failure → Call F
  logs : Text → Text → List (Text × AttrValue) → Option Failure → Call F

module _ {F : Type 0} where
  unfoldable pub call : Writer F → ℤ → Call F → Writer F
  call w now (writes l refused answer) = write w l refused answer now
  call w now (flushes refused answer audit) = flush w refused answer audit now
  call w now (closes refused answer c audit ac) = (close w refused answer c audit ac now).0
  call w now (starts m answer) = write_audit w (session_start w m now) answer
  call w now (ends s answer) = write_audit w (session_end w s now) answer
  call w now (edges o at s observed answer) =
      write_audit w (gate_edge_record w o at s observed now) answer
  call w now (configures s answer) = write_audit w (gate_config_record w s now) answer
  call w now (changes_state c s answer) = write_audit w (state_record w c s now) answer
  call w now (drops c e n at answer) = write_audit w (drop_record w c e n at now) answer
  call w now (logs level message attrs answer) =
      write_audit w (log_record w level message attrs now) answer

  unfoldable pub run : Writer F → List (ℤ × Call F) → Writer F
  run w [] = w
  run w ((now, c) ∷ cs) = run (call w now c) cs
