-- ===== src/Cli/Session.antt =====
-- internal/cli/run.go: the parts of a session that its calls change, how the connection's state
-- reaches them, the latency of what is spoken, and the end of a session. What the files answer and
-- the readings of the clock are arguments. The source, the monitor, the page's server and mDNS are
-- processes and sockets, which an ending session only closes; the log's lines are left out.
pub mod Latency
pub mod Over
pub mod Records
pub mod Standing
pub mod Ending
use pi_live_captions.Base.{
  ℕ, List, [], ◌∷◌, Bool, true, false, not, ◌||◌, Option, none, some, ℤ, ◌-ℤ◌, Text, codes, text_eq,
  is_empty, length, ◌==◌, if◌then◌else◌, ◌>>=◌,
}
use pi_live_captions.Audio.Float.{Float64}
use pi_live_captions.Audio.Format.{Time}
use pi_live_captions.Audio.Broadcast as Broadcast
use pi_live_captions.Audio.Broadcast.{Broadcaster}
use pi_live_captions.Stt.Transcript.{Transcript, text_of}
use pi_live_captions.Caption.Hub.State.{Hub}
use pi_live_captions.Caption.Hub.Operations.{publish_status}
use pi_live_captions.Caption.Writer.State.{Writer, Failure}
use pi_live_captions.Caption.Writer.Sink.{write_audit, state_record, drop_record, session_end}
use pi_live_captions.Caption.Writer.Lines.{flush, close}
use pi_live_captions.Metrics.ConnState.{ConnState, conn_text, conn_number}
use pi_live_captions.Metrics.Latency.{drop}
use pi_live_captions.Metrics.State.{Metrics, AuditEvent}
use pi_live_captions.Metrics.Operations.{
  set_stt_state, set_audit_error, set_transcript_error, observe_latency, observe_phases,
}
use pi_live_captions.Metrics.Report.{Snapshot}
use pi_live_captions.Metrics.Snapshot.{Clock, snapshot}
use pi_live_captions.Ui.Terminal.{Terminal}
use pi_live_captions.Ui.Summary.{summarize}

pub record Session (F : Type 0) : Type 0 where
  pub met : Metrics F
  pub hub : Hub
  pub writer : Option (Writer F)
  pub audio : Option Broadcaster
  pub term : Terminal

module _ {F : Type 0} where
  -- The metrics, told of each failure that the audit stream reports.
  unfoldable pub audit_fails : Metrics F → List Failure → ℤ → Metrics F
  audit_fails m [] now = m
  audit_fails m (e ∷ es) now = audit_fails (set_audit_error m (some e) now) es now

  -- A session whose writer goes on as `w'`, with what it reports.
  unfoldable pub with_writer : Session F → Writer F → Writer F → ℤ → Session F
  with_writer s w w' now = record s {
    writer = some w';
    met = audit_fails s.met (drop (length w.reports) w'.reports) now;
  }

  -- auditState
  unfoldable pub audit_state : Session F → Text → Text → ℤ → Option Failure → Session F
  audit_state s component state now answer = elim s.writer [
    | none ↦ s
    | some w ↦ with_writer s w (write_audit w (state_record w component state now) answer) now
  ]

  -- The hook of SetAuditHook: a change of state, or a drop.
  unfoldable pub audit_event : Session F → AuditEvent → ℤ → Option Failure → Session F
  audit_event s ev now answer =
      if text_eq ev.event (codes "state")
      then audit_state s ev.component ev.state now answer
      else elim s.writer [
        | none ↦ s
        | some w ↦
            with_writer s w
              (write_audit w
                (drop_record w ev.component ev.event ev.count
                  (if ev.has_at then some ev.at else none) now)
                answer)
              now
      ]

  -- SetSTTState with the hook that newSession sets.
  unfoldable pub change_state : Session F → ConnState → ℤ → Option Failure → Session F
  change_state s st now answer =
      let s' = record s { met = set_stt_state s.met st } in
      if conn_number s.met.stt_state == conn_number st || not s.met.has_state_hook
      then s'
      else audit_state (record s' { hub = publish_status s.hub now (conn_text st) }) (codes "stt")
          (conn_text st) now answer

  -- The split of observeLatency, where SentAt and publishedAt are known.
  unfoldable pub attribute : Metrics F → ℤ → ℤ → Time → Time → ℤ → Metrics F
  attribute m captured received none published now = m
  attribute m captured received (some sent) none now = m
  attribute m captured received (some sent) (some published) now =
      observe_phases m (sent -ℤ captured) (received -ℤ sent) (published -ℤ received) now

  -- observeLatency, with the clock that each of the two observations reads.
  unfoldable pub observe_transcript : Metrics F → Transcript → Time → ℤ → ℤ → Metrics F
  observe_transcript m t published now now' = elim t.received_at [
    | none ↦ m
    | some received ↦ elim t.captured_at [
      | none ↦ m
      | some captured ↦
          if is_empty (text_of t)
          then m
          else attribute (observe_latency m (received -ℤ captured) now) captured received t.sent_at
              published now'
    ]
  ]

-- A transcript of run's channel, when it is published, and the clock of its observations.
pub record Published : Type 0 where
  pub transcript : Transcript
  pub published : ℤ
  pub now : ℤ
  pub now_phases : ℤ

-- The loop of run over the transcripts.
unfoldable pub observe_transcripts : {F : Type 0} → Metrics F → List Published → Metrics F
observe_transcripts m [] = m
observe_transcripts m (h ∷ hs) =
    observe_transcripts (observe_transcript m h.transcript (some h.published) h.now h.now_phases) hs

-- What the files answer to a flush or a close of the writer.
pub record Answers : Type 0 where
  pub refused : Option Failure
  pub answer : Option Failure
  pub close_err : Option Failure
  pub audit_refused : Option Failure
  pub audit_close_err : Option Failure

-- What an ending session meets.
pub record Meeting : Type 0 where
  pub now : ℤ
  pub state_answer : Option Failure
  pub clock : Clock
  pub flushing : Answers
  pub clock_after : Clock
  pub end_answer : Option Failure
  pub closing : Answers

module _ {F : Type 0} where
  -- SetTranscriptError, at a failure while the writer is open.
  unfoldable pub transcript_fails : Session F → Writer F → Option Failure → ℤ → Session F
  transcript_fails s w refused now = record s {
    met = if w.closed then s.met else set_transcript_error s.met refused now;
  }

  unfoldable pub flush_writer : Session F → Writer F → Answers → ℤ → Session F
  flush_writer s w a now =
      with_writer (transcript_fails s w a.refused now) w
        (flush w a.refused a.answer a.audit_refused now) now

  unfoldable pub end_record : Session F → Writer F → ℕ → Option Failure → ℤ → Session F
  end_record s w summary answer now =
      with_writer s w (write_audit w (session_end w summary now) answer) now

  -- The warning that a failed Close logs is left out, as every line of the log is: the writer is
  -- closed by then, and what its buffer takes of that line is flushed to no file.
  unfoldable pub close_writer : Session F → Writer F → Answers → ℤ → Session F
  close_writer s w a now =
      with_writer (transcript_fails s w a.refused now) w
        (close w a.refused a.answer a.close_err a.audit_refused a.audit_close_err now).0 now

  unfoldable pub on_writer : (Session F → Writer F → Session F) → Session F → Session F
  on_writer f s = elim s.writer [ none ↦ s | some w ↦ f s w ]

module _ (fl : Float64) (print0 print1 : fl.F → Text) (rfc3339 : ℤ → Text) (goroutines : ℕ)
    (number : Snapshot fl.F → ℕ) where
  open fl use {F}

  -- The metrics' Snapshot.
  unfoldable pub take_snapshot : Session F → Clock → Option (Session F × Snapshot F)
  take_snapshot s c = do
    r ← snapshot fl rfc3339 goroutines s.met c
    some (record s { met = r.0 }, r.1)

  -- The records behind the flush: the session's last one, and the writer's close.
  unfoldable pub end_writer : Session F → Snapshot F → Meeting → Session F
  end_writer s snap e =
      on_writer (λ x w. close_writer x w e.closing e.now)
        (on_writer (λ x w. end_record x w (number snap) e.end_answer e.now) s)

  unfoldable pub print_summary : Session F → Snapshot F → Session F
  print_summary s snap = record s {
    term = summarize fl print0 print1 s.term snap s.met.monitor_enabled;
  }

  -- The end of the writer, if there is one, with the snapshot that is shown.
  unfoldable pub finish : Session F → Snapshot F → Meeting → Option (Session F × Snapshot F)
  finish s snap e = elim s.writer [
    | none ↦ some (s, snap)
    | some w ↦ do
      r ← take_snapshot (flush_writer s w e.flushing e.now) e.clock_after
      some (end_writer r.0 r.1 e, r.1)
  ]

  -- shutdown; none for a panic. The second part is the snapshot that the terminal shows.
  unfoldable pub shutdown : Session F → Meeting → Option (Session F × Snapshot F)
  shutdown s e =
      let audio : Option Broadcaster = elim s.audio [
        | none ↦ none
        | some b ↦ some (Broadcast.close b)
      ] in
      do
        r ←
            take_snapshot
              (change_state (record s { audio = audio }) ConnState.closed e.now e.state_answer)
              e.clock
        q ← finish r.0 r.1 e
        some (print_summary q.0 q.1, q.1)
