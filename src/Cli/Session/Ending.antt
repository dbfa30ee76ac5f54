-- ===== src/Cli/Session/Ending.antt =====
-- internal/cli/run.go: what shutdown leaves in the audit stream and on the terminal.
use pi_live_captions.Base.{
  ℕ, List, [], ◌∷◌, ◌++◌, Option, none, some, ◌≡◌, refl, sym, subst, ap, ◌∙◌, ℤ, Text, codes,
  option_cases, ◌>>=◌,
}
use pi_live_captions.Audio.Float.{Float64}
use pi_live_captions.Audio.Broadcast as Broadcast
use pi_live_captions.Audio.Broadcast.{Broadcaster}
use pi_live_captions.Caption.Writer.State.{Writer, Payload}
use pi_live_captions.Caption.Writer.Sink.{session_end}
use pi_live_captions.Metrics.ConnState.{ConnState}
use pi_live_captions.Metrics.Report.{Snapshot}
use pi_live_captions.Metrics.Snapshot.{Clock}
use pi_live_captions.Ui.Terminal.{Terminal}
use pi_live_captions.Ui.Summary.{summarize}
use pi_live_captions.Cli.Session.{
  Session, Meeting, with_writer, change_state, transcript_fails, flush_writer, end_record,
  close_writer, on_writer, take_snapshot, end_writer, print_summary, finish, shutdown,
}
use pi_live_captions.Cli.Session.Over.{Ranks, snapshot-IsOver}
use pi_live_captions.Cli.Session.Records.{payloads, failure_payloads, IsWorking}
use pi_live_captions.Cli.Session.Standing.{
  Accepts, IsRecording, Stands, state_payloads, record-Stands, change_state-Stands,
  flush_writer-Stands, IsWritten, on_writer_lem, close_writer-IsWritten,
}

module _ (fl : Float64) (print0 print1 : fl.F → Text) (rfc3339 : ℤ → Text) (goroutines : ℕ)
    (number : Snapshot fl.F → ℕ) where
  open fl use {F}

  end_writer-IsWritten :
      (s : Session F) (snap : Snapshot F) (e : Meeting) (t : Terminal) (ps : List (Payload F))
      → Accepts e
      → Stands s t ps
      → ((end_writer fl print0 print1 rfc3339 goroutines number s snap e).term ≡ t)
        × IsWritten
            (end_writer fl print0 print1 rfc3339 goroutines number s snap e).writer
            ((ps ++ Payload.ended (number snap) ∷ []) ++ failure_payloads e.closing.refused)
  unfolding end_writer end_record close_writer with_writer transcript_fails session_end
  end_writer-IsWritten s snap e t ps (_, _, _, a, b) (o, h, r) = on_writer_closing _ (
      on_writer_lem (λ (x : Session F). Stands x t (ps ++ Payload.ended (number snap) ∷ []))
        (λ x w. end_record x w (number snap) e.end_answer e.now) s ps r
        (λ w v p. rw (a) (record-Stands s w _ t ps e.now o h v p)))
    where
      on_writer_closing :
          (x : Session F)
          → Stands x t (ps ++ Payload.ended (number snap) ∷ [])
          → ((on_writer (λ x w. close_writer x w e.closing e.now) x).term ≡ t)
            × IsWritten
                (on_writer (λ x w. close_writer x w e.closing e.now) x).writer
                ((ps ++ Payload.ended (number snap) ∷ []) ++ failure_payloads e.closing.refused)
      on_writer_closing x (o, h, r) =
          on_writer_lem
            (λ (y : Session F).
              (y.term ≡ t)
              × IsWritten y.writer
                  ((ps ++ Payload.ended (number snap) ∷ []) ++ failure_payloads e.closing.refused))
            (λ x w. close_writer x w e.closing e.now) x _ r
            (λ w v p. (h, close_writer-IsWritten x w e.closing _ e.now b v p))

  take_snapshot-Stands :
      (s : Session F) (c : Clock) (t : Terminal) (ps : List (Payload F))
      → Ranks fl
      → Stands s t ps
      → (s' : Session F) × (snap : Snapshot F) × (take_snapshot fl print0 print1 rfc3339 goroutines
            number s c
          ≡ some (s', snap))
        × Stands s' t ps
        × (snap.health ≡ codes "closed")
  unfolding take_snapshot
  take_snapshot-Stands s c t ps k (o, h, r) =
      let (m, snap, e, o', d) = snapshot-IsOver fl rfc3339 goroutines k s.met c o in
      (
        record s { met = m },
        snap,
        ap (λ x. x >>= (λ r. some (record s { met = r.0 }, r.1))) e,
        (o', h, r),
        d,
      )

  -- What a session ends with: its writer, and the snapshot shown.
  abbrev IsFinished : Session F × Snapshot F → Terminal → List (Payload F) → Meeting → Type 0
  IsFinished r t ps e =
      (r.0.term ≡ t)
      × (r.1.health ≡ codes "closed")
      × IsWritten r.0.writer (
          ((ps ++ failure_payloads e.flushing.refused) ++ Payload.ended (number r.1) ∷ [])
          ++ failure_payloads e.closing.refused)

  finish-IsFinished :
      (s : Session F) (snap : Snapshot F) (e : Meeting) (t : Terminal) (ps : List (Payload F))
      → Ranks fl
      → Accepts e
      → Stands s t ps
      → (r : Session F × Snapshot F) × (finish fl print0 print1 rfc3339 goroutines number s snap e
          ≡ some r)
        × IsFinished r t ps e
  unfolding finish
  finish-IsFinished s snap e t ps k a (o, h, r) =
      option_cases
        (λ (x : Option (Session F × Snapshot F)).
          (r : Session F × Snapshot F) × (x ≡ some r) × IsFinished r t ps e)
        s.writer (λ f. absurd (subst (λ x. IsRecording x ps) f r))
        (λ w f.
          let (v, p) = subst (λ x. IsRecording x ps) f r in
          let (s', snap', q, st, d) =
            take_snapshot-Stands (flush_writer s w e.flushing e.now) e.clock_after t _ k
              (flush_writer-Stands s w e.flushing t ps e.now a.1 a.2 o h v p) in
          let (b, c) = end_writer-IsWritten s' snap' e t _ a st in
          (
            (end_writer fl print0 print1 rfc3339 goroutines number s' snap' e, snap'),
            ap
                (λ x. x >>= (λ r.
                  some (end_writer fl print0 print1 rfc3339 goroutines number r.0 r.1 e, r.1)))
                q,
            (b, d, c),
          ))

  -- Of a session whose writer works and whose audit stream takes the records: shutdown returns, and
  -- the records written are, in order, the change to the closed state (if it was not closed, and the
  -- hook is set), the failure of the transcript's flush if it failed, the session's end, and the
  -- failure of its closing flush if that failed. The session's end and the terminal's summary are of
  -- one snapshot, whose health is "closed".
  pub shutdown_lem :
      (s : Session F) (w : Writer F) (e : Meeting)
      → Ranks fl
      → s.writer ≡ some w
      → IsWorking w
      → Accepts e
      → (s' : Session F) × (snap : Snapshot F) × (shutdown fl print0 print1 rfc3339 goroutines
            number s e
          ≡ some (s', snap))
        × (snap.health ≡ codes "closed")
        × (s'.term ≡ summarize fl print0 print1 s.term snap s'.met.monitor_enabled)
        × IsWritten s'.writer (
            (((payloads w ++ state_payloads s.met) ++ failure_payloads e.flushing.refused)
              ++ Payload.ended (number snap) ∷ [])
            ++ failure_payloads e.closing.refused)
  unfolding shutdown print_summary
  shutdown_lem s w e k f v a =
      let audio : Option Broadcaster = elim s.audio [
        | none ↦ none
        | some b ↦ some (Broadcast.close b)
      ] in
      let s₀ : Session F = record s { audio = audio } in
      let over =
        subst
          (λ x.
            Stands (change_state s₀ ConnState.closed e.now x) s.term
              (payloads w ++ state_payloads s.met))
          (sym a.0)
          (change_state-Stands s₀ (payloads w) e.now
            (subst (λ x. IsRecording x (payloads w)) (sym f) (v, refl))) in
      let (s₁, snap₁, q, st, d) =
        take_snapshot-Stands (change_state s₀ ConnState.closed e.now e.state_answer) e.clock s.term
          (payloads w ++ state_payloads s.met) k over in
      let (r, p, (t, h, c)) =
        finish-IsFinished s₁ snap₁ e s.term (payloads w ++ state_payloads s.met) k a st in
      (
        print_summary fl print0 print1 rfc3339 goroutines number r.0 r.1,
        r.1,
        ap
              (λ x. x >>= (λ y.
                finish fl print0 print1 rfc3339 goroutines number y.0 y.1 e >>= (λ z.
                  some (print_summary fl print0 print1 rfc3339 goroutines number z.0 z.1, z.1))))
              q
            ∙ ap
                (λ x. x >>= (λ z.
                  some (print_summary fl print0 print1 rfc3339 goroutines number z.0 z.1, z.1)))
                p,
        h,
        ap (λ x. summarize fl print0 print1 x r.1 r.0.met.monitor_enabled) t,
        c,
      )
