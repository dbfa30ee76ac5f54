-- ===== src/Stt/Connection.antt =====
-- internal/stt/session.go: one connection's loops, and the drain that fills the ring.
--
-- The recognizer's answers, the clock and what a select hears are arguments. The writer shares the
-- ring with the drain, so a run of the writer is a list of moves: the drain's pushes, the turns at
-- the head of the loop, and what its select hears.
pub mod Account
pub mod Texts
use pi_live_captions.Base.{
  ℕ, List, [], ◌∷◌, ◌++◌, Bool, true, false, not, Option, none, some, ℤ, pos, ◌-ℤ◌, leb_ℤ, length,
  if◌then◌else◌,
}
use pi_live_captions.Audio.Float.{Float64}
use pi_live_captions.Audio.Format.{Duration, Time, Frame}
use pi_live_captions.Stt.Gate.{Gate, observe}
use pi_live_captions.Stt.Ring.{Chunk, Ring, push, pop, empty}
use pi_live_captions.Stt.Anchor.{AnchorIndex, add, at, source_at}
use pi_live_captions.Stt.Transcript.{Transcript, end_of}
use pi_live_captions.Stt.SourceTime.{source_time}
use pi_live_captions.Stt.Driver.{Failure, Outcome}

abbrev pub idle_interval : Duration
idle_interval = pos 5_000_000_000

-- `waiting` says that the writer stands at its select, not at the head of the loop.
pub record Writer : Type 0 where
  pub idx : AnchorIndex
  pub ring : Ring
  pub last_activity : ℤ
  pub waiting : Bool

-- A call of the session or the metrics.
pub data Output : Type 0 where
  send_audio : List ℕ → Output
  count_bytes : ℕ → Output
  send_idle : Output

-- `writing`: the loop goes on; the others are its return values: errPause, nil and an error.
pub data WriteResult : Type 0 where
  writing : Writer → WriteResult
  paused : WriteResult
  finished : WriteResult
  failed : Failure → WriteResult

-- A turn at the head of the loop: the gate's state, the clock, SendAudio's error, the clock after.
pub record Turn : Type 0 where
  pub active : Bool
  pub now : ℤ
  pub send_error : Option Failure
  pub after : ℤ

pub data Heard : Type 0 where
  frames_closed : Heard
  notified : Heard
  gate_changed : Heard
  ticked : ℤ → Option Failure → ℤ → Heard  -- the clock, Idle's error, the clock after
  cancelled : Heard
  disconnected : Failure → Heard

pub data Move : Type 0 where
  drains : Gate → Frame → Move
  turns : Turn → Move
  hears : Heard → Move

-- What a select hears, at the state it woke up in.
unfoldable pub hear : Writer → Heard → WriteResult × List Output
hear w frames_closed =
    if empty w.ring then (finished, []) else (writing (record w { waiting = false }), [])
hear w notified =
    (writing (record w { ring = record w.ring { notified = false }; waiting = false }), [])
hear w gate_changed = (writing (record w { waiting = false }), [])
hear w (ticked now none after) =
    if leb_ℤ idle_interval (now -ℤ w.last_activity)
    then (writing (record w { last_activity = after; waiting = false }), send_idle ∷ [])
    else (writing (record w { waiting = false }), [])
hear w (ticked now (some e) after) =
    if leb_ℤ idle_interval (now -ℤ w.last_activity)
    then (failed e, send_idle ∷ [])
    else (writing (record w { waiting = false }), [])
hear w cancelled = (finished, [])
hear w (disconnected e) = (failed e, [])

module _ (fl : Float64) where
  -- What the loop does with what it popped; the anchor is recorded before the write.
  unfoldable pub write_chunk : Writer → Turn → Option Chunk × Ring → WriteResult × List Output
  write_chunk w t (none, ring) = (writing (record w { ring = ring; waiting = true }), [])
  write_chunk w t (some c, ring) =
      let idx = add fl w.idx (length c.pcm) c.captured_at (some t.now) c.offset in
      elim t.send_error [
        | some e ↦ (failed e, send_audio c.pcm ∷ [])
        | none ↦ (
          writing (record { idx = idx; ring = ring; last_activity = t.after; waiting = false }),
          send_audio c.pcm ∷ count_bytes (length c.pcm) ∷ [],
        )
      ]

  unfoldable pub turn : Writer → Turn → WriteResult × List Output
  turn w t = if not t.active then (paused, []) else write_chunk w t (pop w.ring)

  -- A move; the writer's own moves are those of where it stands.
  unfoldable pub move : Writer → Move → WriteResult × List Output
  move w (drains g f) = (writing (record w { ring = (push w.ring g f).0 }), [])
  move w (turns t) = if w.waiting then (writing w, []) else turn w t
  move w (hears h) = if w.waiting then hear w h else (writing w, [])

  unfoldable pub resume :
      WriteResult × List Output → (Writer → WriteResult × List Output) → WriteResult × List Output
  resume (writing w, out) rest = let r = rest w in (r.0, out ++ r.1)
  resume (paused, out) rest = (paused, out)
  resume (finished, out) rest = (finished, out)
  resume (failed e, out) rest = (failed e, out)

  -- writeLoop, as far as the moves reach.
  unfoldable pub write_loop : Writer → List Move → WriteResult × List Output
  write_loop w [] = (writing w, [])
  write_loop w (m ∷ ms) = resume (move w m) (λ w'. write_loop w' ms)

  -- One frame through startDrain.
  unfoldable pub drain : Gate → Ring → Frame → Gate × Ring × List Duration
  drain g r f = let g' = (observe fl g f).0 in let pushed = push r g' f in (g', pushed.0, pushed.1)

pub record MusicEdge : Type 0 where
  pub active : Bool
  pub at : Duration

-- What the read loop hands on: OnMusic, OnTranscript, and the channel of transcripts.
pub data Handed : Type 0 where
  music : Bool → Duration → Handed
  observed : Transcript → Handed
  published : Transcript → Handed

-- t.CapturedAt, t.SentAt
abbrev pub stamped : Transcript → Option (Time × Time) → Transcript
stamped t none = t
stamped t (some (captured, sent)) = record t { captured_at = captured; sent_at = sent }

module _ (fl : Float64) (idx : AnchorIndex) where
  unfoldable pub hand_music : Bool → Option MusicEdge → List Handed
  hand_music on_music none = []
  hand_music on_music (some e) =
      if on_music
      then elim (source_at fl idx e.at) [ none ↦ [] | some at ↦ music e.active at ∷ [] ]
      else []

  unfoldable pub normalize : Time → Transcript → Transcript
  normalize now t =
      let t' = record t { received_at = now } in
      source_time fl idx (stamped t' (at fl idx (end_of t')))

  -- The loop over the segments, each with whether `out` takes it before the context is done; the
  -- second part says that the loop went through.
  unfoldable pub hand_segments : Bool → Time → List (Transcript × Bool) → List Handed × Bool
  hand_segments on_transcript now [] = ([], true)
  hand_segments on_transcript now ((t, taken) ∷ ts) =
      let t' = normalize now t in
      let heard = if on_transcript then observed t' ∷ [] else [] in
      let rest = hand_segments on_transcript now ts in
      if taken then (heard ++ published t' ∷ rest.0, rest.1) else (heard, false)

  -- One message of readLoop that Decode made `ts` and `edge` of, and whether the loop goes on.
  unfoldable pub read_message :
      Bool → Bool → Time → List (Transcript × Bool) → Option MusicEdge → List Handed × Bool
  read_message on_music on_transcript now ts edge =
      let r = hand_segments on_transcript now ts in (hand_music on_music edge ++ r.0, r.1)

-- Which of the two loops of a connection ended first, and how.
pub data First : Type 0 where
  writer_paused : First
  writer_failed : Failure → First
  writer_finished : First
  reader_failed : Option Failure → First

pub data Teardown : Type 0 where
  finishes : Teardown  -- finish: the polite end of the stream
  drops : Teardown  -- cancelConn and CloseNow

-- runConnection, from the loop that ended first.
unfoldable pub run_connection : First → Outcome × Teardown
run_connection writer_paused = (Outcome.pause, finishes)
run_connection (writer_failed e) = (Outcome.reconnect (some e), drops)
run_connection writer_finished = (Outcome.done, finishes)
run_connection (reader_failed e) = (Outcome.reconnect e, drops)
