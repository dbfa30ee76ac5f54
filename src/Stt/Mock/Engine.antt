-- ===== src/Stt/Mock/Engine.antt =====
-- internal/stt/mock/mock.go: the loop of Run over the frames.
use pi_live_captions.Base.{
  List, [], ◌∷◌, ◌++◌, Bool, true, Option, none, some, ℤ, length, if◌then◌else◌, ◌>>=◌,
}
use pi_live_captions.Audio.Format.{Frame}
use pi_live_captions.Metrics.ConnState.{ConnState}
use pi_live_captions.Metrics.State.{Metrics}
use pi_live_captions.Metrics.Operations.{set_stt_state, count_bytes_sent}
use pi_live_captions.Stt.Transcript.{Transcript}
use pi_live_captions.Stt.Mock.Script.{PhraseState, new_phrase_state, Step, step}

-- A frame, the clock when its segment is emitted, and whether `out` takes the segment before the
-- context is done.
pub record Feed : Type 0 where
  pub frame : Frame
  pub received : ℤ
  pub accepts : Bool

-- The state, the metrics, what OnTranscript was called with, and whether the loop goes on.
pub record MockRun (F : Type 0) : Type 0 where
  pub phrase_state : PhraseState
  pub metrics : Metrics F
  pub heard : List Transcript
  pub going : Bool

abbrev pub restamped : Frame → ℤ → Transcript → Transcript
restamped f received t = record t {
  received_at = some received;
  captured_at = f.captured_at;
  sent_at = f.captured_at;
}

abbrev pub heard_with : List Transcript → Frame → ℤ → Option Transcript → List Transcript
heard_with heard f received none = heard
heard_with heard f received (some t) = heard ++ restamped f received t ∷ []

module _ {F : Type 0} where
  unfoldable pub consumed : MockRun F → Feed → Step → MockRun F
  consumed r feed (p, t, going) = record {
    phrase_state = p;
    metrics = count_bytes_sent r.metrics (length feed.frame.pcm);
    heard = heard_with r.heard feed.frame feed.received t;
    going = going;
  }

  unfoldable pub consume : MockRun F → Feed → Option (MockRun F)
  unfolding step consumed
  consume r feed = do
    s ← step r.phrase_state feed.frame.offset feed.accepts
    some (consumed r feed s)

  unfoldable pub consume_all : MockRun F → List Feed → Option (MockRun F)
  consume_all r [] = some r
  consume_all r (feed ∷ feeds) = do
    r' ← consume r feed
    (let rest = consume_all r' feeds in if r'.going then rest else some r')

  -- Run, of an engine with metrics and OnTranscript.
  unfoldable pub run : Metrics F → List Feed → Option (MockRun F)
  unfolding set_stt_state new_phrase_state
  run m feeds =
      consume_all
        (record {
          phrase_state = new_phrase_state;
          metrics = set_stt_state m ConnState.connected;
          heard = [];
          going = true;
        })
        feeds
