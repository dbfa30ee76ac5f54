-- ===== src/Stt/Tests.antt =====
-- The theorems on internal/stt at concrete inputs.
use pi_live_captions.Stt.Connection.{Writer, Turn, Heard, Move, write_loop, read_message}
use pi_live_captions.Stt.Connection.Account.{Accounts, IsReady, write_loop-Accounts}
use pi_live_captions.Stt.Connection.Texts.{Hands, read_message-Hands}
use pi_live_captions.Stt.Transcript.{Word, Transcript}
use pi_live_captions.Stt.Backoff.{IsDraw, min_backoff-IsBackoff}
use pi_live_captions.Stt.Driver.{Failure, Round, Retry, Outcome, Wake, new_driver, run}
use pi_live_captions.Stt.Driver.Protocol.{Follows, Phase, run-Follows}
use pi_live_captions.Stt.Driver.Permanent.{error_of, refusal, run-error}
use pi_live_captions.Base.{
  ℕ, List, [], ◌∷◌, ◌++◌, true, false, not, ◌&&◌, none, some, ◌≡◌, refl, ℤ, pos, negsuc, ◌-ℤ◌, ◌-◌,
  arith,
}
use pi_live_captions.Audio.Format.{Duration, Frame, pipeline_format, bytes_for}
use pi_live_captions.Audio.Toy.{toy}
use pi_live_captions.Stt.Gate.{Gate, PauseConfig, new_gate, observe_level}
use pi_live_captions.Stt.Gate.Silence.{spans, silent_run, observe_all, observe_all-active}
use pi_live_captions.Stt.Ring.{Chunk, Ring, new_ring, push, admit}
use pi_live_captions.Stt.Ring.Bounds.{
  IsValid as IsValidRing, Evicts, active_offsets, new_ring-IsValid, push_lem,
}
use pi_live_captions.Stt.Anchor.{AnchorIndex, anchor_window, new_anchor_index, covering, add}
use pi_live_captions.Stt.Anchor.Chain.{Covers, covering-Covers}
use pi_live_captions.Stt.Anchor.Window.{Adds, new_anchor_index-IsValid, add-Adds}

abbrev pause : PauseConfig
pause = record { enabled = true; hold = pos 60 }

-- Speech at 0, then silence from 10 to 70; the newest first.
abbrev lull : List (ℤ × Duration)
lull = (negsuc 79, pos 70) ∷ (negsuc 79, pos 40) ∷ (negsuc 79, pos 10) ∷ (pos 0, pos 0) ∷ []

lull_pauses : (observe_all toy pause lull).active ≡ false
unfolding observe_level new_gate ◌-ℤ◌
lull_pauses = refl

observe_all-active_example :
    (observe_all toy pause lull).active
    ≡ not (pause.enabled && spans pause.hold (silent_run toy lull))
observe_all-active_example = observe_all-active toy pause lull

abbrev frame : ℕ → Frame
frame n = record {
  noise_gated = false;
  noise_gate_open = false;
  pcm = n ∷ n ∷ n ∷ n ∷ [];
  offset = pos n;
  captured_at = none;
}

abbrev gate : Gate
gate = record { cfg = pause; active = true; in_silence = false; sil_start = pos 0; changed = 0 }

abbrev one_chunk : Ring
one_chunk = (push (new_ring 6) gate (frame 1)).0

one_chunk-IsValid : IsValidRing one_chunk
one_chunk-IsValid = (push_lem (new_ring 6) gate (frame 1) (new_ring-IsValid 6)).0

second_push_drops : (push one_chunk gate (frame 2)).1 ≡ pos 1 ∷ []
unfolding push new_ring
second_push_drops = refl

push_lem_example :
    let (r', drops) = push one_chunk gate (frame 2) in
    IsValidRing r'
    × (r'.notified ≡ true)
    × ((dropped : List Chunk) × Evicts one_chunk.cap_bytes
          (one_chunk.chunks ++ admit gate (frame 2) ∷ [])
          dropped
          r'.chunks
        × (drops ≡ active_offsets dropped))
push_lem_example = push_lem one_chunk gate (frame 2) one_chunk-IsValid

abbrev fresh : AnchorIndex
fresh = new_anchor_index pipeline_format

abbrev one_anchor : AnchorIndex
one_anchor = add toy fresh 3200 (some (pos 100)) none (pos 100)

add-Adds_example :
    Adds
      (bytes_for toy fresh.format anchor_window)
      fresh
      3200
      (some (pos 100))
      none
      (pos 100)
      one_anchor
add-Adds_example =
    add-Adds toy fresh 3200 (some (pos 100)) none (pos 100)
      (new_anchor_index-IsValid pipeline_format) (omega arith)

covering-Covers_example : Covers one_anchor (pos 1600) (covering one_anchor (pos 1600))
covering-Covers_example = covering-Covers one_anchor (pos 1600) add-Adds_example.valid

abbrev words : List Word
words =
    record { text = b'a' ∷ []; start = pos 0; end = pos 50 }
    ∷ record { text = b'b' ∷ []; start = pos 60; end = pos 90 }
    ∷ []

abbrev segment : Transcript
segment = record {
  words = words;
  speaker = 1;
  start = pos 0;
  duration = pos 90;
  received_at = none;
  captured_at = none;
  sent_at = none;
}

abbrev refused : Failure
refused = record { message = 1; permanent = true }

abbrev retry : Retry
retry = record { cancelled = false; draw = λ n. n - 1; slept = true }

retry-IsDraw : IsDraw retry.draw
retry-IsDraw n l = omega (arith, l)

abbrev plain_round : Round
plain_round = record {
  exhausted = false;
  cancelled = false;
  dial = none;
  dial_cancelled = false;
  outcome = Outcome.reconnect none;
  retry = retry;
  resume_cancelled = false;
  wakes = Wake.changed ∷ Wake.resumed ∷ [];
}

-- A connection is lost, the next pauses and resumes, and a later dial is refused.
abbrev session : List Round
session =
    plain_round
    ∷ record plain_round { outcome = Outcome.pause }
    ∷ record plain_round { dial = some refused }
    ∷ []

run-Follows_example : Follows Phase.idle (run true new_driver session)
run-Follows_example =
    run-Follows new_driver session min_backoff-IsBackoff
      (retry-IsDraw, (retry-IsDraw, (retry-IsDraw, tt)))

run-error_example :
    error_of (run true new_driver (record plain_round { dial = some refused } ∷ [])).0
    ≡ refusal (record plain_round { dial = some refused } ∷ [])
run-error_example = run-error true (record plain_round { dial = some refused } ∷ [])

abbrev writer : Writer
writer = record { idx = fresh; ring = one_chunk; last_activity = pos 0; waiting = false }

writer-IsReady : IsReady writer
writer-IsReady = record {
  index = new_anchor_index-IsValid pipeline_format;
  ring = one_chunk-IsValid;
}

abbrev turn_ok : Turn
turn_ok = record { active = true; now = pos 1; send_error = none; after = pos 2 }

-- The chunk is sent, the next turn finds nothing, a frame is drained and wakes the writer.
abbrev moves : List Move
moves =
    Move.turns turn_ok
    ∷ Move.turns turn_ok
    ∷ Move.drains gate (frame 2)
    ∷ Move.hears Heard.notified
    ∷ Move.turns turn_ok
    ∷ []

write_loop-Accounts_example : Accounts writer (write_loop toy writer moves)
write_loop-Accounts_example = write_loop-Accounts toy writer moves writer-IsReady

read_message-Hands_example : Hands toy one_anchor true ((segment, true) ∷ (segment, false) ∷ []) (
    read_message toy one_anchor true true
      (some (pos 9))
      ((segment, true) ∷ (segment, false) ∷ [])
      none)
read_message-Hands_example =
    read_message-Hands toy one_anchor true true (some (pos 9))
      ((segment, true) ∷ (segment, false) ∷ []) none
