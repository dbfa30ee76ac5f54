-- ===== src/Audio/Capture.antt =====
-- internal/audio/device.go: the live source. What ffmpeg's pipe answers is an argument, with what
-- the context and the clock say; the process itself is not modelled.
pub mod Clock
use pi_live_captions.Base.{
  ℕ, ◌*◌, List, [], ◌∷◌, ◌++◌, Bool, true, false, not, ◌&&◌, ◌||◌, Option, none, some, ℤ, pos, ◌+ℤ◌,
  Text, codes, is_empty, length, ltb, if◌then◌else◌,
}
use pi_live_captions.Audio.Float.{Float64}
use pi_live_captions.Audio.Format.{Duration, Frame, pipeline_format, duration}

abbrev pub Bytes : Type 0
Bytes = List ℕ

pub data PipeError : Type 0 where
  eof unexpected_eof : PipeError
  broken : Text → PipeError

-- One ReadFull: the bytes, the clock behind it, whether the frame is taken before the context is
-- done, and the error.
pub record Read : Type 0 where
  pub bytes : Bytes
  pub clock : ℤ
  pub taken : Bool
  pub err : Option PipeError

-- One lifetime of ffmpeg: an error of its launch, the reads, its last line on stderr, whether the
-- context is done then, and whether the sleep before the next one runs to its end.
pub record Attempt : Type 0 where
  pub launch_err : Option Text
  pub reads : List Read
  pub last_stderr : Text
  pub cancelled : Bool
  pub slept : Bool

-- The media clock; the frames sent; and what OnFrame and OnAvailability were called with, the calls
-- of OnRestart being as many as the waits.
pub record DeviceSource : Type 0 where
  pub offset : Duration
  pub frames : List Frame
  pub counted : List (ℕ × Duration)
  pub states : List (Text × Text)
  pub waits : List ℕ

unfoldable pub new_device_source : DeviceSource
new_device_source = record { offset = pos 0; frames = []; counted = []; states = []; waits = [] }

-- How captureOnce ended; `reading` is where the given reads are used up.
pub data Ended : Type 0 where
  reading stopped : Ended
  failed : Text → Ended

abbrev pub has_bytes : Read → Bool
has_bytes r = ltb 0 (length r.bytes)

-- The error of a read; the end of the pipe is ffmpeg's last words.
unfoldable pub capture_error : PipeError → Text → Text
capture_error PipeError.eof last =
    if is_empty last then codes "capture ended unexpectedly" else last
capture_error PipeError.unexpected_eof last =
    if is_empty last then codes "capture ended unexpectedly" else last
capture_error (PipeError.broken e) last = e

abbrev pub wait_first : ℕ
wait_first = 250_000_000

abbrev pub wait_most : ℕ
wait_most = 8_000_000_000

unfoldable pub next_wait : ℕ → ℕ
next_wait b = if ltb wait_most (b * 2) then wait_most else b * 2

unfoldable pub unavailable : DeviceSource → Text → ℕ → DeviceSource
unavailable s reason wait = record s {
  states = s.states ++ (codes "unavailable", reason) ∷ [];
  waits = s.waits ++ wait ∷ [];
}

module _ (fl : Float64) where
  -- What captureOnce does with the bytes of a read.
  unfoldable pub take_read : DeviceSource → Bool → Read → DeviceSource
  take_read s capturing r =
      let offset = s.offset +ℤ duration fl pipeline_format (pos (length r.bytes)) in
      let frame : Frame = record {
        noise_gated = false;
        noise_gate_open = false;
        pcm = r.bytes;
        offset = offset;
        captured_at = some r.clock;
      } in
      if has_bytes r
      then record s {
        offset = offset;
        frames = if r.taken then s.frames ++ frame ∷ [] else s.frames;
        counted = s.counted ++ (length r.bytes, offset) ∷ [];
        states = if capturing then s.states else s.states ++ (codes "capturing", []) ∷ [];
      }
      else s

  -- The loop of captureOnce.
  unfoldable pub capture : DeviceSource → Bool → Text → List Read → DeviceSource × Ended
  capture s capturing last [] = (s, Ended.reading)
  capture s capturing last (r ∷ rs) =
      let rest = capture (take_read s capturing r) (capturing || has_bytes r) last rs in
      if has_bytes r && not r.taken then (take_read s capturing r, Ended.stopped) else elim r.err [
        | none ↦ rest
        | some e ↦ (take_read s capturing r, Ended.failed (capture_error e last))
      ]

  unfoldable pub capture_once : DeviceSource → Attempt → DeviceSource × Ended
  capture_once s a = elim a.launch_err [
    | some e ↦ (s, Ended.failed e)
    | none ↦ capture s false a.last_stderr a.reads
  ]

  -- The loop of Start, from a wait. captureOnce never returns nil.
  unfoldable pub run : DeviceSource → ℕ → List Attempt → DeviceSource
  run s wait [] = s
  run s wait (a ∷ rest) =
      let once = capture_once s a in
      elim once.1 [
        | Ended.reading ↦ once.0
        | Ended.stopped ↦ once.0
        | Ended.failed e ↦
            let after = run (unavailable once.0 e wait) (next_wait wait) rest in
            if a.cancelled then once.0 else if a.slept then after else unavailable once.0 e wait
      ]

  -- Start; a source whose device was rejected never launches ffmpeg.
  unfoldable pub start_capture : Text → List Attempt → DeviceSource
  start_capture blocked_reason attempts =
      if is_empty blocked_reason
      then run new_device_source wait_first attempts
      else new_device_source
