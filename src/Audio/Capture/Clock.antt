-- ===== src/Audio/Capture/Clock.antt =====
-- internal/audio/device.go: the media clock over ffmpeg's restarts.
use pi_live_captions.Base.{
  ℕ, ◌<◌, ◌≤◌, List, [], ◌∷◌, ◌++◌, Bool, true, false, not, ◌&&◌, ◌||◌, ◌≡◌, refl, sym, ◌∙◌, ap,
  pos, ◌+ℤ◌, ◌≤ℤ◌, ◌<ℤ◌, +ℤ_parts, eq_of_parts, Text, length, ltb, if◌then◌else◌, if_cases,
  option_cases, is_empty, All, All-append, arith,
}
use pi_live_captions.Audio.Float.{Float64}
use pi_live_captions.Audio.Format.{Duration, Frame, pipeline_format, duration}
use pi_live_captions.Audio.Capture.{
  Read, Attempt, DeviceSource, Ended, has_bytes, next_wait, wait_first, wait_most, unavailable,
  new_device_source, take_read, capture, capture_once, run, start_capture,
}

-- From `lo` on the frames' offsets grow, each frame has bytes, and none is behind `hi`.
abbrev pub Ascends : Duration → List Frame → Duration → Type 0
Ascends lo [] hi = lo ≤ℤ hi
Ascends lo (f ∷ fs) hi = (lo <ℤ f.offset) × (0 < length f.pcm) × Ascends f.offset fs hi

Ascends-later :
    (lo : Duration) (fs : List Frame) (hi hi' : Duration)
    → hi ≤ℤ hi'
    → Ascends lo fs hi
    → Ascends lo fs hi'
Ascends-later lo [] hi hi' h a = omega (arith, h, a)
Ascends-later lo (f ∷ fs) hi hi' h (a, b, c) = (a, b, Ascends-later f.offset fs hi hi' h c)

Ascends-append :
    (lo : Duration) (fs : List Frame) (hi : Duration) (f : Frame)
    → hi <ℤ f.offset
    → 0 < length f.pcm
    → Ascends lo fs hi
    → Ascends lo (fs ++ f ∷ []) f.offset
Ascends-append lo [] hi f h p a = (omega (arith, h, a), p, omega arith)
Ascends-append lo (g ∷ fs) hi f h p (a, b, c) = (a, b, Ascends-append g.offset fs hi f h p c)

abbrev pub IsWait : ℕ → Type 0
IsWait w = (wait_first ≤ w) × (w ≤ wait_most)

next_wait-IsWait : (w : ℕ) → IsWait w → IsWait (next_wait w)
unfolding next_wait
next_wait-IsWait w (a, b) = (ground arith, ground arith)

module _ (fl : Float64) where
  -- The time of what OnFrame was told of.
  abbrev pub time_of : List (ℕ × Duration) → Duration
  time_of [] = pos 0
  time_of ((n, at) ∷ cs) = duration fl pipeline_format (pos n) +ℤ time_of cs

  time_of-append :
      (cs : List (ℕ × Duration)) (n : ℕ) (at : Duration)
      → time_of (cs ++ (n, at) ∷ []) ≡ time_of cs +ℤ duration fl pipeline_format (pos n)
  time_of-append [] n at = eq_of_parts _ _ (
      omega (
        arith,
        +ℤ_parts (duration fl pipeline_format (pos n)) (pos 0),
        +ℤ_parts (pos 0) (duration fl pipeline_format (pos n)),
      ))
  time_of-append ((k, o) ∷ cs) n at =
      let d = duration fl pipeline_format (pos n) in
      let e = duration fl pipeline_format (pos k) in
      ap (λ x. e +ℤ x) (time_of-append cs n at)
      ∙ eq_of_parts _ _ (
          omega (
            arith,
            +ℤ_parts e (time_of cs +ℤ d),
            +ℤ_parts (time_of cs) d,
            +ℤ_parts (e +ℤ time_of cs) d,
            +ℤ_parts e (time_of cs),
          ))

  -- The frames' offsets grow up to the clock, which is the time of all bytes read; and the waits
  -- are within their bounds.
  abbrev pub IsClocked : DeviceSource → Type 0
  IsClocked s =
      Ascends (pos 0) s.frames s.offset × (s.offset ≡ time_of s.counted) × All IsWait s.waits

  -- What the float64 arithmetic is relied on for: bytes take time.
  abbrev pub TakesTime : Type 0
  TakesTime = (n : ℕ) → 0 < n → pos 0 <ℤ duration fl pipeline_format (pos n)

  take_read-IsClocked :
      TakesTime
      → (s : DeviceSource) (capturing : Bool) (r : Read) → IsClocked s
      → IsClocked (take_read fl s capturing r)
  unfolding take_read
  take_read-IsClocked k s capturing r (a, t, w) =
      if_cases IsClocked (ltb 0 (length r.bytes))
        (λ h. (
          if_cases (λ fs. Ascends (pos 0) fs (s.offset +ℤ d)) r.taken
              (λ e. Ascends-append (pos 0) s.frames s.offset _ (later h) (ground arith) a)
              (λ e. Ascends-later (pos 0) s.frames s.offset _ (omega (arith, later h)) a),
          ap (λ x. x +ℤ d) t ∙ sym (time_of-append s.counted (length r.bytes) _),
          w,
        ))
        (λ h. (a, t, w))
    where
      d : Duration
      d = duration fl pipeline_format (pos (length r.bytes))

      later : ltb 0 (length r.bytes) ≡ true → s.offset <ℤ (s.offset +ℤ d)
      later h = omega (arith, +ℤ_parts s.offset d, k (length r.bytes) (ground arith))

  capture-IsClocked :
      TakesTime
      → (s : DeviceSource) (capturing : Bool) (last : Text) (rs : List Read) → IsClocked s
      → IsClocked (capture fl s capturing last rs).0
  unfolding capture
  capture-IsClocked k s capturing last [] v = v
  capture-IsClocked k s capturing last (r ∷ rs) v =
      let v' = take_read-IsClocked k s capturing r v in
      if_cases (λ (o : DeviceSource × Ended). IsClocked o.0) (has_bytes r && not r.taken) (λ h. v')
        (λ h.
          option_cases (λ (o : DeviceSource × Ended). IsClocked o.0) r.err
            (λ e.
              capture-IsClocked k (take_read fl s capturing r) (capturing || has_bytes r) last rs
                v')
            (λ x e. v'))

  unavailable-IsClocked :
      (s : DeviceSource) (reason : Text) (wait : ℕ)
      → IsWait wait
      → IsClocked s
      → IsClocked (unavailable s reason wait)
  unfolding unavailable
  unavailable-IsClocked s reason wait b (a, t, w) = (a, t, All-append IsWait s.waits _ w (b, tt))

  capture_once-IsClocked :
      TakesTime → (s : DeviceSource) (a : Attempt) → IsClocked s → IsClocked (capture_once fl s a).0
  unfolding capture_once
  capture_once-IsClocked k s a v =
      option_cases (λ (o : DeviceSource × Ended). IsClocked o.0) a.launch_err
        (λ e. capture-IsClocked k s false a.last_stderr a.reads v) (λ x e. v)

  run-IsClocked :
      TakesTime
      → (attempts : List Attempt) (s : DeviceSource) (wait : ℕ) → IsWait wait
      → IsClocked s
      → IsClocked (run fl s wait attempts)
  unfolding run
  run-IsClocked k [] s wait b v = v
  run-IsClocked k (a ∷ rest) s wait b v =
      ended (capture_once fl s a).0 (capture_once fl s a).1 (capture_once-IsClocked k s a v)
        (λ u. run-IsClocked k rest u (next_wait wait) (next_wait-IsWait wait b))
    where
      ended :
          (s' : DeviceSource) (o : Ended)
          → IsClocked s'
          → ((u : DeviceSource) → IsClocked u → IsClocked (run fl u (next_wait wait) rest))
          → IsClocked (elim o as (λ x. DeviceSource) [
            | Ended.reading ↦ s'
            | Ended.stopped ↦ s'
            | Ended.failed e ↦
                if a.cancelled
                then s'
                else if a.slept
                then run fl (unavailable s' e wait) (next_wait wait) rest
                else unavailable s' e wait
          ])
      ended s' Ended.reading v' next = v'
      ended s' Ended.stopped v' next = v'
      ended s' (Ended.failed e) v' next =
          let u = unavailable-IsClocked s' e wait b v' in
          if_cases IsClocked a.cancelled (λ h. v')
            (λ h. if_cases IsClocked a.slept (λ h. next (unavailable s' e wait) u) (λ h. u))

  -- If the float64 arithmetic gives any bytes a time: over all restarts of ffmpeg, whatever the pipe
  -- answers and the errors are, the frames sent have bytes and offsets that strictly grow, up to the
  -- media clock, which is exactly the time of all bytes that OnFrame was told of; and every wait
  -- before a restart is of 250 ms to 8 s.
  pub start_capture-IsClocked :
      TakesTime
      → (blocked_reason : Text) (attempts : List Attempt)
      → IsClocked (start_capture fl blocked_reason attempts)
  unfolding start_capture new_device_source
  start_capture-IsClocked k blocked_reason attempts =
      if_cases IsClocked (is_empty blocked_reason)
        (λ h.
          run-IsClocked k attempts new_device_source wait_first (omega arith, omega arith)
            (omega arith, refl, tt))
        (λ h. (omega arith, refl, tt))
