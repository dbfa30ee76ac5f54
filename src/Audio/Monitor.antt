-- ===== src/Audio/Monitor.antt =====
-- internal/audio/monitor.go: the tap that plays the frames. Its lock makes each operation atomic;
-- the player is a process, which takes chunks at any time.
use pi_live_captions.Base.{
  ℕ, ◌+◌, ◌≤◌, List, [], ◌∷◌, ◌++◌, map, Bool, true, false, ◌≡◌, refl, ap, length, length-append,
  ltb, ltb→lt, if◌then◌else◌, if_cases, All, arith,
}
use pi_live_captions.Audio.Format.{Frame}

abbrev monitor_backlog : ℕ
monitor_backlog = 20

-- The channel's chunks, and the calls of OnDrop.
pub record Monitor : Type 0 where
  pub queue : List (List ℕ)
  pub closed : Bool
  pub dropped : ℕ

unfoldable pub new_monitor : Monitor
new_monitor = record { queue = []; closed = false; dropped = 0 }

unfoldable pub tap : Monitor → List ℕ → Monitor
tap m pcm =
    if m.closed
    then m
    else if ltb (length m.queue) monitor_backlog
    then record m { queue = m.queue ++ pcm ∷ [] }
    else record m { dropped = m.dropped + 1 }

abbrev behind : List (List ℕ) → List (List ℕ)
behind [] = []
behind (c ∷ q) = q

-- The player's goroutine takes a chunk.
unfoldable pub take_chunk : Monitor → Monitor
take_chunk m = record m { queue = behind m.queue }

unfoldable pub close_monitor : Monitor → Monitor
close_monitor m = record m { closed = true }

-- A frame for Wrap, and whether it is taken before the context is done.
pub record Passing : Type 0 where
  pub frame : Frame
  pub taken : Bool

-- Wrap: the frames that come out.
unfoldable pub wrap : Monitor → List Passing → Monitor × List Frame
wrap m [] = (m, [])
wrap m (p ∷ ps) =
    let m' = tap m p.frame.pcm in
    let rest = wrap (tap m p.frame.pcm) ps in
    if p.taken then (rest.0, p.frame ∷ rest.1) else (m', [])

abbrev pub IsBounded : Monitor → Type 0
IsBounded m = length m.queue ≤ monitor_backlog

-- The tap never waits, and the channel never holds more than its places.
pub tap-IsBounded : (m : Monitor) (pcm : List ℕ) → IsBounded m → IsBounded (tap m pcm)
unfolding tap
tap-IsBounded m pcm b =
    if_cases IsBounded m.closed (λ h. b)
      (λ h.
        if_cases IsBounded (ltb (length m.queue) monitor_backlog)
          (λ lt. omega (arith, length-append m.queue (pcm ∷ []), ltb→lt _ _ lt)) (λ ge. b))

-- Through the monitor frames pass as they are, whatever the player does.
pub wrap-frames :
    (m : Monitor) (ps : List Passing)
    → All (λ (p : Passing). p.taken ≡ true) ps
    → (wrap m ps).1 ≡ map (λ (p : Passing). p.frame) ps
unfolding wrap
wrap-frames m [] t = refl
wrap-frames m (p ∷ ps) (t, ts) =
    rw (t) (ap (λ fs. p.frame ∷ fs) (wrap-frames (tap m p.frame.pcm) ps ts))
