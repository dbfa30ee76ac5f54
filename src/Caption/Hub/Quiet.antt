-- ===== src/Caption/Hub/Quiet.antt =====
-- Nothing is painted while music plays.
use pi_live_captions.Base.{
  List, [], ◌∷◌, ◌++◌, Bool, true, false, Option, ◌≡◌, refl, ℤ, Text, if◌then◌else◌, if_cases, All,
}
use pi_live_captions.Caption.Event.{Event, Line}
use pi_live_captions.Caption.Hub.State.{
  Hub, Output, event, marker, final_calls, new_event, broadcast, close_line, mark,
}
use pi_live_captions.Caption.Hub.Publish.{close_locked, trim_held, hold}
use pi_live_captions.Caption.Hub.Music.{cancel_music_end}
use pi_live_captions.Caption.Hub.Operations.{
  publish_status, pauses, clear, flush, subscribe, has_sub, unsubscribe, Call, publishes,
  sets_music, resets, timer_fires, publishes_status, clears, flushes, subscribes, unsubscribes,
  receives, step, run,
}
use pi_live_captions.Caption.Hub.Painted.{
  painted, painted_by, painted-append, painted-final_calls, join_text-nil,
}
use pi_live_captions.Caption.Hub.Cases.{
  publish_cases, set_music_cases, resume_music_cases, end_music_cases,
}

-- The calls that may end a song: a timer's function, and the end of the connection.
abbrev pub may_end_song : Call → Bool
may_end_song resets = true
may_end_song (timer_fires token) = true
may_end_song (publishes t) = false
may_end_song (sets_music active at) = false
may_end_song (publishes_status state) = false
may_end_song clears = false
may_end_song flushes = false
may_end_song subscribes = false
may_end_song (unsubscribes id) = false
may_end_song (receives id) = false

-- What has left the hub paints the text `p`.
pub record Paints (p : Text) (o : List Output) : Type 0 where
  pub equal : painted o ≡ p

-- Music plays on in `h`, and what has left it paints the text `p`.
pub record IsQuiet (p : Text) (h : Hub) : Type 0 where
  pub plays : h.music ≡ true
  pub paints : Paints p h.out

Paints-event :
    (p : Text) (o : List Output) (ev : Event)
    → painted_by ev.kind ev ≡ []
    → Paints p o
    → Paints p (o ++ event ev ∷ [])
Paints-event p o ev e q = record { equal = simp (painted-append, e, join_text-nil) q.equal }

Paints-final :
    (p : Text) (o : List Output) (b : Bool) (l : Option Line)
    → Paints p o
    → Paints p (o ++ final_calls b l)
Paints-final p o b l q = record {
  equal = simp (painted-append, painted-final_calls, join_text-nil) q.equal;
}

Paints-marker :
    (p : Text) (o : List Output) (b : Bool) (l : Line)
    → Paints p o
    → Paints p (o ++ (if b then marker l ∷ [] else []))
Paints-marker p o true l q = record { equal = simp (painted-append, join_text-nil) q.equal }
Paints-marker p o false l q = record { equal = simp (painted-append, join_text-nil) q.equal }

step-IsQuiet :
    (p : Text) (h : Hub) (c : ℤ × Call)
    → may_end_song c.1 ≡ false
    → IsQuiet p h
    → IsQuiet p (step h c)
unfolding step hold trim_held cancel_music_end publish_status clear flush subscribe unsubscribe
    close_line close_locked mark new_event broadcast
step-IsQuiet p h (now, publishes t) s q =
    publish_cases (IsQuiet p) h now t q (λ m. record { plays = q.plays; paints = q.paints })
      (λ t' m c. absurd (cc))
step-IsQuiet p h (now, sets_music active at) s q =
    set_music_cases (IsQuiet p) h now active at
      (λ m.
        resume_music_cases (IsQuiet p) _ (record { plays = q.plays; paints = q.paints })
          (record { plays = q.plays; paints = q.paints }))
      (λ m. absurd (cc))
      (end_music_cases (IsQuiet p) _ at (record { plays = q.plays; paints = q.paints })
        (λ m n. record { plays = q.plays; paints = q.paints }))
step-IsQuiet p h (now, resets) s q = absurd (cc)
step-IsQuiet p h (now, timer_fires token) s q = absurd (cc)
step-IsQuiet p h (now, publishes_status state) s q =
    if_cases (IsQuiet p) (pauses h state)
      (λ e. record {
        plays = q.plays;
        paints =
            Paints-marker p _ h.on_marker _
              (Paints-final p _ h.on_final _ (Paints-event p h.out _ refl q.paints));
      })
      (λ e. record { plays = q.plays; paints = Paints-event p h.out _ refl q.paints })
step-IsQuiet p h (now, clears) s q = record {
  plays = q.plays;
  paints = Paints-final p _ h.on_final _ (Paints-event p h.out _ refl q.paints);
}
step-IsQuiet p h (now, flushes) s q = record {
  plays = q.plays;
  paints = Paints-final p h.out h.on_final _ q.paints;
}
step-IsQuiet p h (now, subscribes) s q = record { plays = q.plays; paints = q.paints }
step-IsQuiet p h (now, unsubscribes id) s q =
    if_cases (IsQuiet p) (has_sub id h.subs) (λ e. record { plays = q.plays; paints = q.paints })
      (λ e. q)
step-IsQuiet p h (now, receives id) s q = record { plays = q.plays; paints = q.paints }

-- While music plays, no calls but a timer's and a reset of the connection end the song or paint any
-- text.
pub run-IsQuiet :
    (h : Hub) (cs : List (ℤ × Call))
    → h.music ≡ true
    → All (λ c. may_end_song c.1 ≡ false) cs
    → IsQuiet (painted h.out) (run h cs)
unfolding run
run-IsQuiet h cs m ordinary =
    loop h cs ordinary (record { plays = m; paints = record { equal = refl } })
  where
    loop :
        (g : Hub) (ds : List (ℤ × Call))
        → All (λ c. may_end_song c.1 ≡ false) ds
        → IsQuiet (painted h.out) g
        → IsQuiet (painted h.out) (run g ds)
    loop g [] s q = q
    loop g (d ∷ ds) s q = loop (step g d) ds s.1 (step-IsQuiet (painted h.out) g d s.0 q)
