-- ===== src/Caption/Hub/Delivery.antt =====
-- What a subscriber's channel holds, and the numbers of the events.
use pi_live_captions.Base.{
  ℕ, suc, ◌≤◌, ◌<◌, List, [], ◌∷◌, ◌++◌, Bool, true, ◌≡◌, refl, sym, ap, ◌∙◌, ℤ, length,
  length-append, ltb, ◌==◌, if_cases, Bool-cases, inl, inr, All, Text, arith, trim_space,
}
use pi_live_captions.Audio.Format.{Duration}
use pi_live_captions.Stt.Transcript.{Transcript, text_of}
use pi_live_captions.Caption.Event.{Event}
use pi_live_captions.Caption.Hub.State.{
  Hub, Sub, new_hub, new_event, deliver, broadcast, close_line, mark, subscriber_buffer,
}
use pi_live_captions.Caption.Hub.Publish.{
  append_segment, close_locked, emit, trim_held, hold, publish,
}
use pi_live_captions.Caption.Hub.Music.{
  cancel_music_end, start_music, set_music, release_held, release_music, reset_connection,
}
use pi_live_captions.Caption.Hub.Operations.{
  publish_status, pauses, clear, flush, subscribe, has_sub, remove_sub, unsubscribe, receive_event,
  receive, Call, publishes, sets_music, resets, timer_fires, publishes_status, clears, flushes,
  subscribes, unsubscribes, receives, step, run,
}
use pi_live_captions.Caption.Hub.Cases.{
  publish_cases, set_music_cases, resume_music_cases, end_music_cases, release_music_cases,
  replay_induction,
}

-- The events' numbers rise strictly from above `lo`, and do not pass `hi`.
abbrev pub Ascends : ℕ → List Event → ℕ → Type 0
Ascends lo [] hi = lo ≤ hi
Ascends lo (ev ∷ evs) hi = (lo < ev.seq) × Ascends ev.seq evs hi

-- A channel holds at most its buffer's size, events in the order of their numbers.
pub record IsOrderly (seq : ℕ) (s : Sub) : Type 0 where
  pub ascends : Ascends 0 s.queue seq
  pub bounded : length s.queue ≤ subscriber_buffer

Ascends-weaken :
    (lo lo' hi hi' : ℕ) (evs : List Event)
    → lo' ≤ lo
    → hi ≤ hi'
    → Ascends lo evs hi
    → Ascends lo' evs hi'
Ascends-weaken lo lo' hi hi' [] l r a = omega arith
Ascends-weaken lo lo' hi hi' (ev ∷ evs) l r a =
    (omega arith, Ascends-weaken ev.seq ev.seq hi hi' evs (omega arith) r a.1)

Ascends-append :
    (lo hi : ℕ) (evs : List Event) (ev : Event)
    → hi < ev.seq
    → Ascends lo evs hi
    → Ascends lo (evs ++ ev ∷ []) ev.seq
Ascends-append lo hi [] ev lt a = (omega arith, omega arith)
Ascends-append lo hi (e ∷ evs) ev lt a = (a.0, Ascends-append e.seq hi evs ev lt a.1)

later-IsOrderly :
    (seq seq' : ℕ) (ss : List Sub) → seq ≤ seq' → All (IsOrderly seq) ss → All (IsOrderly seq') ss
later-IsOrderly seq seq' [] le v = tt
later-IsOrderly seq seq' (s ∷ ss) le v = (
  record {
    ascends = Ascends-weaken 0 0 seq seq' s.queue (omega arith) le v.0.ascends;
    bounded = v.0.bounded;
  },
  later-IsOrderly seq seq' ss le v.1,
)

deliver-IsOrderly :
    (seq : ℕ) (ev : Event) (ss : List Sub)
    → seq < ev.seq
    → All (IsOrderly seq) ss
    → All (IsOrderly ev.seq) (deliver ev ss).0
unfolding deliver
deliver-IsOrderly seq ev [] lt v = tt
deliver-IsOrderly seq ev (s ∷ ss) lt v =
    elim (Bool-cases (ltb (length s.queue) subscriber_buffer)) [
      | inl room ↦ rw room (
        record {
          ascends = Ascends-append 0 seq s.queue ev lt v.0.ascends;
          bounded = ground (arith, length-append s.queue (ev ∷ []));
        },
        deliver-IsOrderly seq ev ss lt v.1,
      )
      | inr full ↦ rw full (
        record {
          ascends = Ascends-weaken 0 0 seq ev.seq s.queue (omega arith) (omega arith) v.0.ascends;
          bounded = v.0.bounded;
        },
        deliver-IsOrderly seq ev ss lt v.1,
      )
    ]

length-deliver : (ev : Event) (ss : List Sub) → length (deliver ev ss).0 ≡ length ss
unfolding deliver
length-deliver ev [] = refl
length-deliver ev (s ∷ ss) = ground (arith, length-deliver ev ss)

-- Every channel is orderly, and the gauge of clients counts the channels.
pub record Delivers (seq clients : ℕ) (subs : List Sub) : Type 0 where
  pub orderly : All (IsOrderly seq) subs
  pub counted : clients ≡ length subs

abbrev pub IsDelivering : Hub → Type 0
IsDelivering h = Delivers h.seq h.metrics.sse_clients h.subs

deliver-Delivers :
    (seq clients : ℕ) (ev : Event) (subs : List Sub)
    → seq < ev.seq
    → Delivers seq clients subs
    → Delivers ev.seq clients (deliver ev subs).0
deliver-Delivers seq clients ev subs lt v = record {
  orderly = deliver-IsOrderly seq ev subs lt v.orderly;
  counted = v.counted ∙ sym (length-deliver ev subs);
}

emit-IsDelivering :
    (h : Hub) (now : ℤ) (t : Transcript) (text : Text)
    → IsDelivering h
    → IsDelivering (emit h now t text)
unfolding emit broadcast new_event append_segment close_line close_locked
emit-IsDelivering h now t text v =
    deliver-Delivers h.seq h.metrics.sse_clients _ h.subs (omega arith) v

publish-IsDelivering :
    (h : Hub) (now : ℤ) (t : Transcript) → IsDelivering h → IsDelivering (publish h now t)
unfolding hold trim_held
publish-IsDelivering h now t v =
    publish_cases IsDelivering h now t v (λ m. v)
      (λ t' m c. emit-IsDelivering h now t' (trim_space (text_of t')) v)

set_music-IsDelivering :
    (h : Hub) (now : ℤ) (active : Bool) (at : Duration)
    → IsDelivering h
    → IsDelivering (set_music h now active at)
unfolding trim_held start_music cancel_music_end broadcast new_event close_line close_locked mark
set_music-IsDelivering h now active at v =
    set_music_cases IsDelivering h now active at (λ m. resume_music_cases IsDelivering _ v v)
      (λ m. deliver-Delivers h.seq h.metrics.sse_clients _ h.subs (omega arith) v)
      (end_music_cases IsDelivering _ at v (λ m n. v))

reset_connection-IsDelivering :
    (h : Hub) (now : ℤ) → IsDelivering h → IsDelivering (reset_connection h now)
unfolding reset_connection cancel_music_end broadcast new_event
reset_connection-IsDelivering h now v =
    if_cases IsDelivering h.music
      (λ m. deliver-Delivers h.seq h.metrics.sse_clients _ h.subs (omega arith) v) (λ m. v)

release_music-IsDelivering :
    (h : Hub) (now : ℤ) (token : ℕ) → IsDelivering h → IsDelivering (release_music h now token)
unfolding release_held broadcast new_event
release_music-IsDelivering h now token v = release_music_cases IsDelivering h now token v λ m.
    replay_induction IsDelivering now h.held (λ g t. publish-IsDelivering g now t) _
      (deliver-Delivers h.seq h.metrics.sse_clients _ h.subs (omega arith) v)

publish_status-IsDelivering :
    (h : Hub) (now : ℤ) (state : Text) → IsDelivering h → IsDelivering (publish_status h now state)
unfolding publish_status broadcast new_event close_line close_locked mark
publish_status-IsDelivering h now state v =
    if_cases IsDelivering (pauses h state)
      (λ p. deliver-Delivers h.seq h.metrics.sse_clients _ h.subs (omega arith) v)
      (λ p. deliver-Delivers h.seq h.metrics.sse_clients _ h.subs (omega arith) v)

remove_sub-All :
    (seq id : ℕ) (ss : List Sub) → All (IsOrderly seq) ss → All (IsOrderly seq) (remove_sub id ss)
unfolding remove_sub
remove_sub-All seq id [] v = tt
remove_sub-All seq id (s ∷ ss) v =
    if_cases (All (IsOrderly seq)) (s.id == id) (λ e. v.1)
      (λ e. (v.0, remove_sub-All seq id ss v.1))

length-remove_sub :
    (id : ℕ) (ss : List Sub) → has_sub id ss ≡ true → suc (length (remove_sub id ss)) ≡ length ss
unfolding remove_sub has_sub
length-remove_sub id [] e = cc
length-remove_sub id (s ∷ ss) e = elim (Bool-cases (s.id == id)) [
  | inl hit ↦ rw hit
  | inr miss ↦ rw miss (ap suc (length-remove_sub id ss (ground arith)))
]

received-IsOrderly :
    (seq id : ℕ) (q : List Event)
    → Ascends 0 q seq
    → length q ≤ subscriber_buffer
    → IsOrderly seq (record { id = id; queue = receive_event q })
received-IsOrderly seq id [] a b = record { ascends = a; bounded = b }
received-IsOrderly seq id (ev ∷ evs) a b = record {
  ascends = Ascends-weaken ev.seq 0 seq seq evs (omega arith) (omega arith) a.1;
  bounded = omega arith;
}

receive-All :
    (seq id : ℕ) (ss : List Sub) → All (IsOrderly seq) ss → All (IsOrderly seq) (receive id ss)
unfolding receive
receive-All seq id [] v = tt
receive-All seq id (s ∷ ss) v =
    if_cases (All (IsOrderly seq)) (s.id == id)
      (λ e. (received-IsOrderly seq s.id s.queue v.0.ascends v.0.bounded, v.1))
      (λ e. (v.0, receive-All seq id ss v.1))

length-receive : (id : ℕ) (ss : List Sub) → length (receive id ss) ≡ length ss
unfolding receive
length-receive id [] = refl
length-receive id (s ∷ ss) = ground (arith, length-receive id ss)

-- Every call keeps this.
step-IsDelivering : (h : Hub) (c : ℤ × Call) → IsDelivering h → IsDelivering (step h c)
unfolding step clear flush cancel_music_end subscribe unsubscribe broadcast new_event close_line
    close_locked
step-IsDelivering h (now, publishes t) v = publish-IsDelivering h now t v
step-IsDelivering h (now, sets_music active at) v = set_music-IsDelivering h now active at v
step-IsDelivering h (now, resets) v = reset_connection-IsDelivering h now v
step-IsDelivering h (now, timer_fires token) v = release_music-IsDelivering h now token v
step-IsDelivering h (now, publishes_status state) v = publish_status-IsDelivering h now state v
step-IsDelivering h (now, clears) v =
    deliver-Delivers h.seq h.metrics.sse_clients _ h.subs (omega arith) v
step-IsDelivering h (now, flushes) v = v
step-IsDelivering h (now, subscribes) v = record {
  orderly = (
    record { ascends = (omega arith, (omega arith, omega arith)); bounded = omega arith },
    later-IsOrderly h.seq (suc (suc h.seq)) h.subs (omega arith) v.orderly,
  );
  counted = ap suc v.counted;
}
step-IsDelivering h (now, unsubscribes id) v =
    if_cases IsDelivering (has_sub id h.subs)
      (λ e. record {
        orderly = remove_sub-All h.seq id h.subs v.orderly;
        counted = omega (arith, v.counted, length-remove_sub id h.subs e);
      })
      (λ e. v)
step-IsDelivering h (now, receives id) v = record {
  orderly = receive-All h.seq id h.subs v.orderly;
  counted = v.counted ∙ sym (length-receive id h.subs);
}

run-IsDelivering : (h : Hub) (cs : List (ℤ × Call)) → IsDelivering h → IsDelivering (run h cs)
unfolding run
run-IsDelivering h [] v = v
run-IsDelivering h (c ∷ cs) v = run-IsDelivering (step h c) cs (step-IsDelivering h c v)

-- After any calls on a new hub each channel holds at most its buffer's size of events, in the strict
-- order of their numbers and none above the last number given, and the gauge of clients is the
-- count of the channels.
pub run-new_hub-IsDelivering :
    (on_final on_marker : Bool) (cs : List (ℤ × Call))
    → IsDelivering (run (new_hub on_final on_marker) cs)
unfolding new_hub
run-new_hub-IsDelivering on_final on_marker cs =
    run-IsDelivering (new_hub on_final on_marker) cs (record { orderly = tt; counted = refl })
