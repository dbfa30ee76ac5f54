-- ===== src/Caption/Hub/Suppression.antt =====
-- What holds of the hub between two calls: the open line, and the state of the music suppression.
use pi_live_captions.Base.{
  ℕ, ◌<◌, List, [], ◌∷◌, Bool, true, false, some, ◌≡◌, refl, sym, ◌∙◌, max_ℤ, ◌⊎◌, inl, inr, ℤ,
  Text, byte_len, if◌then◌else◌, if_cases, arith, trim_space,
}
use pi_live_captions.Audio.Format.{Duration}
use pi_live_captions.Stt.Transcript.{Transcript, text_of}
use pi_live_captions.Caption.Event.{ends_sentence}
use pi_live_captions.Caption.Cutoff.{keep_after}
use pi_live_captions.Caption.Hub.State.{Hub, new_hub, new_event, broadcast, close_line, mark}
use pi_live_captions.Caption.Hub.Cases.{
  publish_cases, set_music_cases, resume_music_cases, end_music_cases, release_music_cases,
  replay_induction,
}
use pi_live_captions.Caption.Hub.Music.{
  cancel_music_end, start_music, end_music, set_music, release_held, release_music,
  reset_connection,
}
use pi_live_captions.Caption.Hub.Operations.{
  publish_status, pauses, clear, flush, subscribe, has_sub, unsubscribe, Call, publishes,
  sets_music, resets, timer_fires, publishes_status, clears, flushes, subscribes, unsubscribes,
  receives, step, run,
}
use pi_live_captions.Caption.Hub.Publish.{
  append_segment, stays_open, close_locked, emit, trim_held, hold, publish, max_utterance_chars,
}

-- An open line is unfinished and short.
abbrev pub IsOpen : Text → Type 0
IsOpen c = (c ≡ []) ⊎ ((ends_sentence c ≡ false) × (byte_len c < max_utterance_chars))

pub record IsValid (h : Hub) : Type 0 where
  pub open_line : IsOpen h.committed
  pub held_in_music : h.music ≡ false → h.held ≡ []
  pub timer_in_music : (k : ℕ) → h.music_timer ≡ some k → h.music ≡ true
  pub timer_current : (k : ℕ) → h.music_timer ≡ some k → k ≡ h.music_token
  pub mirrored : h.last_music ≡ h.music

new_hub-IsValid : (on_final on_marker : Bool) → IsValid (new_hub on_final on_marker)
unfolding new_hub
new_hub-IsValid on_final on_marker = record {
  open_line = inl refl;
  held_in_music = λ m. refl;
  timer_in_music = λ k e. cc;
  timer_current = λ k e. cc;
  mirrored = refl;
}

close-IsOpen : (broke : Bool) (c : Text) → IsOpen (if stays_open broke c then c else [])
unfolding stays_open
close-IsOpen broke [] = inl refl
close-IsOpen broke (x ∷ c) = ground arith

emit-IsValid :
    (h : Hub) (now : ℤ) (t : Transcript) (text : Text) → IsValid h → IsValid (emit h now t text)
unfolding emit broadcast new_event append_segment close_line close_locked
emit-IsValid h now t text v = record {
  open_line = close-IsOpen false _;
  held_in_music = v.held_in_music;
  timer_in_music = v.timer_in_music;
  timer_current = v.timer_current;
  mirrored = v.mirrored;
}

hold-IsValid : (h : Hub) (t : Transcript) → h.music ≡ true → IsValid h → IsValid (hold h t)
unfolding hold trim_held
hold-IsValid h t m v = record {
  open_line = v.open_line;
  held_in_music = λ n. cc;
  timer_in_music = v.timer_in_music;
  timer_current = v.timer_current;
  mirrored = v.mirrored;
}

publish-IsValid : (h : Hub) (now : ℤ) (t : Transcript) → IsValid h → IsValid (publish h now t)
publish-IsValid h now t v =
    publish_cases IsValid h now t v (λ m. hold-IsValid h t m v)
      (λ t' m c. emit-IsValid h now t' (trim_space (text_of t')) v)

keep_after-nil :
    (b : Bool) (ts : List Transcript) (at : Duration)
    → ts ≡ []
    → (if b then ts else keep_after ts at) ≡ []
unfolding keep_after
keep_after-nil true ts at e = e
keep_after-nil false ts at e = rw e

trim_held-IsValid :
    (h : Hub) (at : Duration) → IsValid h → IsValid (trim_held (record h { newest_media = at }))
unfolding trim_held
trim_held-IsValid h at v = record {
  open_line = v.open_line;
  held_in_music = λ m. keep_after-nil _ h.held _ (v.held_in_music m);
  timer_in_music = v.timer_in_music;
  timer_current = v.timer_current;
  mirrored = v.mirrored;
}

cancelled-IsValid : (h : Hub) → IsValid h → IsValid (record (cancel_music_end h) { held = [] })
unfolding cancel_music_end
cancelled-IsValid h v = record {
  open_line = v.open_line;
  held_in_music = λ m. refl;
  timer_in_music = λ k e. cc;
  timer_current = λ k e. cc;
  mirrored = v.mirrored;
}

start_music-IsValid :
    (h : Hub) (now : ℤ) (at : Duration)
    → h.music ≡ false
    → IsValid h
    → IsValid (start_music h now at)
unfolding start_music broadcast new_event close_line close_locked mark
start_music-IsValid h now at m v = record {
  open_line = close-IsOpen true h.committed;
  held_in_music = λ n. cc;
  timer_in_music = λ k e. refl;
  timer_current = v.timer_current;
  mirrored = refl;
}

end_music-IsValid : (h : Hub) (at : Duration) → IsValid h → IsValid (end_music h at)
end_music-IsValid h at v = end_music_cases IsValid h at v λ m n. record {
  open_line = v.open_line;
  held_in_music = v.held_in_music;
  timer_in_music = λ k e. m;
  timer_current = λ k e. cc;
  mirrored = v.mirrored;
}

set_music-IsValid :
    (h : Hub) (now : ℤ) (active : Bool) (at : Duration)
    → IsValid h
    → IsValid (set_music h now active at)
set_music-IsValid h now active at v =
    let g = trim_held (record h { newest_media = max_ℤ h.newest_media at }) in
    let w : IsValid g = trim_held-IsValid h (max_ℤ h.newest_media at) v in
    set_music_cases IsValid h now active at
      (λ m. resume_music_cases IsValid g w (cancelled-IsValid g w))
      (λ m. start_music-IsValid g now at m w) (end_music-IsValid g at w)

reset_connection-IsValid : (h : Hub) (now : ℤ) → IsValid h → IsValid (reset_connection h now)
unfolding reset_connection cancel_music_end broadcast new_event
reset_connection-IsValid h now v =
    if_cases IsValid h.music
      (λ m. record {
        open_line = v.open_line;
        held_in_music = λ m. refl;
        timer_in_music = λ k e. cc;
        timer_current = λ k e. cc;
        mirrored = refl;
      })
      (λ m. record {
        open_line = v.open_line;
        held_in_music = λ m. refl;
        timer_in_music = λ k e. cc;
        timer_current = λ k e. cc;
        mirrored = v.mirrored;
      })

release_music-IsValid :
    (h : Hub) (now : ℤ) (token : ℕ) → IsValid h → IsValid (release_music h now token)
unfolding release_held broadcast new_event
release_music-IsValid h now token v = release_music_cases IsValid h now token v λ m.
    replay_induction IsValid now h.held (λ g t. publish-IsValid g now t) _
      (record {
        open_line = v.open_line;
        held_in_music = λ m. refl;
        timer_in_music = λ k e. cc;
        timer_current = λ k e. cc;
        mirrored = refl;
      })

closed-IsValid :
    (h h' : Hub)
    → IsOpen h'.committed
    → (h'.music ≡ h.music)
      × (h'.music_timer ≡ h.music_timer)
      × (h'.music_token ≡ h.music_token)
      × (h'.last_music ≡ h.last_music)
    → ((h'.held ≡ h.held) ⊎ (h'.held ≡ []))
    → IsValid h
    → IsValid h'
closed-IsValid h h' o (m, t, k, l) d v = record {
  open_line = o;
  held_in_music = λ n. elim d [ inl e ↦ e ∙ v.held_in_music (sym m ∙ n) | inr e ↦ e ];
  timer_in_music = λ j e. m ∙ v.timer_in_music j (sym t ∙ e);
  timer_current = λ j e. v.timer_current j (sym t ∙ e) ∙ sym k;
  mirrored = l ∙ v.mirrored ∙ sym m;
}

publish_status-IsValid :
    (h : Hub) (now : ℤ) (state : Text) → IsValid h → IsValid (publish_status h now state)
unfolding publish_status broadcast new_event close_line close_locked mark
publish_status-IsValid h now state v =
    if_cases IsValid (pauses h state)
      (λ p.
        closed-IsValid h _ (close-IsOpen true h.committed) (refl, refl, refl, refl) (inl refl) v)
      (λ p. closed-IsValid h _ v.open_line (refl, refl, refl, refl) (inl refl) v)

clear-IsValid : (h : Hub) (now : ℤ) → IsValid h → IsValid (clear h now)
unfolding clear broadcast new_event close_line close_locked
clear-IsValid h now v =
    closed-IsValid h _ (close-IsOpen true h.committed) (refl, refl, refl, refl) (inr refl) v

flush-IsValid : (h : Hub) (now : ℤ) → IsValid h → IsValid (flush h now)
unfolding flush close_line close_locked
flush-IsValid h now v =
    closed-IsValid (record (cancel_music_end h) { held = [] }) _ (close-IsOpen true _)
      (refl, refl, refl, refl) (inr refl) (cancelled-IsValid h v)

-- Every call keeps this.
step-IsValid : (h : Hub) (c : ℤ × Call) → IsValid h → IsValid (step h c)
unfolding step subscribe unsubscribe new_event
step-IsValid h (now, publishes t) v = publish-IsValid h now t v
step-IsValid h (now, sets_music active at) v = set_music-IsValid h now active at v
step-IsValid h (now, resets) v = reset_connection-IsValid h now v
step-IsValid h (now, timer_fires token) v = release_music-IsValid h now token v
step-IsValid h (now, publishes_status state) v = publish_status-IsValid h now state v
step-IsValid h (now, clears) v = clear-IsValid h now v
step-IsValid h (now, flushes) v = flush-IsValid h now v
step-IsValid h (now, subscribes) v =
    closed-IsValid h _ v.open_line (refl, refl, refl, refl) (inl refl) v
step-IsValid h (now, unsubscribes id) v =
    if_cases IsValid (has_sub id h.subs)
      (λ e. closed-IsValid h _ v.open_line (refl, refl, refl, refl) (inl refl) v) (λ e. v)
step-IsValid h (now, receives id) v =
    closed-IsValid h _ v.open_line (refl, refl, refl, refl) (inl refl) v

run-IsValid : (h : Hub) (cs : List (ℤ × Call)) → IsValid h → IsValid (run h cs)
unfolding run
run-IsValid h [] v = v
run-IsValid h (c ∷ cs) v = run-IsValid (step h c) cs (step-IsValid h c v)

-- After any calls on a new hub the open line is unfinished and short, segments are held only while
-- music plays, and an end of music is timed only while music plays and under the current token;
-- `last_music` is `music`.
pub run-new_hub-IsValid :
    (on_final on_marker : Bool) (cs : List (ℤ × Call))
    → IsValid (run (new_hub on_final on_marker) cs)
run-new_hub-IsValid on_final on_marker cs =
    run-IsValid (new_hub on_final on_marker) cs (new_hub-IsValid on_final on_marker)
