-- ===== src/Caption/Hub/Record.antt =====
-- What is written is what was painted: the closed lines and the open one, joined, are the caption
-- events of the wire, joined.
use pi_live_captions.Base.{ℕ, List, [], ◌∷◌, Bool, true, ◌≡◌, refl, ℤ, Text, trim_space, if_cases}
use pi_live_captions.Audio.Format.{Duration}
use pi_live_captions.Stt.Transcript.{Transcript, text_of}
use pi_live_captions.Caption.Event.{join_text}
use pi_live_captions.Caption.Hub.State.{Hub, new_hub, new_event, broadcast, close_line, mark}
use pi_live_captions.Caption.Hub.Cases.{
  publish_cases, set_music_cases, resume_music_cases, end_music_cases, release_music_cases,
  replay_induction,
}
use pi_live_captions.Caption.Hub.Music.{
  cancel_music_end, start_music, set_music, release_held, release_music, reset_connection,
}
use pi_live_captions.Caption.Hub.Operations.{
  publish_status, pauses, clear, flush, subscribe, has_sub, unsubscribe, Call, publishes,
  sets_music, resets, timer_fires, publishes_status, clears, flushes, subscribes, unsubscribes,
  receives, step, run,
}
use pi_live_captions.Caption.Hub.Publish.{
  append_segment, close_locked, emit, trim_held, hold, publish,
}
use pi_live_captions.Caption.Hub.Painted.{
  painted, written, Agrees, line_text-stays, emit-Agrees, agree_final, agree_event, agree_marker,
}

-- OnFinal is set and the record agrees with the screens.
pub record IsFaithful (h : Hub) : Type 0 where
  pub on : h.on_final ≡ true
  pub agrees : Agrees h.out h.committed

pub new_hub-IsFaithful : (on_marker : Bool) → IsFaithful (new_hub true on_marker)
unfolding new_hub
new_hub-IsFaithful on_marker = record { on = refl; agrees = record { equal = refl } }

emit-IsFaithful :
    (h : Hub) (now : ℤ) (t : Transcript)
    → IsFaithful h
    → IsFaithful (emit h now t (trim_space (text_of t)))
unfolding emit broadcast new_event append_segment close_line close_locked
emit-IsFaithful h now t v = record {
  on = v.on;
  agrees = emit-Agrees h now t (trim_space (text_of t)) v.on refl v.agrees;
}

pub publish-IsFaithful :
    (h : Hub) (now : ℤ) (t : Transcript) → IsFaithful h → IsFaithful (publish h now t)
unfolding hold trim_held
publish-IsFaithful h now t v =
    publish_cases IsFaithful h now t v (λ m. record { on = v.on; agrees = v.agrees })
      (λ t' m c. emit-IsFaithful h now t' v)

set_music-IsFaithful :
    (h : Hub) (now : ℤ) (active : Bool) (at : Duration)
    → IsFaithful h
    → IsFaithful (set_music h now active at)
unfolding trim_held start_music cancel_music_end broadcast new_event close_line close_locked mark
set_music-IsFaithful h now active at v =
    set_music_cases IsFaithful h now active at
      (λ m.
        resume_music_cases IsFaithful _ (record { on = v.on; agrees = v.agrees })
          (record { on = v.on; agrees = v.agrees }))
      (λ m. record {
        on = v.on;
        agrees = agree_marker h.on_marker _ _ _ (
            agree_final h.on_final _ _ h.committed _ v.on (line_text-stays _ _)
              (agree_event h.out _ h.committed refl v.agrees));
      })
      (end_music_cases IsFaithful _ at (record { on = v.on; agrees = v.agrees })
        (λ m n. record { on = v.on; agrees = v.agrees }))

reset_connection-IsFaithful :
    (h : Hub) (now : ℤ) → IsFaithful h → IsFaithful (reset_connection h now)
unfolding reset_connection cancel_music_end broadcast new_event
reset_connection-IsFaithful h now v =
    if_cases IsFaithful h.music
      (λ m. record { on = v.on; agrees = agree_event h.out _ h.committed refl v.agrees })
      (λ m. record { on = v.on; agrees = v.agrees })

release_music-IsFaithful :
    (h : Hub) (now : ℤ) (token : ℕ) → IsFaithful h → IsFaithful (release_music h now token)
unfolding release_held broadcast new_event
release_music-IsFaithful h now token v = release_music_cases IsFaithful h now token v λ m.
    replay_induction IsFaithful now h.held (λ g t. publish-IsFaithful g now t) _
      (record { on = v.on; agrees = agree_event h.out _ h.committed refl v.agrees })

clear-IsFaithful : (h : Hub) (now : ℤ) → IsFaithful h → IsFaithful (clear h now)
unfolding clear broadcast new_event close_line close_locked
clear-IsFaithful h now v = record {
  on = v.on;
  agrees =
      agree_final h.on_final _ _ h.committed _ v.on (line_text-stays _ _)
        (agree_event h.out _ h.committed refl v.agrees);
}

flush-IsFaithful : (h : Hub) (now : ℤ) → IsFaithful h → IsFaithful (flush h now)
unfolding flush cancel_music_end close_line close_locked
flush-IsFaithful h now v = record {
  on = v.on;
  agrees = agree_final h.on_final h.out _ h.committed _ v.on (line_text-stays _ _) v.agrees;
}

publish_status-IsFaithful :
    (h : Hub) (now : ℤ) (state : Text) → IsFaithful h → IsFaithful (publish_status h now state)
unfolding publish_status broadcast new_event close_line close_locked mark
publish_status-IsFaithful h now state v =
    if_cases IsFaithful (pauses h state)
      (λ p. record {
        on = v.on;
        agrees = agree_marker h.on_marker _ _ _ (
            agree_final h.on_final _ _ h.committed _ v.on (line_text-stays _ _)
              (agree_event h.out _ h.committed refl v.agrees));
      })
      (λ p. record { on = v.on; agrees = agree_event h.out _ h.committed refl v.agrees })

unsubscribe-IsFaithful : (h : Hub) (id : ℕ) → IsFaithful h → IsFaithful (unsubscribe h id)
unfolding unsubscribe
unsubscribe-IsFaithful h id v =
    if_cases IsFaithful (has_sub id h.subs) (λ e. record { on = v.on; agrees = v.agrees }) (λ e. v)

step-IsFaithful : (h : Hub) (c : ℤ × Call) → IsFaithful h → IsFaithful (step h c)
unfolding step subscribe new_event
step-IsFaithful h (now, publishes t) v = publish-IsFaithful h now t v
step-IsFaithful h (now, sets_music active at) v = set_music-IsFaithful h now active at v
step-IsFaithful h (now, resets) v = reset_connection-IsFaithful h now v
step-IsFaithful h (now, timer_fires token) v = release_music-IsFaithful h now token v
step-IsFaithful h (now, publishes_status state) v = publish_status-IsFaithful h now state v
step-IsFaithful h (now, clears) v = clear-IsFaithful h now v
step-IsFaithful h (now, flushes) v = flush-IsFaithful h now v
step-IsFaithful h (now, subscribes) v = record { on = v.on; agrees = v.agrees }
step-IsFaithful h (now, unsubscribes id) v = unsubscribe-IsFaithful h id v
step-IsFaithful h (now, receives id) v = record { on = v.on; agrees = v.agrees }

run-IsFaithful : (h : Hub) (cs : List (ℤ × Call)) → IsFaithful h → IsFaithful (run h cs)
unfolding run
run-IsFaithful h [] v = v
run-IsFaithful h (c ∷ cs) v = run-IsFaithful (step h c) cs (step-IsFaithful h c v)

-- After any calls on a new hub whose OnFinal is set, the closed lines and the open one, joined in
-- order, are the text of all the caption events that were broadcast, joined in order.
pub run_written-painted :
    (on_marker : Bool) (cs : List (ℤ × Call))
    → let h = run (new_hub true on_marker) cs in
      join_text (written h.out) h.committed ≡ painted h.out
run_written-painted on_marker cs =
    (run-IsFaithful (new_hub true on_marker) cs (new_hub-IsFaithful on_marker)).agrees.equal
