-- ===== src/Caption/Tests.antt =====
-- The theorems on internal/caption at concrete inputs.
use pi_live_captions.Base.{
  ℕ, List, [], ◌∷◌, true, false, none, ◌≡◌, refl, ℤ, pos, Text, codes, byte_len, trim_space, ◌-ℤ◌,
  ◌+ℤ◌, quot_ℤ,
}
use pi_live_captions.Stt.Transcript.{Word, Transcript}
use pi_live_captions.Caption.Event.{join_text, wire_words, wire_word, ends_sentence}
use pi_live_captions.Caption.Cutoff.{after_music, with_words, keep_after}
use pi_live_captions.Caption.Hub.State.{
  Hub, new_hub, new_event, deliver, broadcast, close_line, mark,
}
use pi_live_captions.Caption.Hub.Publish.{
  is_break, stays_open, close_locked, speaker_changed, append_segment, emit, trim_held, hold,
  publish,
}
use pi_live_captions.Caption.Hub.Music.{
  bump_token, start_music, end_music, set_music, release_held, replay, replay_cut, release_music,
}
use pi_live_captions.Caption.Hub.Operations.{
  Call, publishes, sets_music, timer_fires, subscribes, flushes, subscribe, step, run,
}
use pi_live_captions.Caption.Hub.Painted.{written, painted}
use pi_live_captions.Caption.Hub.Record.{run_written-painted}
use pi_live_captions.Caption.Hub.Suppression.{IsValid, run-new_hub-IsValid}
use pi_live_captions.Caption.Hub.Delivery.{IsDelivering, run-new_hub-IsDelivering}
use pi_live_captions.Caption.Hub.Quiet.{IsQuiet, run-IsQuiet}
use pi_live_captions.Caption.Hub.Replay.{release_held-trim_held}

abbrev spoken : Text → ℕ → ℕ → Word
spoken text start end = record { text = text; start = pos start; end = pos end }

abbrev segment : List Word → ℕ → ℕ → Transcript
segment words start duration = record {
  words = words;
  speaker = 1;
  start = pos start;
  duration = pos duration;
  received_at = none;
  captured_at = none;
  sent_at = none;
}

abbrev hello : Transcript
hello = segment (spoken (codes "Hello") 0 400 ∷ spoken (codes "there.") 500 900 ∷ []) 0 900

abbrev la_la : Transcript
la_la = segment (spoken (codes "la") 3000 3100 ∷ spoken (codes "Welcome") 6000 6400 ∷ []) 3000 3400

-- A sentence, a song with its first spoken word after it, and the end of the song.
abbrev service : List (ℤ × Call)
service =
    (pos 0, subscribes)
    ∷ (pos 1, publishes hello)
    ∷ (pos 2, sets_music true (pos 2000))
    ∷ (pos 3, publishes la_la)
    ∷ (pos 4, sets_music false (pos 5000))
    ∷ (pos 5, timer_fires 1)
    ∷ []

service_paints : painted (run (new_hub true true) service).out ≡ codes "Hello there. Welcome"
unfolding run step new_hub subscribe new_event publish trim_space emit is_break close_locked
    stays_open ends_sentence byte_len speaker_changed append_segment wire_words wire_word broadcast
    deliver close_line mark set_music trim_held start_music end_music bump_token hold release_music
    release_held replay replay_cut after_music with_words keep_after ◌-ℤ◌ ◌+ℤ◌ quot_ℤ
service_paints = refl

run_written-painted_example :
    let h = run (new_hub true true) service in join_text (written h.out) h.committed ≡ painted h.out
run_written-painted_example = run_written-painted true service

run-new_hub-IsValid_example : IsValid (run (new_hub true true) service)
run-new_hub-IsValid_example = run-new_hub-IsValid true true service

run-new_hub-IsDelivering_example : IsDelivering (run (new_hub true true) service)
run-new_hub-IsDelivering_example = run-new_hub-IsDelivering true true service

abbrev singing : Hub
singing = run (new_hub true true) ((pos 2, sets_music true (pos 2000)) ∷ [])

abbrev during : List (ℤ × Call)
during = (pos 3, publishes la_la) ∷ (pos 4, sets_music false (pos 5000)) ∷ (pos 5, flushes) ∷ []

singing_plays : singing.music ≡ true
unfolding run step set_music trim_held start_music new_hub mark close_line broadcast new_event
    close_locked
singing_plays = refl

run-IsQuiet_example : IsQuiet (painted singing.out) (run singing during)
run-IsQuiet_example = run-IsQuiet singing during singing_plays (refl, (refl, (refl, tt)))

release_held-trim_held_example :
    release_held (trim_held singing) (pos 9) ≡ release_held singing (pos 9)
release_held-trim_held_example = release_held-trim_held singing (pos 9)
