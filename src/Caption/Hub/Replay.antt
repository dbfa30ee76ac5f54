-- ===== src/Caption/Hub/Replay.antt =====
-- What the end of a song releases.
use pi_live_captions.Base.{
  List, [], ◌∷◌, Bool, true, false, Option, none, some, ◌≡◌, refl, sym, ap, ◌∙◌, subst, ℤ, pos,
  ◌-ℤ◌, ◌≤ℤ◌, leb_ℤ, max_ℤ, if◌then◌else◌, if_cases, arith, ltb_ℤ,
}
use pi_live_captions.Audio.Format.{Duration}
use pi_live_captions.Stt.Transcript.{Transcript}
use pi_live_captions.Caption.Cutoff.{after_music, keep_after}
use pi_live_captions.Caption.Cutoff.Twice.{cut_again, after_music_twice}
use pi_live_captions.Caption.Hub.State.{Hub, broadcast, new_event, close_line}
use pi_live_captions.Caption.Hub.Publish.{
  music_replay_window, close_locked, append_segment, emit, hold, trim_held, publish,
}
use pi_live_captions.Caption.Hub.Music.{replay_cut, replay, release_held}
use pi_live_captions.Caption.Hub.Cases.{publish_cases}

publish-confirmed_cutoff :
    (h : Hub) (now : ℤ) (t : Transcript) → (publish h now t).confirmed_cutoff ≡ h.confirmed_cutoff
unfolding hold trim_held emit broadcast new_event append_segment close_line close_locked
publish-confirmed_cutoff h now t =
    publish_cases (λ g. g.confirmed_cutoff ≡ h.confirmed_cutoff) h now t refl (λ m. refl)
      (λ t' m c. refl)

replay_cut-confirmed_cutoff :
    (h : Hub) (now : ℤ) (o : Option Transcript)
    → (replay_cut h now o).confirmed_cutoff ≡ h.confirmed_cutoff
unfolding replay_cut
replay_cut-confirmed_cutoff h now none = refl
replay_cut-confirmed_cutoff h now (some t) = publish-confirmed_cutoff h now t

replay-cut_again :
    (h : Hub) (now : ℤ) (ts rest : List Transcript) (o c : Option Transcript)
    → ((g : Hub) → g.confirmed_cutoff ≡ h.confirmed_cutoff → replay g now rest ≡ replay g now ts)
    → cut_again o h.confirmed_cutoff ≡ c
    → replay h now (elim o [ none ↦ rest | some t' ↦ t' ∷ rest ])
      ≡ replay (replay_cut h now c) now ts
unfolding replay replay_cut
replay-cut_again h now ts rest none c ih e =
    subst (λ o. replay h now rest ≡ replay (replay_cut h now o) now ts) e (ih h refl)
replay-cut_again h now ts rest (some t) c ih e =
    ih (replay_cut h now (after_music t h.confirmed_cutoff))
      (replay_cut-confirmed_cutoff h now (after_music t h.confirmed_cutoff))
    ∙ ap (λ o. replay (replay_cut h now o) now ts) e

-- Segments that were cut early, at or before the cutoff, are replayed as if they had not been.
replay-keep_after :
    (h : Hub) (now : ℤ) (ts : List Transcript) (a : Duration)
    → a ≤ℤ h.confirmed_cutoff
    → replay h now (keep_after ts a) ≡ replay h now ts
unfolding replay keep_after
replay-keep_after h now [] a le = refl
replay-keep_after h now (t ∷ ts) a le =
    replay-cut_again h now ts (keep_after ts a) (after_music t a) (after_music t h.confirmed_cutoff)
      (λ g e. replay-keep_after g now ts a (subst (λ (c : Duration). a ≤ℤ c) (sym e) le))
      (after_music_twice t a h.confirmed_cutoff le)

replay-trimmed :
    (h : Hub) (now : ℤ) (ts : List Transcript) (a : Duration) (b : Bool)
    → a ≤ℤ h.confirmed_cutoff
    → replay h now (if b then ts else keep_after ts a) ≡ replay h now ts
replay-trimmed h now ts a true le = refl
replay-trimmed h now ts a false le = replay-keep_after h now ts a le

le-max_ℤ_right : (a b : ℤ) → b ≤ℤ max_ℤ a b
le-max_ℤ_right a b = if_cases (λ m. b ≤ℤ m) (ltb_ℤ a b) (λ e. omega arith) (λ e. ground arith)

-- Trimming what is held never changes what the end of the song releases: the release of the
-- trimmed hub is the release of the hub, in every field.
pub release_held-trim_held :
    (h : Hub) (now : ℤ) → release_held (trim_held h) now ≡ release_held h now
unfolding release_held trim_held broadcast new_event
release_held-trim_held h now =
    replay-trimmed _ now h.held (h.newest_media -ℤ music_replay_window)
      (leb_ℤ (h.newest_media -ℤ music_replay_window) (pos 0))
      (le-max_ℤ_right h.pending_end (h.newest_media -ℤ music_replay_window))
