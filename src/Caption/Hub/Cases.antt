-- ===== src/Caption/Hub/Cases.antt =====
-- The branches of the hub's operations, as one case rule for each: a property of the results holds
-- if it holds of the result on every branch.
use pi_live_captions.Base.{
  ℕ, List, [], ◌∷◌, Bool, true, false, Option, none, some, ◌≡◌, ℤ, max_ℤ, is_empty, trim_space,
  ◌==◌, if_cases, option_cases,
}
use pi_live_captions.Audio.Format.{Duration}
use pi_live_captions.Stt.Transcript.{Transcript, text_of}
use pi_live_captions.Caption.Cutoff.{after_music}
use pi_live_captions.Caption.Hub.State.{Hub}
use pi_live_captions.Caption.Hub.Publish.{emit, hold, trim_held, publish}
use pi_live_captions.Caption.Hub.Music.{
  cancel_music_end, start_music, resume_music, end_music, bump_token, set_music, replay_cut, replay,
  release_held, release_music,
}

module _ {ℓ} (P : Hub → Type ℓ) where
  pub publish_cases :
      (h : Hub) (now : ℤ) (t : Transcript)
      → P h
      → (h.music ≡ true → P (hold h t))
      → ((t' : Transcript)
          → h.music ≡ false
          → (h.cutoff_set ≡ true → after_music t h.confirmed_cutoff ≡ some t')
          → P (emit h now t' (trim_space (text_of t'))))
      → P (publish h now t)
  unfolding publish
  publish_cases h now t same held emitted =
      if_cases P (is_empty (trim_space (text_of t))) (λ e. same)
        λ e. if_cases P h.music held λ m.
          if_cases P h.cutoff_set
            (λ c.
              option_cases P (after_music t h.confirmed_cutoff) (λ n. same)
                λ t' cut. emitted t' m (λ _. cut))
            (λ c. emitted t m (λ c'. cc))

  pub set_music_cases :
      (h : Hub) (now : ℤ) (active : Bool) (at : Duration)
      → let h₁ = trim_held (record h { newest_media = max_ℤ h.newest_media at }) in
        (h₁.music ≡ true → P (resume_music h₁))
        → (h₁.music ≡ false → P (start_music h₁ now at))
        → P (end_music h₁ at)
        → P (set_music h now active at)
  unfolding set_music
  set_music_cases h now active at resumed started ended =
      if_cases P active
        (λ a.
          if_cases P (trim_held (record h { newest_media = max_ℤ h.newest_media at })).music resumed
            started)
        (λ a. ended)

  pub resume_music_cases :
      (h : Hub) → P h → P (record (cancel_music_end h) { held = [] }) → P (resume_music h)
  unfolding resume_music
  resume_music_cases h same cancelled = option_cases P h.music_timer (λ e. same) (λ k e. cancelled)

  pub end_music_cases :
      (h : Hub) (at : Duration)
      → P h
      → (h.music ≡ true
          → h.music_timer ≡ none
          → P (record h {
            pending_end = at;
            music_token = bump_token h.music_token;
            music_timer = some (bump_token h.music_token);
          }))
      → P (end_music h at)
  unfolding end_music
  end_music_cases h at same armed =
      if_cases P h.music (λ m. option_cases P h.music_timer (armed m) (λ k e. same)) (λ m. same)

  pub release_music_cases :
      (h : Hub) (now : ℤ) (token : ℕ)
      → P h
      → (h.music ≡ true → P (release_held h now))
      → P (release_music h now token)
  unfolding release_music
  release_music_cases h now token same released =
      option_cases P h.music_timer (λ e. same)
        λ k e.
          if_cases P (h.music_token == token) (λ c. if_cases P h.music released (λ m. same))
            (λ c. same)

  replay_cut_cases :
      (h : Hub) (now : ℤ) (o : Option Transcript)
      → P h
      → ((t : Transcript) → P (publish h now t))
      → P (replay_cut h now o)
  unfolding replay_cut
  replay_cut_cases h now none p step = p
  replay_cut_cases h now (some t) p step = step t

  pub replay_induction :
      (now : ℤ) (ts : List Transcript)
      → ((h : Hub) (t : Transcript) → P h → P (publish h now t))
      → (h : Hub) → P h
      → P (replay h now ts)
  unfolding replay
  replay_induction now [] step h p = p
  replay_induction now (t ∷ ts) step h p =
      replay_induction now ts step _
        (replay_cut_cases h now (after_music t h.confirmed_cutoff) p (λ t'. step h t' p))
