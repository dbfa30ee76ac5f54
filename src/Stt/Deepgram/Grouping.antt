-- ===== src/Stt/Deepgram/Grouping.antt =====
-- The grouping of a message's words by speaker.
use pi_live_captions.Base.{
  ℕ, suc, List, [], ◌∷◌, ◌++◌, append_assoc, append-nil, true, false, ◌≡◌, refl, ◌∙◌, ◌==◌, All,
  All-append, arith, Bool-cases, inl, inr,
}
use pi_live_captions.Audio.Float.{Float64}
use pi_live_captions.Stt.Transcript.{Transcript}
use pi_live_captions.Stt.Runs.{
  concat, AreRuns, concat-runs, runs-AreRuns, runs, runs_other, runs_one,
}
use pi_live_captions.Stt.Deepgram.{SpokenWord, of_run, flush_run, add_word, group, group_words}

module _ (fl : Float64) where
  open fl use {F}

  abbrev pub speaker_of : SpokenWord F → ℕ
  speaker_of w = w.speaker

  abbrev pub of_runs : List (List (SpokenWord F)) → List Transcript
  of_runs [] = []
  of_runs ([] ∷ rs) = of_runs rs
  of_runs ((w ∷ ws) ∷ rs) = of_run fl w ws ∷ of_runs rs

  add_word_same :
      (ts : List Transcript) (run : List (SpokenWord F)) (s i : ℕ) (w : SpokenWord F)
      → (w.speaker == s) ≡ true
      → add_word fl (record { ts = ts; run = run; speaker = s }) (suc i) w
        ≡ record { ts = ts; run = run ++ w ∷ []; speaker = w.speaker }
  unfolding add_word
  add_word_same ts run s i w e = ground arith

  add_word_other :
      (ts : List Transcript) (run : List (SpokenWord F)) (s i : ℕ) (w : SpokenWord F)
      → (w.speaker == s) ≡ false
      → add_word fl (record { ts = ts; run = run; speaker = s }) (suc i) w
        ≡ record { ts = flush_run fl ts run; run = w ∷ []; speaker = w.speaker }
  unfolding add_word
  add_word_other ts run s i w e = ground arith

  -- The loop with a run of one speaker in progress.
  group-runs :
      (ts : List Transcript) (first : SpokenWord F) (rest : List (SpokenWord F)) (s i : ℕ)
      (ws : List (SpokenWord F))
      → first.speaker ≡ s
      → All (λ (w : SpokenWord F). w.speaker ≡ first.speaker) rest
      → group fl (record { ts = ts; run = first ∷ rest; speaker = s }) (suc i) ws
        ≡ ts ++ of_runs (runs speaker_of (first ∷ rest ++ ws))
  unfolding group flush_run
  group-runs ts first rest s i [] e a = rw (append-nil rest, runs_one speaker_of first rest a) refl
  group-runs ts first rest s i (w ∷ ws) e a = elim (Bool-cases (w.speaker == s)) [
    | inl same ↦ rw (add_word_same ts (first ∷ rest) s i w same) (
        group-runs ts first (rest ++ w ∷ []) w.speaker (suc i) ws (ground arith)
          (All-append _ rest (w ∷ []) a (ground arith, tt))
        ∙ rw (append_assoc rest (w ∷ []) ws) refl)
    | inr other ↦ rw (add_word_other ts (first ∷ rest) s i w other) (
        group-runs (flush_run fl ts (first ∷ rest)) w [] w.speaker (suc i) ws refl tt
        ∙ rw (runs_other speaker_of first rest w ws a (ground arith))
            (append_assoc ts (of_run fl first rest ∷ []) (of_runs (runs speaker_of (w ∷ ws)))))
  ]

  group_words-runs : (ws : List (SpokenWord F)) → group_words fl ws ≡ of_runs (runs speaker_of ws)
  unfolding group_words group flush_run add_word runs
  group_words-runs [] = refl
  group_words-runs (w ∷ ws) = group-runs [] w [] w.speaker 0 ws refl tt

  -- The words of a message are cut into runs, in their order and with none left out: no run is
  -- empty, each is of one speaker, and the next is of another. One segment is published for each
  -- run, in order.
  pub group_words-AreRuns :
      (ws : List (SpokenWord F))
      → (rs : List (List (SpokenWord F))) × (group_words fl ws ≡ of_runs rs)
        × (concat rs ≡ ws)
        × AreRuns speaker_of rs
  group_words-AreRuns ws = (
    runs speaker_of ws,
    group_words-runs ws,
    concat-runs speaker_of ws,
    runs-AreRuns speaker_of ws,
  )
