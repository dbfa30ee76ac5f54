-- ===== src/Audio/NoiseGate/Contract.antt =====
-- What the noise gate makes of the frames, and the edges that it reports.
use pi_live_captions.Base.{
  ℕ, suc, List, [], ◌∷◌, Bool, true, false, not, none, some, ◌≡◌, refl, ap, ℤ, length,
  if◌then◌else◌,
}
use pi_live_captions.Audio.Float.{Float64}
use pi_live_captions.Audio.Format.{Frame}
use pi_live_captions.Audio.Level.{rms_dbfs}
use pi_live_captions.Audio.NoiseGate.{
  NoiseGate, Edge, zeros, gated, differs, edge_of, decide, record_levels, process, process_all,
}

-- The frame `f'` is `f` through a gate that is open or not: its PCM is the source's, or silence of
-- the same length, and it is the same frame otherwise.
pub record IsGated (f f' : Frame) : Type 0 where
  pub marked : f'.noise_gated ≡ true
  pub pcm : f'.pcm ≡ (if f'.noise_gate_open then f.pcm else zeros f.pcm)
  pub same_length : length f'.pcm ≡ length f.pcm
  pub offset : f'.offset ≡ f.offset
  pub captured_at : f'.captured_at ≡ f.captured_at

-- The frames up to the first that is not taken.
abbrev pub passed : List (Frame × ℤ × Bool) → List Frame
passed [] = []
passed ((f, now, true) ∷ fs) = f ∷ passed fs
passed ((f, now, false) ∷ fs) = []

abbrev pub AreGated : List Frame → List Frame → Type 0
AreGated [] [] = Unit
AreGated [] (f' ∷ fs') = ⊥
AreGated (f ∷ fs) [] = ⊥
AreGated (f ∷ fs) (f' ∷ fs') = IsGated f f' × AreGated fs fs'

-- Edges that take a gate from one state to another, each turning the state over.
pub data Alternates {F : Type 0} : Bool → List (Edge F) → Bool → Type 0 where
  rests : (b : Bool) → Alternates b [] b
  turns :
      (b b' : Bool) (e : Edge F) (es : List (Edge F))
      → e.opened ≡ not b
      → Alternates (not b) es b'
      → Alternates b (e ∷ es) b'

length-zeros : (pcm : List ℕ) → length (zeros pcm) ≡ length pcm
length-zeros [] = refl
length-zeros (b ∷ bs) = ap suc (length-zeros bs)

gated-IsGated : (o : Bool) (f : Frame) → IsGated f (gated o f)
gated-IsGated true f = record {
  marked = refl;
  pcm = refl;
  same_length = refl;
  offset = refl;
  captured_at = refl;
}
gated-IsGated false f = record {
  marked = refl;
  pcm = refl;
  same_length = length-zeros f.pcm;
  offset = refl;
  captured_at = refl;
}

edge_cases :
    {F : Type 0} (o o' b : Bool) (e : Edge F) (es : List (Edge F))
    → e.opened ≡ o'
    → Alternates o' es b
    → Alternates o
        (elim (if differs o' o then some e else none) [ none ↦ es | some e' ↦ e' ∷ es ])
        b
edge_cases true true b e es h a = a
edge_cases true false b e es h a = Alternates.turns true b e es h a
edge_cases false true b e es h a = Alternates.turns false b e es h a
edge_cases false false b e es h a = a

module _ (fl : Float64) where
  open fl use {F}

  -- One frame's edge, before the edges of the rest.
  edge-Alternates :
      (g g' : NoiseGate F) (f : Frame) (now : ℤ) (es : List (Edge F)) (b : Bool)
      → Alternates g'.open_now es b
      → Alternates g.open_now (elim (edge_of fl g g' f now) [ none ↦ es | some e ↦ e ∷ es ]) b
  unfolding edge_of
  edge-Alternates g g' f now es b a = edge_cases g.open_now g'.open_now b _ es refl a

  -- What comes out, and the edges reported; for every gate, every setting and every clock.
  pub process_all_lem :
      (g : NoiseGate F) (fs : List (Frame × ℤ × Bool))
      → AreGated (passed fs) (process_all fl g fs).1
        × Alternates g.open_now (process_all fl g fs).2 (process_all fl g fs).0.open_now
  unfolding process_all process
  process_all_lem g [] = (tt, Alternates.rests g.open_now)
  process_all_lem g ((f, now, true) ∷ fs) =
      let g' = decide fl (record_levels fl g f now) (rms_dbfs fl f.pcm) f.offset in
      let rest = process_all_lem g' fs in
      ((gated-IsGated g'.open_now f, rest.0), edge-Alternates g g' f now _ _ rest.1)
  process_all_lem g ((f, now, false) ∷ fs) =
      let g' = decide fl (record_levels fl g f now) (rms_dbfs fl f.pcm) f.offset in
      (tt, edge-Alternates g g' f now [] _ (Alternates.rests g'.open_now))
