-- ===== src/Stt/Mock/Tests.antt =====
-- The mock engine at concrete inputs.
use pi_live_captions.Base.{
  List, [], ◌∷◌, Bool, true, false, some, ◌≡◌, refl, ℤ, pos, codes, is_space,
}
use pi_live_captions.Stt.Mock.Phrases.{split_comma, fields, runs_of, split_segments}
use pi_live_captions.Stt.Mock.Engine.{Feed}

abbrev feed_at : ℤ → Bool → Feed
feed_at at accepts = record {
  frame = record {
    noise_gated = false;
    noise_gate_open = false;
    pcm = 1 ∷ 2 ∷ [];
    offset = at;
    captured_at = some (pos 3);
  };
  received = pos 4;
  accepts = accepts;
}

abbrev feeds : List Feed
feeds =
    feed_at (pos 100_000_000) true
    ∷ feed_at (pos 600_000_000) true
    ∷ feed_at (pos 1_100_000_000) false
    ∷ []

cut_at_comma :
    split_segments (codes "Yes, loud, ok.") ≡ some (codes "Yes," ∷ codes "loud," ∷ codes "ok." ∷ [])
unfolding split_segments split_comma
cut_at_comma = refl

cut_in_runs : split_segments (codes "a b c d e") ≡ some (codes "a b c" ∷ codes "d e" ∷ [])
unfolding split_segments split_comma fields runs_of is_space
cut_in_runs = refl
