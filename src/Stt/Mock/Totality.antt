-- ===== src/Stt/Mock/Totality.antt =====
-- Every run of the mock engine returns, and says its script in order.
use pi_live_captions.Base.{ℕ, List, true, Option, some, ◌≡◌, ℤ, if◌then◌else◌}
use pi_live_captions.Audio.Format.{Frame}
use pi_live_captions.Metrics.State.{Metrics}
use pi_live_captions.Stt.Transcript.{Transcript}
use pi_live_captions.Stt.Mock.Script.{PhraseState, Step}
use pi_live_captions.Stt.Mock.Engine.{Feed, MockRun, consume_all}
use pi_live_captions.Stt.Mock.Order.{Told, Follows, Fares}

-- A step returns, and fares well.
Returns : PhraseState → List Transcript → Frame → ℤ → Option Step → Type 0
Returns p ts f received o = (r : Step) × (o ≡ some r) × Fares ts f received r

-- What is heard is in order, and while the loop goes on its state follows it.
abbrev pub IsTelling : {F : Type 0} → MockRun F → Type 0
IsTelling r =
    ((i : ℕ) × (j : ℕ) × Told r.heard i j) × (r.going ≡ true → Follows r.phrase_state r.heard)

module _ {F : Type 0} where
  onward : List Feed → MockRun F → Option (MockRun F)
  onward feeds q = let rest = consume_all q feeds in if q.going then rest else some q
