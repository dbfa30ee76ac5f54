-- ===== src/Stt/Speechmatics/Transcripts/Runs.antt =====
-- The segments of an AddTranscript against the runs of the words that it keeps.
use pi_live_captions.Base.{
  List, [], ◌∷◌, ◌++◌, append-nil, append_assoc, ◌≡◌, refl, ap, sym, ◌∙◌, subst, Text,
}
use pi_live_captions.Audio.Float.{Float64}
use pi_live_captions.Stt.Transcript.{Transcript}
use pi_live_captions.Stt.Runs.{
  concat, AreRuns, concat-runs, runs-AreRuns, runs, runs_other, runs_one,
}
use pi_live_captions.Stt.Speechmatics.{Item, ServerMessage}
use pi_live_captions.Stt.Speechmatics.Transcripts.{
  Builder, segment_of, flush, add_item, add_items, new_builder, of_results, transcripts,
}
use pi_live_captions.Stt.Speechmatics.Transcripts.Punctuation.{Kept}
use pi_live_captions.Stt.Speechmatics.Transcripts.Round.{
  kept_of, kept, speaker_of, IsSegment, AreSegments, InRun, IsIdle, After, Before,
  segment_of-IsSegment, flush_open, flush_closed, item-After, item-Before, IsMarkOf, IsMarkOf-Marks,
}

module _ (fl : Float64) (P : Text → Type 0) where
  open fl use {F}

  -- What the loop appends to the segments that it has, for the runs `rs`.
  record Appends (ts : List Transcript) (rs : List (List (Kept F))) (ts' : List Transcript)
      : Type 0 where
    added : List Transcript
    split : ts' ≡ ts ++ added
    segments : AreSegments fl P rs added

  Appends-nothing : (ts ts' : List Transcript) → ts' ≡ ts → Appends ts [] ts'
  Appends-nothing ts ts' e = record {
    added = [];
    split = e ∙ sym (append-nil ts);
    segments = AreSegments.none_left;
  }

  Appends-moved :
      (ts ts₁ : List Transcript) (rs : List (List (Kept F))) (ts' : List Transcript)
      → ts₁ ≡ ts
      → Appends ts₁ rs ts'
      → Appends ts rs ts'
  Appends-moved ts ts₁ rs ts' e a = record {
    added = a.added;
    split = a.split ∙ ap (λ t. t ++ a.added) e;
    segments = a.segments;
  }

  Appends-next :
      (ts ts₁ : List Transcript) (k : Kept F) (ks : List (Kept F)) (t : Transcript)
      (rs : List (List (Kept F))) (ts' : List Transcript)
      → IsSegment fl P k ks t
      → ts₁ ≡ ts ++ t ∷ []
      → Appends ts₁ rs ts'
      → Appends ts ((k ∷ ks) ∷ rs) ts'
  Appends-next ts ts₁ k ks t rs ts' s e a = record {
    added = t ∷ a.added;
    split = a.split ∙ ap (λ x. x ++ a.added) e ∙ append_assoc ts (t ∷ []) a.added;
    segments = AreSegments.next k ks t rs a.added s a.segments;
  }

  -- What the loop does of the items that are left, with a run open.
  abbrev Runs : List (Item F) → Type 0
  Runs items =
      ((t : Text) → IsMarkOf t items → P t)
      → (b : Builder F) (k : Kept F) (ks : List (Kept F)) → InRun fl P k ks b
      → Appends b.ts (runs speaker_of (k ∷ ks ++ kept items)) (flush fl (add_items fl b items)).ts

  loop_step :
      (items : List (Item F))
      → Runs items
      → ((t : Text) → IsMarkOf t items → P t)
      → (b : Builder F) (k : Kept F) (ks : List (Kept F)) (b' : Builder F) (js : List (Kept F))
      → InRun fl P k ks b
      → After fl P b k ks b' js
      → Appends b.ts
          (runs speaker_of (k ∷ ks ++ (js ++ kept items)))
          (flush fl (add_items fl b' items)).ts
  loop_step items ih h b k ks b' _ v (After.stays e v') =
      Appends-moved b.ts b'.ts _ _ e (ih h b' k ks v')
  loop_step items ih h b k ks b' _ v (After.joins j e v') = Appends-moved b.ts b'.ts _ _ e (
      subst (λ l. Appends b'.ts (runs speaker_of (k ∷ l)) (flush fl (add_items fl b' items)).ts)
        (append_assoc ks (j ∷ []) (kept items)) (ih h b' k (ks ++ j ∷ []) v'))
  loop_step items ih h b k ks b' _ v (After.ends j t d s e v') =
      rw (runs_other speaker_of k ks j (kept items) v.same d)
        (Appends-next b.ts b'.ts k ks t _ _ s e (ih h b' j [] v'))

  loop_open : (items : List (Item F)) → Runs items
  unfolding add_items add_item
  loop_open [] h b k ks v =
      rw (append-nil ks, runs_one speaker_of k ks v.same)
        (Appends-next b.ts _ k ks (segment_of fl b) [] _ (segment_of-IsSegment fl P k ks b v)
          (flush_open fl P b v.opened) (Appends-nothing _ _ refl))
  loop_open (r ∷ items) h b k ks v =
      loop_step items (loop_open items) (λ t i. h t (IsMarkOf.there r items i)) b k ks
        (add_item fl b r) (kept_of r r.alternatives) v
        (item-After fl P b k ks r r.alternatives (IsMarkOf-Marks P r items h r.alternatives refl) v)

  abbrev IdleRuns : List (Item F) → Type 0
  IdleRuns items =
      ((t : Text) → IsMarkOf t items → P t)
      → (b : Builder F) → IsIdle fl P b
      → Appends b.ts (runs speaker_of (kept items)) (flush fl (add_items fl b items)).ts

  loop_start :
      (items : List (Item F))
      → IdleRuns items
      → ((t : Text) → IsMarkOf t items → P t)
      → (b b' : Builder F) (js : List (Kept F)) → Before fl P b b' js
      → Appends b.ts (runs speaker_of (js ++ kept items)) (flush fl (add_items fl b' items)).ts
  loop_start items ih h b b' _ (Before.idles e v) = Appends-moved b.ts b'.ts _ _ e (ih h b' v)
  loop_start items ih h b b' _ (Before.opens j e v) =
      Appends-moved b.ts b'.ts _ _ e (loop_open items h b' j [] v)

  loop_idle : (items : List (Item F)) → IdleRuns items
  unfolding add_items add_item runs
  loop_idle [] h b v = Appends-nothing b.ts _ (flush_closed fl P b v).0
  loop_idle (r ∷ items) h b v =
      loop_start items (loop_idle items) (λ t i. h t (IsMarkOf.there r items i)) b (add_item fl b r)
        (kept_of r r.alternatives) (item-Before fl P b r r.alternatives v)

module _ (fl : Float64) where
  open fl use {F}

  -- The words of an AddTranscript that are neither profanity nor disfluencies are cut into runs, in
  -- their order and with none left out: no run is empty, each is of one speaker, and the next is of
  -- another. There is one segment for each run, in order, with the run's speaker and start; its
  -- words are the run's at their own times, each with nothing behind its content but contents of
  -- the message's punctuation results.
  pub transcripts-AreSegments :
      (m : ServerMessage F) (r : Item F) (items : List (Item F))
      → m.results ≡ r ∷ items
      → (rs : List (List (Kept F))) × AreSegments fl
          (λ t. IsMarkOf t m.results)
          rs
          (transcripts fl m)
        × (concat rs ≡ kept m.results)
        × AreRuns speaker_of rs
  unfolding transcripts of_results new_builder
  transcripts-AreSegments m r items e =
      subst
        (λ l.
          (rs : List (List (Kept F))) × AreSegments fl (λ t. IsMarkOf t l) rs (of_results fl m l)
          × (concat rs ≡ kept l)
          × AreRuns speaker_of rs)
        (sym e)
        (let a =
            loop_idle fl (λ t. IsMarkOf t (r ∷ items)) (r ∷ items) (λ t i. i) (new_builder fl)
              (record { closed = refl; words = refl }) in
          (
            runs speaker_of (kept (r ∷ items)),
            subst
                (AreSegments fl (λ t. IsMarkOf t (r ∷ items)) (runs speaker_of (kept (r ∷ items))))
                (sym a.split) a.segments,
            concat-runs speaker_of (kept (r ∷ items)),
            runs-AreRuns speaker_of (kept (r ∷ items)),
          ))
