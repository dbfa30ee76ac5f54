-- ===== src/Stt/EngineTests.antt =====
-- The theorems on the recognizers' protocols at concrete inputs.
use pi_live_captions.Base.{
  ℕ, ◌+◌, List, [], ◌∷◌, ◌++◌, ◌≡◌, refl, ℤ, pos, Text, codes, map, decimal, value, arith,
}
use pi_live_captions.Audio.Toy.{toy}
use pi_live_captions.Stt.Transcript.{word_texts}
use pi_live_captions.Stt.Runs.{concat, AreRuns}
use pi_live_captions.Stt.Deepgram.{SpokenWord, group_words}
use pi_live_captions.Stt.Deepgram.Grouping.{
  speaker_of as speaker_of_word, of_runs, group_words-AreRuns,
}
use pi_live_captions.Stt.Speechmatics.{Item, ServerMessage}
use pi_live_captions.Stt.Speechmatics.Speaker.{parse_speaker, trailing_digits}
use pi_live_captions.Stt.Speechmatics.Speaker.RoundTrip.{parse_speaker-decimal}
use pi_live_captions.Stt.Speechmatics.Transcripts.{
  transcripts, of_results, flush, add_items, add_item, add_alternative, add_word, with_run,
  add_punctuation, append_punctuation, new_builder,
}
use pi_live_captions.Stt.Speechmatics.Transcripts.Punctuation.{Kept}
use pi_live_captions.Stt.Speechmatics.Transcripts.Round.{AreSegments, IsMarkOf, kept, speaker_of}
use pi_live_captions.Stt.Speechmatics.Transcripts.Runs.{transcripts-AreSegments}

abbrev spoken : Text → ℕ → ℕ → SpokenWord ℤ
spoken word at speaker = record {
  word = word;
  punctuated_word = [];
  start = pos at;
  end = pos (at + 1);
  speaker = speaker;
}

-- A question, an answer and another question.
abbrev dialogue : List (SpokenWord ℤ)
dialogue =
    spoken (codes "who") 1 0
    ∷ spoken (codes "there") 2 0
    ∷ spoken (codes "me") 4 1
    ∷ spoken (codes "who") 6 0
    ∷ []

group_words-AreRuns_example :
    (rs : List (List (SpokenWord ℤ))) × (group_words toy dialogue ≡ of_runs toy rs)
    × (concat rs ≡ dialogue)
    × AreRuns (speaker_of_word toy) rs
group_words-AreRuns_example = group_words-AreRuns toy dialogue

abbrev item : Text → Text → ℕ → Text → List Text → Item ℤ
item kind content at speaker tags = record {
  kind = kind;
  start_time = pos at;
  end_time = pos (at + 1);
  alternatives = record { content = content; speaker = speaker; tags = tags } ∷ [];
}

-- "Well, um." and then another speaker's "Yes": the removed word leaves one mark.
abbrev first_item : Item ℤ
first_item = item (codes "word") (codes "Well") 1 (codes "S1") []

abbrev other_items : List (Item ℤ)
other_items =
    item (codes "punctuation") (codes ",") 2 (codes "S1") []
    ∷ item (codes "word") (codes "um") 3 (codes "S1") (codes "disfluency" ∷ [])
    ∷ item (codes "punctuation") (codes ".") 4 (codes "S1") []
    ∷ item (codes "word") (codes "Yes") 5 (codes "S2") []
    ∷ []

abbrev message : ServerMessage ℤ
message = record {
  message = codes "AddTranscript";
  kind = [];
  reason = [];
  meta_start = pos 0;
  meta_end = pos 0;
  meta_transcript = [];
  transcript = [];
  results = first_item ∷ other_items;
  event = record { kind = []; start_time = pos 0; end_time = pos 0 };
}

spoken_texts :
    map (λ t. word_texts t.words) (transcripts toy message)
    ≡ (codes "Well." ∷ []) ∷ (codes "Yes" ∷ []) ∷ []
unfolding transcripts of_results flush add_items add_item add_alternative add_word with_run
    add_punctuation append_punctuation new_builder parse_speaker trailing_digits value
spoken_texts = refl

transcripts-AreSegments_example :
    (rs : List (List (Kept ℤ))) × AreSegments toy
      (λ t. IsMarkOf t message.results)
      rs
      (transcripts toy message)
    × (concat rs ≡ kept message.results)
    × AreRuns speaker_of rs
transcripts-AreSegments_example = transcripts-AreSegments toy message first_item other_items refl

parse_speaker-decimal_example : parse_speaker ([] ++ b'S' ∷ decimal 12) ≡ 12
parse_speaker-decimal_example = parse_speaker-decimal [] b'S' 12 (refl) (omega arith)
