-- ===== src/Caption/Hub/Publish.antt =====
-- internal/caption/hub.go: how a segment is published, and when a line closes.
use pi_live_captions.Base.{
  ℕ, suc, [], ◌∷◌, ◌++◌, Bool, false, not, ◌&&◌, ◌||◌, Option, none, some, ℤ, pos, ◌-ℤ◌, max_ℤ,
  ltb_ℤ, leb_ℤ, Text, is_empty, byte_len, trim_space, ltb, ◌==◌, if◌then◌else◌,
}
use pi_live_captions.Audio.Format.{Duration}
use pi_live_captions.Stt.Transcript.{Transcript, text_of, end_of}
use pi_live_captions.Caption.Event.{Kind, Line, milliseconds, wire_words, ends_sentence, join_text}
use pi_live_captions.Caption.Cutoff.{after_music, keep_after}
use pi_live_captions.Caption.Hub.State.{Hub, new_event, broadcast, close_line}

abbrev pub max_utterance_chars : ℕ
max_utterance_chars = 1000

abbrev pub music_replay_window : Duration
music_replay_window = pos 4_000_000_000

abbrev pub break_gap : Duration
break_gap = pos 1_500_000_000

-- isBreakLocked
unfoldable pub is_break : Hub → Transcript → Bool
is_break h t = let gap = t.start -ℤ h.prev_end in ltb_ℤ gap (pos 0) || leb_ℤ break_gap gap

-- closeLocked keeps the line open
unfoldable pub stays_open : Bool → Text → Bool
stays_open broke committed =
    is_empty committed
    || (not broke && not (ends_sentence committed) && ltb (byte_len committed) max_utterance_chars)

unfoldable pub close_locked : Bool → ℤ → Hub → Hub × Option Line
close_locked broke now h =
    let line : Line = record {
      text = h.committed;
      offset_ms = milliseconds h.utt_start;
      at = some now;
      speaker = h.utt_speaker;
      end_ms = milliseconds h.utt_end;
      end_ok = h.utt_end_ok;
    } in
    let stays = stays_open broke h.committed in
    (record h { committed = if stays then h.committed else [] }, if stays then none else some line)

unfoldable pub speaker_changed : Hub → Transcript → Bool
speaker_changed h t =
    not (h.last_speaker == 0) && not (t.speaker == 0) && not (t.speaker == h.last_speaker)

-- The segment joins the open line, or begins a new one.
unfoldable pub append_segment : Hub → Transcript → Text → Hub
append_segment h t text =
    let fresh = is_empty h.committed in
    record h {
      utt_start = if fresh then t.start else h.utt_start;
      utt_speaker = if fresh then t.speaker else h.utt_speaker;
      committed = join_text h.committed text;
      prev_end = end_of t;
      utt_end = end_of t;
      utt_end_ok = ltb_ℤ (pos 0) t.duration;
    }

-- publish from the evaluation of the break on.
unfoldable pub emit : Hub → ℤ → Transcript → Text → Hub
emit h now t text =
    let broke = is_break h t in
    let (h₁, before) = close_locked (broke || speaker_changed h t) now h in
    let (h₂, blank) = new_event (append_segment h₁ t text) now Kind.caption in
    let ev = record blank { words = wire_words t; breaks = broke; speaker = t.speaker } in
    let (h₃, after) = close_locked false now h₂ in
    let h₄ = record h₃ {
      last_speaker = if t.speaker == 0 then h₃.last_speaker else t.speaker;
      metrics = record (h₃.metrics) { segments = suc h₃.metrics.segments };
    } in
    close_line (close_line (broadcast h₄ ev) before) after

-- trimHeldLocked
unfoldable pub trim_held : Hub → Hub
trim_held h =
    let cutoff = h.newest_media -ℤ music_replay_window in
    record h { held = if leb_ℤ cutoff (pos 0) then h.held else keep_after h.held cutoff }

unfoldable pub hold : Hub → Transcript → Hub
hold h t =
    trim_held (record h { held = h.held ++ t ∷ []; newest_media = max_ℤ h.newest_media (end_of t) })

unfoldable pub publish : Hub → ℤ → Transcript → Hub
publish h now t =
    if is_empty (trim_space (text_of t))
    then h
    else if h.music
    then hold h t
    else if h.cutoff_set
    then elim (after_music t h.confirmed_cutoff) [
      | none ↦ h
      | some t' ↦ emit h now t' (trim_space (text_of t'))
    ]
    else emit h now t (trim_space (text_of t))
