-- ===== src/Caption/Hub/Music.antt =====
-- internal/caption/hub.go: the suppression of captions through music.
use pi_live_captions.Base.{
  ℕ, ◌+◌, ◌%◌, ◌^◌, List, [], ◌∷◌, Bool, true, false, Option, none, some, ℤ, pos, ◌-ℤ◌, max_ℤ, Text,
  codes, ◌==◌, if◌then◌else◌,
}
use pi_live_captions.Audio.Format.{Duration}
use pi_live_captions.Stt.Transcript.{Transcript}
use pi_live_captions.Caption.Event.{Kind, Line, milliseconds}
use pi_live_captions.Caption.Cutoff.{after_music}
use pi_live_captions.Caption.Hub.State.{Hub, new_event, broadcast, close_line, mark}
use pi_live_captions.Caption.Hub.Publish.{music_replay_window, close_locked, trim_held, publish}

abbrev pub music_marker : Text
music_marker = codes "♪ music ♪"

-- A line of OnMarker has no speaker and no end.
abbrev pub marker_line : Text → Duration → ℤ → Line
marker_line text offset now = record {
  text = text;
  offset_ms = milliseconds offset;
  at = some now;
  speaker = 0;
  end_ms = pos 0;
  end_ok = false;
}

-- The token is a uint64.
unfoldable pub bump_token : ℕ → ℕ
bump_token n = (n + 1) % 2 ^ 64

unfoldable pub cancel_music_end : Hub → Hub
cancel_music_end h = record h {
  music_timer = none;
  music_token = bump_token h.music_token;
  pending_end = pos 0;
}

-- SetMusic(true, …) while no music plays.
unfoldable pub start_music : Hub → ℤ → Duration → Hub
start_music h now at =
    let h₁ = record h {
      music = true;
      last_music = true;
      confirmed_cutoff = pos 0;
      cutoff_set = false;
    } in
    let (h₂, line) = close_locked true now h₁ in
    let (h₃, blank) = new_event h₂ now Kind.music in
    let h₄ = close_line (broadcast h₃ (record blank { state = codes "on" })) line in
    mark h₄ (marker_line music_marker at now)

-- SetMusic(true, …) while music plays: an armed end is abandoned, with the gap that it began.
unfoldable pub resume_music : Hub → Hub
resume_music h = elim h.music_timer [
  | none ↦ h
  | some token ↦ record (cancel_music_end h) { held = [] }
]

-- SetMusic(false, …)
unfoldable pub end_music : Hub → Duration → Hub
end_music h at =
    let token = bump_token h.music_token in
    let armed = record h { pending_end = at; music_token = token; music_timer = some token } in
    if h.music then elim h.music_timer [ none ↦ armed | some k ↦ h ] else h

unfoldable pub set_music : Hub → ℤ → Bool → Duration → Hub
set_music h now active at =
    let h₁ = trim_held (record h { newest_media = max_ℤ h.newest_media at }) in
    if active then if h₁.music then resume_music h₁ else start_music h₁ now at else end_music h₁ at

unfoldable pub reset_connection : Hub → ℤ → Hub
reset_connection h now =
    let h₁ = record (cancel_music_end h) {
      held = [];
      newest_media = pos 0;
      confirmed_cutoff = pos 0;
      cutoff_set = false;
    } in
    let (h₂, blank) = new_event (record h₁ { music = false; last_music = false }) now Kind.music in
    if h₁.music then broadcast h₂ (record blank { state = codes "off" }) else h₁

-- The loop of releaseMusic over what was held.
unfoldable pub replay_cut : Hub → ℤ → Option Transcript → Hub
replay_cut h now none = h
replay_cut h now (some t) = publish h now t

unfoldable pub replay : Hub → ℤ → List Transcript → Hub
replay h now [] = h
replay h now (t ∷ ts) = replay (replay_cut h now (after_music t h.confirmed_cutoff)) now ts

-- releaseMusic once its token has proved current.
unfoldable pub release_held : Hub → ℤ → Hub
release_held h now =
    let h₁ = record h {
      music_timer = none;
      music = false;
      last_music = false;
      confirmed_cutoff = max_ℤ h.pending_end (h.newest_media -ℤ music_replay_window);
      cutoff_set = true;
      held = [];
    } in
    let (h₂, blank) = new_event h₁ now Kind.music in
    replay (broadcast h₂ (record blank { state = codes "off" })) now h.held

unfoldable pub release_music : Hub → ℤ → ℕ → Hub
release_music h now token = elim h.music_timer [
  | none ↦ h
  | some k ↦ if h.music_token == token then if h.music then release_held h now else h else h
]
