-- ===== src/Caption/Hub/Operations.antt =====
-- internal/caption/hub.go: the other public operations, and a client's calls in order.
use pi_live_captions.Base.{
  ℕ, suc, ◌-◌, List, [], ◌∷◌, Bool, true, false, not, ◌&&◌, ℤ, max_ℤ, Text, codes, text_eq, ◌==◌,
  if◌then◌else◌,
}
use pi_live_captions.Audio.Format.{Duration}
use pi_live_captions.Stt.Transcript.{Transcript}
use pi_live_captions.Caption.Event.{Kind, Event}
use pi_live_captions.Caption.Hub.State.{Hub, Sub, new_event, broadcast, close_line, mark}
use pi_live_captions.Caption.Hub.Publish.{close_locked, publish}
use pi_live_captions.Caption.Hub.Music.{
  marker_line, cancel_music_end, set_music, reset_connection, release_music,
}

abbrev pub silence_marker : Text
silence_marker = codes "— silence —"

-- The status goes to paused and was not.
abbrev pub pauses : Hub → Text → Bool
pauses h state = text_eq state (codes "paused") && not (text_eq h.last_state (codes "paused"))

unfoldable pub publish_status : Hub → ℤ → Text → Hub
publish_status h now state =
    let (h₁, blank) = new_event h now Kind.status in
    let h₂ = record h₁ { last_state = state } in
    let ev = record blank { state = state } in
    let (h₃, line) = close_locked true now h₂ in
    let offset = max_ℤ h.prev_end h.newest_media in
    if pauses h state
    then mark (close_line (broadcast h₃ ev) line) (marker_line silence_marker offset now)
    else broadcast h₂ ev

unfoldable pub clear : Hub → ℤ → Hub
clear h now =
    let (h₁, line) = close_locked true now h in
    let (h₂, ev) = new_event (record h₁ { held = [] }) now Kind.clear in
    close_line (broadcast h₂ ev) line

unfoldable pub flush : Hub → ℤ → Hub
flush h now =
    let (h₁, line) = close_locked true now (record (cancel_music_end h) { held = [] }) in
    close_line h₁ line

-- Subscribe; the result is the new channel. SSEConnect counts the client.
unfoldable pub subscribe : Hub → ℤ → Hub × ℕ
subscribe h now =
    let (h₁, status) = new_event h now Kind.status in
    let (h₂, music) = new_event h₁ now Kind.music in
    let sub : Sub = record {
      id = h.next_channel;
      queue =
          record status { state = h.last_state; snapshot = true }
          ∷ record music {
            state = if h.last_music then codes "on" else codes "off";
            snapshot = true;
          }
          ∷ [];
    } in
    (
      record h₂ {
        subs = sub ∷ h.subs;
        next_channel = suc h.next_channel;
        metrics = record (h.metrics) {
          sse_clients = suc h.metrics.sse_clients;
          sse_clients_total = suc h.metrics.sse_clients_total;
        };
      },
      h.next_channel,
    )

unfoldable pub remove_sub : ℕ → List Sub → List Sub
remove_sub id [] = []
remove_sub id (s ∷ ss) = if s.id == id then ss else s ∷ remove_sub id ss

unfoldable pub has_sub : ℕ → List Sub → Bool
has_sub id [] = false
has_sub id (s ∷ ss) = if s.id == id then true else has_sub id ss

-- The function that Subscribe returns; `once` lets only its first call act, which finds the channel.
unfoldable pub unsubscribe : Hub → ℕ → Hub
unsubscribe h id =
    if has_sub id h.subs
    then record h {
      subs = remove_sub id h.subs;
      metrics = record (h.metrics) { sse_clients = h.metrics.sse_clients - 1 };
    }
    else h

-- The subscriber receives its oldest event.
abbrev pub receive_event : List Event → List Event
receive_event [] = []
receive_event (ev ∷ evs) = evs

unfoldable pub receive : ℕ → List Sub → List Sub
receive id [] = []
receive id (s ∷ ss) =
    if s.id == id then record s { queue = receive_event s.queue } ∷ ss else s ∷ receive id ss

-- The calls that reach a hub. `timer_fires` is the function of a timer, stopped or not.
pub data Call : Type 0 where
  publishes : Transcript → Call
  sets_music : Bool → Duration → Call
  resets : Call
  timer_fires : ℕ → Call
  publishes_status : Text → Call
  clears : Call
  flushes : Call
  subscribes : Call
  unsubscribes : ℕ → Call
  receives : ℕ → Call

unfoldable pub step : Hub → ℤ × Call → Hub
step h (now, publishes t) = publish h now t
step h (now, sets_music active at) = set_music h now active at
step h (now, resets) = reset_connection h now
step h (now, timer_fires token) = release_music h now token
step h (now, publishes_status state) = publish_status h now state
step h (now, clears) = clear h now
step h (now, flushes) = flush h now
step h (now, subscribes) = (subscribe h now).0
step h (now, unsubscribes id) = unsubscribe h id
step h (now, receives id) = record h { subs = receive id h.subs }

unfoldable pub run : Hub → List (ℤ × Call) → Hub
run h [] = h
run h (c ∷ cs) = run (step h c) cs
