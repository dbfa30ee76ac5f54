-- ===== src/Caption/Hub/State.antt =====
-- internal/caption/hub.go: the hub's state, its subscribers and what leaves it.
use pi_live_captions.Base.{
  ℕ, suc, ◌+◌, List, [], ◌∷◌, ◌++◌, Bool, true, false, Option, none, some, ℤ, pos, Text, length,
  ltb, if◌then◌else◌,
}
use pi_live_captions.Audio.Format.{Duration}
use pi_live_captions.Stt.Transcript.{Transcript}
use pi_live_captions.Caption.Event.{Kind, Event, Line}

-- A subscriber's channel: its identity, and the events sent and not yet received, oldest first.
pub record Sub : Type 0 where
  pub id : ℕ
  pub queue : List Event

-- What leaves the hub, in order: a broadcast, and a call of OnFinal or OnMarker.
pub data Output : Type 0 where
  event : Event → Output
  final : Line → Output
  marker : Line → Output

-- The counters of internal/metrics that the hub bumps.
pub record Counters : Type 0 where
  pub segments : ℕ
  pub lines : ℕ
  pub sse_events : ℕ
  pub sse_slow_drops : ℕ
  pub sse_clients : ℕ
  pub sse_clients_total : ℕ

-- `music_timer` is the armed timer, by the token that its function passes to releaseMusic.
-- `on_final` and `on_marker` say whether the callback is set; `out` records what has left the hub.
pub record Hub : Type 0 where
  pub seq : ℕ
  pub committed : Text
  pub utt_start : Duration
  pub prev_end : Duration
  pub utt_speaker : ℕ
  pub utt_end : Duration
  pub utt_end_ok : Bool
  pub last_speaker : ℕ
  pub last_state : Text
  pub music : Bool
  pub held : List Transcript
  pub last_music : Bool
  pub music_timer : Option ℕ
  pub music_token : ℕ
  pub pending_end : Duration
  pub newest_media : Duration
  pub confirmed_cutoff : Duration
  pub cutoff_set : Bool
  pub subs : List Sub
  pub next_channel : ℕ
  pub metrics : Counters
  pub on_final : Bool
  pub on_marker : Bool
  pub out : List Output

unfoldable pub new_hub : Bool → Bool → Hub
new_hub on_final on_marker = record {
  seq = 0;
  committed = [];
  utt_start = pos 0;
  prev_end = pos 0;
  utt_speaker = 0;
  utt_end = pos 0;
  utt_end_ok = false;
  last_speaker = 0;
  last_state = [];
  music = false;
  held = [];
  last_music = false;
  music_timer = none;
  music_token = 0;
  pending_end = pos 0;
  newest_media = pos 0;
  confirmed_cutoff = pos 0;
  cutoff_set = false;
  subs = [];
  next_channel = 0;
  metrics = record {
    segments = 0;
    lines = 0;
    sse_events = 0;
    sse_slow_drops = 0;
    sse_clients = 0;
    sse_clients_total = 0;
  };
  on_final = on_final;
  on_marker = on_marker;
  out = [];
}

abbrev pub subscriber_buffer : ℕ
subscriber_buffer = 16

-- newEventLocked
unfoldable pub new_event : Hub → ℤ → Kind → Hub × Event
new_event h now k = (
  record h { seq = suc h.seq },
  record {
    seq = suc h.seq;
    kind = k;
    words = [];
    breaks = false;
    speaker = 0;
    at = some now;
    state = [];
    snapshot = false;
  },
)

-- The loop of broadcast: a channel that is full misses the event, which is counted.
unfoldable pub deliver : Event → List Sub → List Sub × ℕ
deliver ev [] = ([], 0)
deliver ev (s ∷ ss) =
    let rest = deliver ev ss in
    if ltb (length s.queue) subscriber_buffer
    then (record s { queue = s.queue ++ ev ∷ [] } ∷ rest.0, rest.1)
    else (s ∷ rest.0, suc rest.1)

unfoldable pub broadcast : Hub → Event → Hub
broadcast h ev =
    let sent = deliver ev h.subs in
    record h {
      subs = sent.0;
      metrics = record (h.metrics) {
        sse_events = suc h.metrics.sse_events;
        sse_slow_drops = h.metrics.sse_slow_drops + sent.1;
      };
      out = h.out ++ event ev ∷ [];
    }

abbrev pub closed_count : Option Line → ℕ
closed_count none = 0
closed_count (some l) = 1

abbrev pub final_calls : Bool → Option Line → List Output
final_calls false l = []
final_calls true none = []
final_calls true (some l) = final l ∷ []

-- What every operation does with the line that closeLocked may have closed: it counts the line
-- and calls OnFinal, if that is set.
unfoldable pub close_line : Hub → Option Line → Hub
close_line h line = record h {
  metrics = record (h.metrics) { lines = h.metrics.lines + closed_count line };
  out = h.out ++ final_calls h.on_final line;
}

unfoldable pub mark : Hub → Line → Hub
mark h l = record h { out = h.out ++ (if h.on_marker then marker l ∷ [] else []) }
