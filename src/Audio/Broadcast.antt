-- ===== src/Audio/Broadcast.antt =====
-- internal/audio/broadcast.go: the fan-out of the MP3 stream. Its lock makes each operation atomic.
-- A listener is the number of its channel, which holds the chunks that it has not received yet.
pub mod Bounds
use pi_live_captions.Base.{
  ℕ, suc, ◌+◌, List, [], ◌∷◌, ◌++◌, Bool, true, false, ◌||◌, Option, none, some, length, ltb, ◌==◌,
  if◌then◌else◌,
}

abbrev pub Bytes : Type 0
Bytes = List ℕ

abbrev pub audio_backlog : ℕ
audio_backlog = 4

pub record Listener : Type 0 where
  pub id : ℕ
  pub queue : List Bytes
  pub open_now : Bool

-- Every channel ever made, with those that are subscribed open; `dropped` counts the calls of
-- onDrop and `next_id` numbers the channels.
pub record Broadcaster : Type 0 where
  pub listeners : List Listener
  pub closed : Bool
  pub next_id : ℕ
  pub dropped : ℕ

abbrev pub new_broadcaster : Broadcaster
new_broadcaster = record { listeners = []; closed = false; next_id = 0; dropped = 0 }

-- The select of publish, for a listener that is subscribed.
unfoldable pub offer : Bytes → Listener → Listener × ℕ
offer c l =
    if l.open_now
    then (if ltb (length l.queue) audio_backlog
        then (record l { queue = l.queue ++ c ∷ [] }, 0)
        else (l, 1))
    else (l, 0)

unfoldable pub offer_all : Bytes → List Listener → List Listener × ℕ
offer_all c [] = ([], 0)
offer_all c (l ∷ ls) =
    let one = offer c l in let rest = offer_all c ls in (one.0 ∷ rest.0, one.1 + rest.1)

unfoldable pub publish : Broadcaster → Bytes → Broadcaster
publish b chunk =
    let sent = offer_all chunk b.listeners in
    record b {
      listeners = if b.closed then b.listeners else sent.0;
      dropped = if b.closed then b.dropped else b.dropped + sent.1;
    }

-- Subscribe returns the channel's number; on a closed broadcaster the channel is closed at once.
unfoldable pub subscribe : Broadcaster → Broadcaster × ℕ
subscribe b = (
  record b {
    listeners =
        b.listeners
        ++ record { id = b.next_id; queue = []; open_now = if b.closed then false else true } ∷ [];
    next_id = suc b.next_id;
  },
  b.next_id,
)

abbrev pub close_listener : Listener → Listener
close_listener l = record l { open_now = false }

unfoldable pub close_id : ℕ → List Listener → List Listener
close_id id [] = []
close_id id (l ∷ ls) = (if l.id == id then close_listener l else l) ∷ close_id id ls

-- The func that Subscribe returns.
unfoldable pub unsubscribe : Broadcaster → ℕ → Broadcaster
unsubscribe b id = record b { listeners = close_id id b.listeners }

unfoldable pub close_all : List Listener → List Listener
close_all [] = []
close_all (l ∷ ls) = close_listener l ∷ close_all ls

unfoldable pub close : Broadcaster → Broadcaster
close b = record b {
  listeners = if b.closed then b.listeners else close_all b.listeners;
  closed = true;
}

abbrev pub after_first : List Bytes → List Bytes
after_first [] = []
after_first (c ∷ q) = q

-- A listener receives the oldest chunk of its queue.
unfoldable pub receive_id : ℕ → List Listener → List Listener
receive_id id [] = []
receive_id id (l ∷ ls) =
    (if l.id == id then record l { queue = after_first l.queue } else l) ∷ receive_id id ls

pub data Call : Type 0 where
  publishes : Bytes → Call
  subscribes : Call
  unsubscribes : ℕ → Call
  closes : Call
  receives : ℕ → Call

unfoldable pub call : Broadcaster → Call → Broadcaster
call b (publishes c) = publish b c
call b subscribes = (subscribe b).0
call b (unsubscribes id) = unsubscribe b id
call b closes = close b
call b (receives id) = record b { listeners = receive_id id b.listeners }

unfoldable pub run : Broadcaster → List Call → Broadcaster
run b [] = b
run b (c ∷ cs) = run (call b c) cs
