-- ===== src/Metrics/ConnState.antt =====
-- internal/metrics/metrics.go: the state of the recognizer's connection.
use pi_live_captions.Base.{ℕ, Text, codes}

pub data ConnState : Type 0 where
  idle connecting connected reconnecting closed paused : ConnState

-- String
abbrev pub conn_text : ConnState → Text
conn_text ConnState.idle = codes "idle"
conn_text ConnState.connecting = codes "connecting"
conn_text ConnState.connected = codes "connected"
conn_text ConnState.reconnecting = codes "reconnecting"
conn_text ConnState.closed = codes "closed"
conn_text ConnState.paused = codes "paused"

abbrev pub conn_number : ConnState → ℕ
conn_number ConnState.idle = 0
conn_number ConnState.connecting = 1
conn_number ConnState.connected = 2
conn_number ConnState.reconnecting = 3
conn_number ConnState.closed = 4
conn_number ConnState.paused = 5
