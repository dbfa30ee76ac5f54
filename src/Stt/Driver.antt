-- ===== src/Stt/Driver.antt =====
-- internal/stt/session.go: the reconnect loop of RunSession.
--
-- What the loop waits for or asks for (a dial, the life of a connection, a cancelled context, an
-- edge of the gate) is an argument of a round, and what it does (metrics, the hook, a sleep) is a
-- list of effects in the order of the calls.
pub mod Protocol
pub mod Permanent
use pi_live_captions.Base.{
  ℕ, List, [], ◌∷◌, ◌++◌, Bool, true, false, not, ◌&&◌, ◌||◌, Option, none, some, if◌then◌else◌,
}
use pi_live_captions.Metrics.ConnState.{ConnState, connecting, connected, reconnecting, paused}
use pi_live_captions.Stt.Backoff.{min_backoff, jittered, next_backoff}

-- A failure with its text's number and whether it is a PermanentError.
pub record Failure : Type 0 where
  pub message : ℕ
  pub permanent : Bool

pub data Effect : Type 0 where
  set_state : ConnState → Effect
  set_error : Option Failure → Effect
  count_reconnect : Effect
  pause_begin : Effect
  pause_end : Effect
  connection_end : Effect
  sleep : ℕ → Effect

pub data Outcome : Type 0 where
  done : Outcome
  reconnect : Option Failure → Outcome
  pause : Outcome

-- What the select of waitResume hears, with the gate's state before it.
pub data Wake : Type 0 where
  resumed : Wake
  changed : Wake
  frames_closed : Wake
  cancelled : Wake

pub record Retry : Type 0 where
  pub cancelled : Bool
  pub draw : ℕ → ℕ
  pub slept : Bool

-- One round: the checks at its head, the dial (none: it connected), the context after a failed
-- dial, how the connection ends, and what the waits afterwards meet.
pub record Round : Type 0 where
  pub exhausted : Bool
  pub cancelled : Bool
  pub dial : Option Failure
  pub dial_cancelled : Bool
  pub outcome : Outcome
  pub retry : Retry
  pub resume_cancelled : Bool
  pub wakes : List Wake

pub record Driver : Type 0 where
  pub backoff : ℕ
  pub first_attempt : Bool

-- `again`: the next round; `returned`: run returns that error; `parked`: it waits for more wakes.
pub data Next : Type 0 where
  again : Driver → Next
  returned : Option Failure → Next
  parked : Next

abbrev pub new_driver : Driver
new_driver = record { backoff = min_backoff; first_attempt = true }

-- The next backoff if the session goes on.
unfoldable pub retry_after : Option Failure → ℕ → Retry → Option ℕ × List Effect
retry_after err backoff r = if r.cancelled then (none, []) else (
  if r.slept then some (next_backoff backoff) else none,
  set_error err ∷ set_state reconnecting ∷ count_reconnect ∷ sleep (jittered backoff r.draw) ∷ [],
)

-- The loop of waitResume; none while it waits.
unfoldable pub wait_loop : List Wake → Option Bool
wait_loop [] = none
wait_loop (resumed ∷ ws) = some true
wait_loop (changed ∷ ws) = wait_loop ws
wait_loop (frames_closed ∷ ws) = some false
wait_loop (cancelled ∷ ws) = some false

unfoldable pub wait_resume : Bool → List Wake → Option Bool × List Effect
wait_resume stopped ws = if stopped then (some false, []) else (
  wait_loop ws,
  set_state paused ∷ pause_begin ∷ elim (wait_loop ws) [ none ↦ [] | some b ↦ pause_end ∷ [] ],
)

unfoldable pub after_retry : Option ℕ × List Effect → Next × List Effect
after_retry (none, fx) = (returned none, fx)
after_retry (some b, fx) = (again (record { backoff = b; first_attempt = false }), fx)

unfoldable pub after_resume : Option Bool × List Effect → Next × List Effect
after_resume (none, fx) = (parked, fx)
after_resume (some false, fx) = (returned none, fx)
after_resume (some true, fx) = (again (record { backoff = min_backoff; first_attempt = false }), fx)

-- The connection-end hook, if the caller set one.
unfoldable pub hook_effects : Bool → Outcome → List Effect
hook_effects has_hook done = []
hook_effects has_hook (reconnect e) = if has_hook then connection_end ∷ [] else []
hook_effects has_hook pause = if has_hook then connection_end ∷ [] else []

unfoldable pub after_outcome : Outcome → Round → Next × List Effect
after_outcome done r = (returned none, [])
after_outcome (reconnect e) r = after_retry (retry_after e min_backoff r.retry)
after_outcome pause r = after_resume (wait_resume r.resume_cancelled r.wakes)

abbrev pub preceded : List Effect → Next × List Effect → Next × List Effect
preceded fx (n, gx) = (n, fx ++ gx)

unfoldable pub after_dial : Bool → Driver → Round → Option Failure → Next × List Effect
after_dial has_hook d r (some e) =
    if d.first_attempt && e.permanent && not r.dial_cancelled
    then (returned (some e), [])
    else after_retry (retry_after (some e) d.backoff r.retry)
after_dial has_hook d r none =
    preceded (set_state connected ∷ hook_effects has_hook r.outcome) (after_outcome r.outcome r)

-- One round of the loop of run.
unfoldable pub round : Bool → Driver → Round → Next × List Effect
round has_hook d r =
    if r.exhausted || r.cancelled
    then (returned none, [])
    else preceded (set_state connecting ∷ []) (after_dial has_hook d r r.dial)

unfoldable pub go_on : Next × List Effect → (Driver → Next × List Effect) → Next × List Effect
go_on (again d, fx) rest = preceded fx (rest d)
go_on (returned e, fx) rest = (returned e, fx)
go_on (parked, fx) rest = (parked, fx)

-- run, as far as the rounds given reach.
unfoldable pub run : Bool → Driver → List Round → Next × List Effect
run has_hook d [] = (again d, [])
run has_hook d (r ∷ rs) = go_on (round has_hook d r) (λ d'. run has_hook d' rs)
