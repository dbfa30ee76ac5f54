-- ===== src/Stt/Driver/Protocol.antt =====
-- The order of the effects of RunSession's loop.
use pi_live_captions.Base.{
  ℕ, ◌/◌, ◌≤◌, List, [], ◌∷◌, ◌++◌, Bool, true, false, not, ◌&&◌, ◌||◌, Option, none, some, ◌≡◌,
  refl, if_cases, All, arith,
}
use pi_live_captions.Stt.Backoff.{
  min_backoff, max_backoff, jittered, IsBackoff, min_backoff-IsBackoff, next_backoff-IsBackoff,
  IsDraw, jittered_low, jittered_high,
}
use pi_live_captions.Metrics.ConnState.{ConnState}
use pi_live_captions.Stt.Driver.{
  Failure, Effect, set_state, set_error, count_reconnect, pause_begin, pause_end, connection_end,
  sleep, Outcome, done, reconnect, pause, Wake, Retry, Round, Driver, Next, again, returned, parked,
  retry_after, wait_loop, wait_resume, after_retry, after_resume, hook_effects, after_outcome,
  preceded, after_dial, round, go_on, run,
}

-- Where the session stands between two effects.
pub data Phase : Type 0 where
  idle : Phase
  dialing : Phase
  live : Phase
  ended : Phase
  failing : Phase
  degraded : Phase
  counted : Phase
  silent : Phase
  waiting : Phase

-- What may happen in each phase: a connection that is replaced has ended for the consumer before
-- the next dial; only a lost link or a refused dial counts as a reconnect, once; a pause has its
-- begin and its end; and a sleep is between half the least wait and the greatest.
pub data Step : Phase → Effect → Phase → Type 0 where
  dials : Step idle (set_state ConnState.connecting) dialing
  connects : Step dialing (set_state ConnState.connected) live
  ends : Step live connection_end ended
  refused : (e : Failure) → Step dialing (set_error (some e)) failing
  lost : (e : Option Failure) → Step ended (set_error e) failing
  degrades : Step failing (set_state ConnState.reconnecting) degraded
  counts : Step degraded count_reconnect counted
  sleeps : (d : ℕ) → min_backoff / 2 ≤ d → d ≤ max_backoff → Step counted (sleep d) idle
  falls_silent : Step ended (set_state ConnState.paused) silent
  begins : Step silent pause_begin waiting
  resumes : Step waiting pause_end idle

pub data Steps : Phase → List Effect → Phase → Type 0 where
  stop : {p : Phase} → Steps p [] p
  step :
      {p q s : Phase} {e : Effect} {es : List Effect}
      → Step p e q
      → Steps q es s
      → Steps p (e ∷ es) s

Steps-append :
    {p q s : Phase} {es es' : List Effect} → Steps p es q → Steps q es' s → Steps p (es ++ es') s
Steps-append Steps.stop t = t
Steps-append (Steps.step x xs) t = Steps.step x (Steps-append xs t)

-- The phases in which the run may return without an error.
abbrev pub may_return : Phase → Bool
may_return idle = true
may_return dialing = true
may_return live = true
may_return ended = true
may_return _ = false

-- How the run stands after its effects, and in which phase.
pub data Reached : Next → Phase → Type 0 where
  goes_on : (d : Driver) → IsBackoff d.backoff → Reached (again d) idle
  stays_parked : Reached parked waiting
  stopped : (p : Phase) → may_return p ≡ true → Reached (returned none) p
  failed : (e : Failure) → e.permanent ≡ true → Reached (returned (some e)) dialing

pub data Follows (p : Phase) : Next × List Effect → Type 0 where
  follows :
      (q : Phase) (n : Next) (fx : List Effect) → Steps p fx q → Reached n q → Follows p (n, fx)

preceded-Follows :
    {p q : Phase} {fx : List Effect} (m : Next × List Effect)
    → Steps p fx q
    → Follows q m
    → Follows p (preceded fx m)
preceded-Follows (n, gx) s (Follows.follows q' _ _ t r) =
    Follows.follows q' n _ (Steps-append s t) r

-- The retry of a phase in which the failure `e` is reported.
retry-Follows :
    {p : Phase} (e : Option Failure) (b : ℕ) (r : Retry)
    → may_return p ≡ true
    → Step p (set_error e) failing
    → IsBackoff b
    → IsDraw r.draw
    → Follows p (after_retry (retry_after e b r))
unfolding retry_after after_retry
retry-Follows {p} e b r m s ib i =
    if_cases (λ o. Follows p (after_retry o)) r.cancelled
      (λ c. Follows.follows p _ _ Steps.stop (Reached.stopped p m))
      (λ c.
        if_cases
          (λ o. Follows p (
            after_retry (
              o,
              set_error e
                  ∷ set_state ConnState.reconnecting
                  ∷ count_reconnect
                  ∷ sleep (jittered b r.draw)
                  ∷ [],
            )))
          r.slept
          (λ w. Follows.follows idle _ _ retried (Reached.goes_on _ (next_backoff-IsBackoff b ib)))
          (λ w. Follows.follows idle _ _ retried (Reached.stopped idle refl)))
  where
    retried :
        Steps p
          (set_error e
            ∷ set_state ConnState.reconnecting
            ∷ count_reconnect
            ∷ sleep (jittered b r.draw)
            ∷ [])
          idle
    retried = Steps.step s (
        Steps.step Step.degrades (
          Steps.step Step.counts (
            Steps.step (Step.sleeps _ (jittered_low b r.draw ib) (jittered_high b r.draw i ib))
              Steps.stop)))

paused_steps : Steps ended (set_state ConnState.paused ∷ pause_begin ∷ []) waiting
paused_steps = Steps.step Step.falls_silent (Steps.step Step.begins Steps.stop)

resumed_steps : Steps ended (set_state ConnState.paused ∷ pause_begin ∷ pause_end ∷ []) idle
resumed_steps =
    Steps.step Step.falls_silent (Steps.step Step.begins (Steps.step Step.resumes Steps.stop))

woken-Follows :
    (o : Option Bool)
    → Follows ended (
        after_resume (
          o,
          set_state ConnState.paused ∷ pause_begin ∷ elim o [ none ↦ [] | some b ↦ pause_end ∷ [] ],
        ))
unfolding after_resume
woken-Follows none = Follows.follows waiting _ _ paused_steps Reached.stays_parked
woken-Follows (some false) = Follows.follows idle _ _ resumed_steps (Reached.stopped idle refl)
woken-Follows (some true) =
    Follows.follows idle _ _ resumed_steps (Reached.goes_on _ min_backoff-IsBackoff)

resume-Follows : (c : Bool) (ws : List Wake) → Follows ended (after_resume (wait_resume c ws))
unfolding wait_resume after_resume
resume-Follows true ws = Follows.follows ended _ _ Steps.stop (Reached.stopped ended refl)
resume-Follows false ws = woken-Follows (wait_loop ws)

outcome-Follows :
    (o : Outcome) (r : Round)
    → IsDraw r.retry.draw
    → Follows live (preceded (hook_effects true o) (after_outcome o r))
unfolding hook_effects after_outcome
outcome-Follows done r i = Follows.follows live _ _ Steps.stop (Reached.stopped live refl)
outcome-Follows (reconnect e) r i =
    preceded-Follows _ (Steps.step Step.ends Steps.stop)
      (retry-Follows e min_backoff r.retry refl (Step.lost e) min_backoff-IsBackoff i)
outcome-Follows pause r i =
    preceded-Follows _ (Steps.step Step.ends Steps.stop) (resume-Follows r.resume_cancelled r.wakes)

dial-Follows :
    (d : Driver) (r : Round) (o : Option Failure)
    → IsBackoff d.backoff
    → IsDraw r.retry.draw
    → Follows dialing (after_dial true d r o)
unfolding after_dial
dial-Follows d r (some e) b i =
    if_cases (Follows dialing) (d.first_attempt && e.permanent && not r.dial_cancelled)
      (λ c. Follows.follows dialing _ _ Steps.stop (Reached.failed e (ground arith)))
      (λ c. retry-Follows (some e) d.backoff r.retry refl (Step.refused e) b i)
dial-Follows d r none b i =
    preceded-Follows _ (Steps.step Step.connects Steps.stop) (outcome-Follows r.outcome r i)

round-Follows :
    (d : Driver) (r : Round)
    → IsBackoff d.backoff
    → IsDraw r.retry.draw
    → Follows idle (round true d r)
unfolding round
round-Follows d r b i =
    if_cases (Follows idle) (r.exhausted || r.cancelled)
      (λ c. Follows.follows idle _ _ Steps.stop (Reached.stopped idle refl))
      (λ c. preceded-Follows _ (Steps.step Step.dials Steps.stop) (dial-Follows d r r.dial b i))

go_on-Follows :
    (m : Next × List Effect) (rest : Driver → Next × List Effect)
    → Follows idle m
    → ((d : Driver) → IsBackoff d.backoff → Follows idle (rest d))
    → Follows idle (go_on m rest)
unfolding go_on
go_on-Follows (again d, fx) rest (Follows.follows q _ _ s (Reached.goes_on _ b)) f =
    preceded-Follows _ s (f d b)
go_on-Follows (returned e, fx) rest m f = m
go_on-Follows (parked, fx) rest m f = m

-- With the connection-end hook set and a generator that keeps its bounds, every run of the session
-- from a backoff within its bounds does its effects in the order of `Step`, and stands as `Reached`
-- says: the next backoff is within its bounds, a parked run is in a pause, a permanent error is
-- returned straight after a dial, and nothing else leaves a pause or a retry unfinished.
pub run-Follows :
    (d : Driver) (rs : List Round)
    → IsBackoff d.backoff
    → All (λ r. IsDraw r.retry.draw) rs
    → Follows idle (run true d rs)
unfolding run
run-Follows d [] b is = Follows.follows idle _ _ Steps.stop (Reached.goes_on d b)
run-Follows d (r ∷ rs) b (i, is) =
    go_on-Follows _ _ (round-Follows d r b i) (λ d' b'. run-Follows d' rs b' is)
