-- ===== src/Stt/Driver/Permanent.antt =====
-- The errors that RunSession returns.
use pi_live_captions.Base.{
  ℕ, List, [], ◌∷◌, ◌++◌, Bool, true, false, not, ◌&&◌, ◌||◌, Option, none, some, ◌≡◌, refl, sym,
  ◌∙◌, if◌then◌else◌, if_cases, Bool-cases, inl, inr,
}
use pi_live_captions.Stt.Backoff.{min_backoff}
use pi_live_captions.Metrics.ConnState.{ConnState}
use pi_live_captions.Stt.Driver.{
  Failure, Effect, set_state, Outcome, done, reconnect, pause, Round, Driver, Next, again, returned,
  parked, new_driver, after_retry, after_resume, hook_effects, after_outcome, preceded, after_dial,
  round, go_on, run,
}

-- The error that the run has returned, if it has.
abbrev pub error_of : Next → Option Failure
error_of (again d) = none
error_of (returned e) = e
error_of parked = none

-- The error of a dial that ends the session, at the first attempt or not.
abbrev pub fatal : Bool → Round → Option Failure → Option Failure
fatal first r none = none
fatal first r (some e) = if first && e.permanent && not r.dial_cancelled then some e else none

abbrev fatal_in : Bool → Round → Option Failure
fatal_in first r = if r.exhausted || r.cancelled then none else fatal first r r.dial

-- The permanent error of the very first dial, if the session was not stopped before or meanwhile.
abbrev pub refusal : List Round → Option Failure
refusal [] = none
refusal (r ∷ rs) = if r.exhausted || r.cancelled then none else fatal true r r.dial

-- After a round without an error the run goes on with its first attempt behind it, or not at all.
data IsLater : Next × List Effect → Type 0 where
  later :
      (b : ℕ) (fx : List Effect)
      → IsLater (again (record { backoff = b; first_attempt = false }), fx)
  over : (fx : List Effect) → IsLater (returned none, fx)
  waits : (fx : List Effect) → IsLater (parked, fx)

preceded-IsLater : (fx : List Effect) (m : Next × List Effect) → IsLater m → IsLater (preceded fx m)
preceded-IsLater fx _ (IsLater.later b gx) = IsLater.later b (fx ++ gx)
preceded-IsLater fx _ (IsLater.over gx) = IsLater.over (fx ++ gx)
preceded-IsLater fx _ (IsLater.waits gx) = IsLater.waits (fx ++ gx)

retry-IsLater : (o : Option ℕ × List Effect) → IsLater (after_retry o)
unfolding after_retry
retry-IsLater (none, fx) = IsLater.over fx
retry-IsLater (some b, fx) = IsLater.later b fx

resume-IsLater : (o : Option Bool × List Effect) → IsLater (after_resume o)
unfolding after_resume
resume-IsLater (none, fx) = IsLater.waits fx
resume-IsLater (some false, fx) = IsLater.over fx
resume-IsLater (some true, fx) = IsLater.later min_backoff fx

outcome-IsLater : (o : Outcome) (r : Round) → IsLater (after_outcome o r)
unfolding after_outcome
outcome-IsLater done r = IsLater.over []
outcome-IsLater (reconnect e) r = retry-IsLater _
outcome-IsLater pause r = resume-IsLater _

data Ends (o : Option Failure) : Next × List Effect → Type 0 where
  fails : (fx : List Effect) → Ends o (returned o, fx)
  lasts : (m : Next × List Effect) → o ≡ none → IsLater m → Ends o m

preceded-Ends :
    (o : Option Failure) (fx : List Effect) (m : Next × List Effect)
    → Ends o m
    → Ends o (preceded fx m)
preceded-Ends o fx _ (Ends.fails gx) = Ends.fails (fx ++ gx)
preceded-Ends o fx _ (Ends.lasts m e l) = Ends.lasts _ e (preceded-IsLater fx m l)

dial-Ends :
    (h : Bool) (d : Driver) (r : Round) (o : Option Failure)
    → Ends (fatal d.first_attempt r o) (after_dial h d r o)
unfolding after_dial
dial-Ends h d r none = Ends.lasts _ refl (
    preceded-IsLater (set_state ConnState.connected ∷ hook_effects h r.outcome) _
      (outcome-IsLater r.outcome r))
dial-Ends h d r (some e) =
    elim (Bool-cases (d.first_attempt && e.permanent && not r.dial_cancelled)) [
      | inl c ↦ rw c (Ends.fails [])
      | inr c ↦ rw c (Ends.lasts _ refl (retry-IsLater _))
    ]

round-Ends : (h : Bool) (d : Driver) (r : Round) → Ends (fatal_in d.first_attempt r) (round h d r)
unfolding round
round-Ends h d r = elim (Bool-cases (r.exhausted || r.cancelled)) [
  | inl c ↦ rw c (Ends.fails [])
  | inr c ↦ rw c (preceded-Ends _ (set_state ConnState.connecting ∷ []) _ (dial-Ends h d r r.dial))
]

error_of-preceded :
    (fx : List Effect) (m : Next × List Effect) → error_of (preceded fx m).0 ≡ error_of m.0
error_of-preceded fx (n, gx) = refl

go_on-error :
    (o : Option Failure) (m : Next × List Effect) (rest : Driver → Next × List Effect)
    → Ends o m
    → ((b : ℕ) → error_of (rest (record { backoff = b; first_attempt = false })).0 ≡ none)
    → error_of (go_on m rest).0 ≡ o
unfolding go_on
go_on-error o _ rest (Ends.fails fx) f = refl
go_on-error o _ rest (Ends.lasts _ e (IsLater.later b fx)) f =
    error_of-preceded fx (rest _) ∙ f b ∙ sym e
go_on-error o _ rest (Ends.lasts _ e (IsLater.over fx)) f = sym e
go_on-error o _ rest (Ends.lasts _ e (IsLater.waits fx)) f = sym e

later-not_fatal : (r : Round) (o : Option Failure) → fatal false r o ≡ none
later-not_fatal r none = refl
later-not_fatal r (some e) = refl

later-none : (r : Round) → fatal_in false r ≡ none
later-none r =
    if_cases (λ o. o ≡ none) (r.exhausted || r.cancelled) (λ c. refl)
      (λ c. later-not_fatal r r.dial)

none_later :
    (h : Bool) (b : ℕ) (rs : List Round)
    → error_of (run h (record { backoff = b; first_attempt = false }) rs).0 ≡ none
unfolding run
none_later h b [] = refl
none_later h b (r ∷ rs) =
    go_on-error _ _ _ (round-Ends h (record { backoff = b; first_attempt = false }) r)
      (λ b'. none_later h b' rs)
    ∙ later-none r

-- A session returns an error exactly when its first dial fails with a permanent error while it is
-- not cancelled, and it returns that error; every other end is a plain return, with or without the
-- connection-end hook.
pub run-error : (h : Bool) (rs : List Round) → error_of (run h new_driver rs).0 ≡ refusal rs
unfolding run
run-error h [] = refl
run-error h (r ∷ rs) = go_on-error _ _ _ (round-Ends h new_driver r) (λ b. none_later h b rs)
