-- ===== src/Audio/Broadcast/Bounds.antt =====
-- What a listener's channel may hold.
use pi_live_captions.Base.{
  ℕ, ◌≤◌, List, [], ◌∷◌, Bool, true, false, ◌||◌, ap, ◌∙◌, ◌≡◌, refl, subst, length, length-append,
  ltb, ltb→lt, ◌==◌, if_cases, All, All-append, arith,
}
use pi_live_captions.Audio.Broadcast.{
  Bytes, Listener, Broadcaster, Call, publishes, subscribes, unsubscribes, closes, receives,
  audio_backlog, new_broadcaster, offer, offer_all, publish, subscribe, close_listener, close_id,
  unsubscribe, close_all, close, after_first, receive_id, call, run,
}

-- A listener's queue is within the backlog, and after Close its channel is closed.
pub record IsServed (closed : Bool) (l : Listener) : Type 0 where
  pub bounded : length l.queue ≤ audio_backlog
  pub shut : closed ≡ true → l.open_now ≡ false

abbrev IsValid : Broadcaster → Type 0
IsValid b = All (IsServed b.closed) b.listeners

offer-IsServed : (s : Bool) (c : Bytes) (l : Listener) → IsServed s l → IsServed s (offer c l).0
unfolding offer
offer-IsServed s c l v =
    if_cases (λ (o : Listener × ℕ). IsServed s o.0) l.open_now
      (λ e.
        if_cases (λ (o : Listener × ℕ). IsServed s o.0) (ltb (length l.queue) audio_backlog)
          (λ lt. record {
            bounded = omega (arith, length-append l.queue (c ∷ []), ltb→lt _ _ lt);
            shut = v.shut;
          })
          (λ ge. v))
      (λ e. v)

offer_all-IsServed :
    (s : Bool) (c : Bytes) (ls : List Listener)
    → All (IsServed s) ls
    → All (IsServed s) (offer_all c ls).0
unfolding offer_all
offer_all-IsServed s c [] v = tt
offer_all-IsServed s c (l ∷ ls) (v, vs) = (offer-IsServed s c l v, offer_all-IsServed s c ls vs)

closed-IsServed : (s t : Bool) (l : Listener) → IsServed s l → IsServed t (close_listener l)
closed-IsServed s t l v = record { bounded = v.bounded; shut = λ c. refl }

close_id-IsServed :
    (s : Bool) (id : ℕ) (ls : List Listener)
    → All (IsServed s) ls
    → All (IsServed s) (close_id id ls)
unfolding close_id
close_id-IsServed s id [] v = tt
close_id-IsServed s id (l ∷ ls) (v, vs) = (
  if_cases (IsServed s) (l.id == id) (λ e. closed-IsServed s s l v) (λ e. v),
  close_id-IsServed s id ls vs,
)

close_all-IsServed :
    (s : Bool) (ls : List Listener) → All (IsServed s) ls → All (IsServed true) (close_all ls)
unfolding close_all
close_all-IsServed s [] v = tt
close_all-IsServed s (l ∷ ls) (v, vs) = (closed-IsServed s true l v, close_all-IsServed s ls vs)

taken-bounded : (q : List Bytes) → length q ≤ audio_backlog → length (after_first q) ≤ audio_backlog
taken-bounded [] b = b
taken-bounded (c ∷ q) b = omega (arith, b)

receive_id-IsServed :
    (s : Bool) (id : ℕ) (ls : List Listener)
    → All (IsServed s) ls
    → All (IsServed s) (receive_id id ls)
unfolding receive_id
receive_id-IsServed s id [] v = tt
receive_id-IsServed s id (l ∷ ls) (v, vs) = (
  if_cases (IsServed s) (l.id == id)
      (λ e. record { bounded = taken-bounded l.queue v.bounded; shut = v.shut }) (λ e. v),
  receive_id-IsServed s id ls vs,
)

call-IsValid : (b : Broadcaster) (c : Call) → IsValid b → IsValid (call b c)
unfolding call publish subscribe unsubscribe close
call-IsValid b (publishes c) v =
    if_cases (All (IsServed b.closed)) b.closed (λ e. v)
      (λ e. offer_all-IsServed b.closed c b.listeners v)
call-IsValid b subscribes v =
    All-append (IsServed b.closed) b.listeners _ v
      (record { bounded = omega arith; shut = λ e. ground arith }, tt)
call-IsValid b (unsubscribes id) v = close_id-IsServed b.closed id b.listeners v
call-IsValid b closes v =
    if_cases (All (IsServed true)) b.closed (λ e. subst (λ s. All (IsServed s) b.listeners) e v)
      (λ e. close_all-IsServed b.closed b.listeners v)
call-IsValid b (receives id) v = receive_id-IsServed b.closed id b.listeners v

run-IsValid : (b : Broadcaster) (cs : List Call) → IsValid b → IsValid (run b cs)
unfolding run
run-IsValid b [] v = v
run-IsValid b (c ∷ cs) v = run-IsValid (call b c) cs (call-IsValid b c v)

-- A Close among the calls.
abbrev pub is_closing : Call → Bool
is_closing (publishes c) = false
is_closing subscribes = false
is_closing (unsubscribes id) = false
is_closing closes = true
is_closing (receives id) = false

abbrev pub has_close : List Call → Bool
has_close [] = false
has_close (c ∷ cs) = is_closing c || has_close cs

call-closed : (b : Broadcaster) (c : Call) → (call b c).closed ≡ (b.closed || is_closing c)
unfolding call publish subscribe unsubscribe close
call-closed b (publishes c) = ground arith
call-closed b subscribes = ground arith
call-closed b (unsubscribes id) = ground arith
call-closed b closes = ground arith
call-closed b (receives id) = ground arith

run-closed : (b : Broadcaster) (cs : List Call) → (run b cs).closed ≡ (b.closed || has_close cs)
unfolding run
run-closed b [] = ground arith
run-closed b (c ∷ cs) =
    run-closed (call b c) cs
    ∙ ap (λ x. x || has_close cs) (call-closed b c)
    ∙ or_assoc b.closed (is_closing c) (has_close cs)
  where
    or_assoc : (x y z : Bool) → ((x || y) || z) ≡ (x || (y || z))
    or_assoc x y z = ground arith

-- After any calls, no listener's channel holds more chunks than its places, so a slow listener is
-- never buffered further; and if a Close is among the calls, every channel is closed, also those of
-- later subscriptions.
pub run-new_broadcaster-IsValid :
    (cs : List Call) → All (IsServed (has_close cs)) (run new_broadcaster cs).listeners
run-new_broadcaster-IsValid cs =
    subst (λ b. All (IsServed b) (run new_broadcaster cs).listeners) (run-closed new_broadcaster cs)
      (run-IsValid new_broadcaster cs tt)
