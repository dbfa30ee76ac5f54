-- ===== src/Stt/Connection/Account.antt =====
-- The bytes that the writer sends, counts and indexes.
use pi_live_captions.Base.{
  ℕ, zero, suc, ◌+◌, List, [], ◌∷◌, ◌++◌, Bool, false, not, Option, none, some, ◌≡◌, refl, ◌-ℤ◌,
  leb_ℤ, length, if_cases, arith,
}
use pi_live_captions.Audio.Float.{Float64}
use pi_live_captions.Audio.Format.{Duration, Time}
use pi_live_captions.Stt.Ring.{Chunk, Ring, pop, empty}
use pi_live_captions.Stt.Ring.Bounds.{IsValid as IsValidRing, push_lem, pop_lem}
use pi_live_captions.Stt.Anchor.{AnchorIndex, add}
use pi_live_captions.Stt.Anchor.Chain.{IsValid as IsValidIndex}
use pi_live_captions.Stt.Anchor.Window.{add-Adds}
use pi_live_captions.Stt.Driver.{Failure}
use pi_live_captions.Stt.Connection.{
  Writer, Output, send_audio, count_bytes, send_idle, WriteResult, writing, paused, finished,
  failed, Turn, Heard, frames_closed, notified, gate_changed, ticked, cancelled, disconnected, Move,
  drains, turns, hears, idle_interval, hear, write_chunk, turn, move, resume, write_loop,
}

abbrev pub sent_bytes : List Output → ℕ
sent_bytes [] = 0
sent_bytes (send_audio pcm ∷ out) = length pcm + sent_bytes out
sent_bytes (count_bytes n ∷ out) = sent_bytes out
sent_bytes (send_idle ∷ out) = sent_bytes out

abbrev pub counted_bytes : List Output → ℕ
counted_bytes [] = 0
counted_bytes (send_audio pcm ∷ out) = counted_bytes out
counted_bytes (count_bytes n ∷ out) = n + counted_bytes out
counted_bytes (send_idle ∷ out) = counted_bytes out

sent_bytes-append : (a b : List Output) → sent_bytes (a ++ b) ≡ sent_bytes a + sent_bytes b
sent_bytes-append [] b = omega arith
sent_bytes-append (send_audio pcm ∷ a) b = omega (arith, sent_bytes-append a b)
sent_bytes-append (count_bytes n ∷ a) b = sent_bytes-append a b
sent_bytes-append (send_idle ∷ a) b = sent_bytes-append a b

counted_bytes-append :
    (a b : List Output) → counted_bytes (a ++ b) ≡ counted_bytes a + counted_bytes b
counted_bytes-append [] b = omega arith
counted_bytes-append (send_audio pcm ∷ a) b = counted_bytes-append a b
counted_bytes-append (count_bytes n ∷ a) b = omega (arith, counted_bytes-append a b)
counted_bytes-append (send_idle ∷ a) b = counted_bytes-append a b

pub record IsReady (w : Writer) : Type 0 where
  pub index : IsValidIndex w.idx
  pub ring : IsValidRing w.ring

-- Between `w` and `w'` the outputs `out` were made.
pub record Sends (w w' : Writer) (out : List Output) : Type 0 where
  pub ready : IsReady w'
  pub indexed : w'.idx.written ≡ w.idx.written + sent_bytes out
  pub counted : counted_bytes out ≡ sent_bytes out

-- While the loop goes on, all that was sent is accounted for; its ends discard the index.
pub data Accounts (w : Writer) : WriteResult × List Output → Type 0 where
  goes_on : (w' : Writer) (out : List Output) → Sends w w' out → Accounts w (writing w', out)
  pauses : (out : List Output) → Accounts w (paused, out)
  finishes : (out : List Output) → Accounts w (finished, out)
  fails : (e : Failure) (out : List Output) → Accounts w (failed e, out)

-- A round that sends no audio and keeps the index.
silent-Accounts :
    (w w' : Writer)
    → IsReady w
    → IsValidRing w'.ring
    → w'.idx ≡ w.idx
    → (out : List Output) → sent_bytes out ≡ 0
    → counted_bytes out ≡ 0
    → Accounts w (writing w', out)
silent-Accounts w w' v r e out s c = Accounts.goes_on w' out (record {
  ready = record { index = rw e v.index; ring = r };
  indexed = rw e (omega (arith, s));
  counted = omega (arith, s, c);
})

token-IsValid : (r : Ring) (b : Bool) → IsValidRing r → IsValidRing (record r { notified = b })
token-IsValid r b v = record { counted = v.counted; bounded = v.bounded }

hear-Accounts : (w : Writer) (h : Heard) → IsReady w → Accounts w (hear w h)
unfolding hear
hear-Accounts w frames_closed v =
    if_cases (Accounts w) (empty w.ring) (λ e. Accounts.finishes [])
      (λ e. silent-Accounts w _ v v.ring refl [] refl refl)
hear-Accounts w notified v =
    silent-Accounts w _ v (token-IsValid w.ring false v.ring) refl [] refl refl
hear-Accounts w gate_changed v = silent-Accounts w _ v v.ring refl [] refl refl
hear-Accounts w (ticked now none after) v =
    if_cases (Accounts w) (leb_ℤ idle_interval (now -ℤ w.last_activity))
      (λ e. silent-Accounts w _ v v.ring refl (send_idle ∷ []) refl refl)
      (λ e. silent-Accounts w _ v v.ring refl [] refl refl)
hear-Accounts w (ticked now (some x) after) v =
    if_cases (Accounts w) (leb_ℤ idle_interval (now -ℤ w.last_activity)) (λ e. Accounts.fails x _)
      (λ e. silent-Accounts w _ v v.ring refl [] refl refl)
hear-Accounts w cancelled v = Accounts.finishes []
hear-Accounts w (disconnected e) v = Accounts.fails e []

module _ (fl : Float64) where
  add_counted :
      (a : AnchorIndex) (n : ℕ) (captured sent : Time) (source : Duration)
      → IsValidIndex a
      → IsValidIndex (add fl a n captured sent source)
        × ((add fl a n captured sent source).written ≡ a.written + n)
  unfolding add
  add_counted a zero c s d v = (v, omega arith)
  add_counted a (suc n) c s d v =
      let added = add-Adds fl a (suc n) c s d v (omega arith) in (added.valid, added.counted)

  sent-Accounts :
      (w : Writer) (t : Turn) (c : Chunk) (r : Ring) (o : Option Failure)
      → t.send_error ≡ o
      → IsReady w
      → IsValidRing r
      → Accounts w (write_chunk fl w t (some c, r))
  unfolding write_chunk
  sent-Accounts w t c r (some e) h v vr = rw h (Accounts.fails e _)
  sent-Accounts w t c r none h v vr =
      let added = add_counted w.idx (length c.pcm) c.captured_at (some t.now) c.offset v.index in
      rw h (
        Accounts.goes_on _ _ (record {
          ready = record { index = added.0; ring = vr };
          indexed = omega (arith, added.1);
          counted = refl;
        }))

  chunk-Accounts :
      (w : Writer) (t : Turn) (p : Option Chunk × Ring)
      → IsReady w
      → IsValidRing p.1
      → Accounts w (write_chunk fl w t p)
  unfolding write_chunk
  chunk-Accounts w t (none, r) v vr = silent-Accounts w _ v vr refl [] refl refl
  chunk-Accounts w t (some c, r) v vr = sent-Accounts w t c r t.send_error refl v vr

  move-Accounts : (w : Writer) (m : Move) → IsReady w → Accounts w (move fl w m)
  unfolding move turn
  move-Accounts w (drains g f) v =
      silent-Accounts w _ v (push_lem w.ring g f v.ring).0 refl [] refl refl
  move-Accounts w (turns t) v =
      if_cases (Accounts w) w.waiting (λ e. silent-Accounts w w v v.ring refl [] refl refl)
        (λ e.
          if_cases (Accounts w) (not t.active) (λ e'. Accounts.pauses [])
            (λ e'. chunk-Accounts w t (pop w.ring) v (pop_lem w.ring v.ring).0))
  move-Accounts w (hears h) v =
      if_cases (Accounts w) w.waiting (λ e. hear-Accounts w h v)
        (λ e. silent-Accounts w w v v.ring refl [] refl refl)

  after-Accounts :
      (w w' : Writer) (out : List Output) (r : WriteResult × List Output)
      → Sends w w' out
      → Accounts w' r
      → Accounts w (r.0, out ++ r.1)
  after-Accounts w w' out _ s (Accounts.goes_on x out' s') =
      Accounts.goes_on x (out ++ out') (record {
        ready = s'.ready;
        indexed = omega (arith, s.indexed, s'.indexed, sent_bytes-append out out');
        counted = omega (
          arith,
          s.counted,
          s'.counted,
          sent_bytes-append out out',
          counted_bytes-append out out',
        );
      })
  after-Accounts w w' out _ s (Accounts.pauses out') = Accounts.pauses (out ++ out')
  after-Accounts w w' out _ s (Accounts.finishes out') = Accounts.finishes (out ++ out')
  after-Accounts w w' out _ s (Accounts.fails e out') = Accounts.fails e (out ++ out')

  resume-Accounts :
      (w : Writer) (m : WriteResult × List Output) (rest : Writer → WriteResult × List Output)
      → Accounts w m
      → ((w' : Writer) → IsReady w' → Accounts w' (rest w'))
      → Accounts w (resume fl m rest)
  unfolding resume
  resume-Accounts w _ rest (Accounts.goes_on w' out s) f =
      after-Accounts w w' out (rest w') s (f w' s.ready)
  resume-Accounts w _ rest (Accounts.pauses out) f = Accounts.pauses out
  resume-Accounts w _ rest (Accounts.finishes out) f = Accounts.finishes out
  resume-Accounts w _ rest (Accounts.fails e out) f = Accounts.fails e out

  -- From a ready writer, whatever is drained into the ring meanwhile: as long as the loop goes on,
  -- the index is valid and has grown by exactly the bytes handed to the recognizer, which are also
  -- the bytes that the metrics counted, and the ring stays within its bounds.
  pub write_loop-Accounts :
      (w : Writer) (ms : List Move) → IsReady w → Accounts w (write_loop fl w ms)
  unfolding write_loop
  write_loop-Accounts w [] v = silent-Accounts w w v v.ring refl [] refl refl
  write_loop-Accounts w (m ∷ ms) v =
      resume-Accounts w (move fl w m) _ (move-Accounts w m v)
        (λ w' v'. write_loop-Accounts w' ms v')
