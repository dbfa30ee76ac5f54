-- ===== src/Stt/Anchor/Window.antt =====
-- What Add keeps of the index: a valid index, and every position within the window.
use pi_live_captions.Base.{
  ℕ, suc, ◌+◌, ◌≤◌, ◌<◌, List, [], ◌∷◌, ◌++◌, true, ◌||◌, Option, some, ◌≡◌, refl, ap, subst, zero,
  ℤ, pos, ◌-ℤ◌, ◌≤ℤ◌, ltb_ℤ, get_elem?, length, length-append, ltb, arith, -ℤ_parts, Bool-cases,
  inl, inr,
}
use pi_live_captions.Audio.Float.{Float64}
use pi_live_captions.Audio.Format.{Duration, Time, Format, bytes_for}
use pi_live_captions.Stt.Anchor.{
  Anchor, AnchorIndex, max_anchors, anchor_window, new_anchor_index, trim, covering, append_entry,
  add,
}
use pi_live_captions.Stt.Anchor.Chain.{Chain, IsValid, Covers, covering-Covers}

-- `kept` is what `trim` leaves of the entries `all`, which begin at `s` and end at `w`.
record Trimmed (s w : ℕ) (window : ℤ) (all kept : List Anchor) : Type 0 where
  first : ℕ
  chain : Chain first kept w
  few : length all ≤ suc max_anchors → length kept ≤ max_anchors
  some_left : 0 < length all → 0 < length kept
  dropped : List Anchor
  split : all ≡ dropped ++ kept
  reach :
      (want : ℤ)
      → length all ≤ max_anchors
      → pos s ≤ℤ want
      → pos w -ℤ want ≤ℤ window
      → pos first ≤ℤ want

trim_drop :
    (s w : ℕ) (window : ℤ) (e : Anchor) (es kept : List Anchor)
    → s < e.end_byte
    → 0 < length es
    → (ltb_ℤ window (pos w -ℤ pos e.end_byte) || ltb max_anchors (length (e ∷ es))) ≡ true
    → Trimmed e.end_byte w window es kept
    → Trimmed s w window (e ∷ es) kept
trim_drop s w window e es kept lt more test t = record {
  first = t.first;
  chain = t.chain;
  few = λ h. t.few (omega arith);
  some_left = λ h. t.some_left more;
  dropped = e ∷ t.dropped;
  split = ap (◌∷◌ e) t.split;
  reach = λ want h lo near.
      t.reach want (omega arith)
        (ground (arith, -ℤ_parts (pos w) (pos e.end_byte), -ℤ_parts (pos w) want)) near;
}

trim_stay :
    (s w : ℕ) (window : ℤ) (all : List Anchor)
    → Chain s all w
    → (length all ≤ suc max_anchors → length all ≤ max_anchors)
    → Trimmed s w window all all
trim_stay s w window all c few = record {
  first = s;
  chain = c;
  few = few;
  some_left = λ h. h;
  dropped = [];
  split = refl;
  reach = λ want h lo near. lo;
}

trim-Trimmed :
    (s w : ℕ) (window : ℤ) (es : List Anchor)
    → Chain s es w
    → Trimmed s w window es (trim w window es)
unfolding trim
trim-Trimmed s w window [] c = trim_stay s w window [] c (λ h. omega arith)
trim-Trimmed s w window (e ∷ []) c = trim_stay s w window (e ∷ []) c (λ h. omega arith)
trim-Trimmed s w window (e ∷ f ∷ rest) c =
    elim (Bool-cases
      (ltb_ℤ window (pos w -ℤ pos e.end_byte) || ltb max_anchors (length (e ∷ f ∷ rest)))) [
        | inl test ↦ rw test (
            trim_drop s w window e (f ∷ rest) (trim w window (f ∷ rest)) c.1 (omega arith) test
              (trim-Trimmed e.end_byte w window (f ∷ rest) c.2))
        | inr test ↦ rw test (trim_stay s w window (e ∷ f ∷ rest) c (λ h. ground arith))
      ]

Chain-append :
    (s w : ℕ) (es : List Anchor) (new : Anchor)
    → Chain s es w
    → new.start_byte ≡ w
    → w < new.end_byte
    → Chain s (es ++ new ∷ []) new.end_byte
Chain-append s w [] new c e lt = (omega arith, omega arith, refl)
Chain-append s w (x ∷ es) new c e lt = (c.0, c.1, Chain-append x.end_byte w es new c.2 e lt)

Chain-le : (s w : ℕ) (es : List Anchor) → Chain s es w → s ≤ w
Chain-le s w [] c = omega arith
Chain-le s w (e ∷ es) c = omega (arith, Chain-le e.end_byte w es c.2)

Chain-start :
    (s w i : ℕ) (es : List Anchor) (e : Anchor)
    → Chain s es w
    → get_elem? es i ≡ some e
    → s ≤ e.start_byte
Chain-start s w i [] e c h = cc
Chain-start s w zero (x ∷ es) e c h = ground arith
Chain-start s w (suc i) (x ∷ es) e c h = omega (arith, Chain-start x.end_byte w i es e c.2 h)

Covers-first :
    (a : AnchorIndex) (v : IsValid a) (want : ℤ) {r : Option Anchor} (e : Anchor)
    → Covers a want r
    → r ≡ some e
    → pos v.first ≤ℤ want
Covers-first a v want e (Covers.nothing_sent h) q = cc
Covers-first a v want e (Covers.evicted x xs h lt) q = cc
Covers-first a v want e (Covers.inside x i h lo hi) q =
    omega (arith, Chain-start v.first a.written i a.entries x v.chain h)
Covers-first a v want e (Covers.newest x older h ends past) q =
    omega (arith, Chain-le v.first a.written a.entries v.chain)

first-Covers :
    (a : AnchorIndex) (v : IsValid a) (want : ℤ) {r : Option Anchor}
    → 0 < length a.entries
    → pos v.first ≤ℤ want
    → Covers a want r
    → (e : Anchor) × (r ≡ some e)
first-Covers a v want more lo (Covers.nothing_sent h) =
    absurd (omega (arith, ap (length {A = Anchor}) h))
first-Covers a v want more lo (Covers.evicted x xs h lt) =
    absurd (omega (arith, (subst (λ es. Chain v.first es a.written) h v.chain).0))
first-Covers a v want more lo (Covers.inside x i h l hi) = (x, refl)
first-Covers a v want more lo (Covers.newest x older h ends past) = (x, refl)

-- `new` is the entry of `n` bytes with the given stamps at the end of the index `a`.
pub record IsEntry (a : AnchorIndex) (n : ℕ) (captured sent : Time) (source : Duration)
    (new : Anchor) : Type 0 where
  pub starts : new.start_byte ≡ a.written
  pub ends : new.end_byte ≡ a.written + n
  pub captured_at : new.captured_at ≡ captured
  pub sent_at : new.sent_at ≡ sent
  pub source_end : new.source_end ≡ source

-- What adding `n` bytes to the index `a` gives, with positions kept for `window` bytes.
pub record Adds (window : ℤ) (a : AnchorIndex) (n : ℕ) (captured sent : Time) (source : Duration)
    (a' : AnchorIndex) : Type 0 where
  pub valid : IsValid a'
  pub counted : a'.written ≡ a.written + n
  pub newest :
      (dropped : List Anchor) × (new : Anchor) × IsEntry a n captured sent source new
      × (a.entries ++ new ∷ [] ≡ dropped ++ a'.entries)
  pub answers :
      (want : ℤ) (e : Anchor)
      → covering a want ≡ some e
      → length a.entries < max_anchors
      → pos a'.written -ℤ want ≤ℤ window
      → (e' : Anchor) × (covering a' want ≡ some e')

pub new_anchor_index-IsValid : (f : Format) → IsValid (new_anchor_index f)
unfolding new_anchor_index
new_anchor_index-IsValid f = record {
  first = 0;
  chain = refl;
  few = omega arith;
  begun = λ h. absurd (omega arith);
}

module _ (fl : Float64) where
  append_entry-Adds :
      (a : AnchorIndex) (n : ℕ) (captured sent : Time) (source : Duration)
      → IsValid a
      → 0 < n
      → Adds
          (bytes_for fl a.format anchor_window)
          a
          n
          captured
          sent
          source
          (append_entry fl a n captured sent source)
  unfolding append_entry
  append_entry-Adds a n captured sent source v h = record {
    valid = valid;
    counted = refl;
    newest = (
      t.dropped,
      new,
      record { starts = refl; ends = refl; captured_at = refl; sent_at = refl; source_end = refl },
      t.split,
    );
    answers = keep;
  }
    where
      new : Anchor
      new = record {
        start_byte = a.written;
        end_byte = a.written + n;
        captured_at = captured;
        sent_at = sent;
        source_end = source;
      }

      a' : AnchorIndex
      a' = append_entry fl a n captured sent source

      t :
          Trimmed v.first a'.written
            (bytes_for fl a.format anchor_window)
            (a.entries ++ new ∷ [])
            a'.entries
      t =
          trim-Trimmed v.first (a.written + n) (bytes_for fl a.format anchor_window)
            (a.entries ++ new ∷ [])
            (Chain-append v.first a.written a.entries new v.chain refl (omega arith))

      size : length (a.entries ++ new ∷ []) ≡ length a.entries + 1
      size = length-append a.entries (new ∷ [])

      valid : IsValid a'
      valid = record {
        first = t.first;
        chain = t.chain;
        few = t.few (omega (arith, size, v.few));
        begun = λ _. t.some_left (omega (arith, size));
      }

      keep :
          (want : ℤ) (e : Anchor)
          → covering a want ≡ some e
          → length a.entries < max_anchors
          → pos a'.written -ℤ want ≤ℤ bytes_for fl a.format anchor_window
          → (e' : Anchor) × (covering a' want ≡ some e')
      keep want e c few near =
          first-Covers a' valid want (t.some_left (omega (arith, size)))
            (t.reach want (omega (arith, size))
              (Covers-first a v want e (covering-Covers a want v) c) near)
            (covering-Covers a' want valid)

  add-append_entry :
      (a : AnchorIndex) (n : ℕ) (captured sent : Time) (source : Duration)
      → 0 < n
      → add fl a n captured sent source ≡ append_entry fl a n captured sent source
  unfolding add
  add-append_entry a n captured sent source h = ground arith

  -- Adding n > 0 bytes keeps the index valid and counts them; the entries left are the newest ones,
  -- the added one with its stamps at their end; and a position that was answered for before, and
  -- lies within the window of the newest byte, is still answered for unless the index was full.
  pub add-Adds :
      (a : AnchorIndex) (n : ℕ) (captured sent : Time) (source : Duration)
      → IsValid a
      → 0 < n
      → Adds
          (bytes_for fl a.format anchor_window)
          a
          n
          captured
          sent
          source
          (add fl a n captured sent source)
  add-Adds a n captured sent source v h =
      rw (add-append_entry a n captured sent source h)
        (append_entry-Adds a n captured sent source v h)
