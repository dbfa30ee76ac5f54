-- ===== src/Stt/Anchor/Chain.antt =====
-- The entries of an index are adjoining pieces of the stream; what Add keeps and `covering` finds.
use pi_live_captions.Base.{
  ℕ, zero, suc, ◌≤◌, ◌<◌, List, [], ◌∷◌, ◌++◌, true, false, Option, none, some, ◌≡◌, refl, ap, ◌∙◌,
  ℤ, pos, ◌≤ℤ◌, ◌<ℤ◌, ltb_ℤ, leb_ℤ, length, last_or, get_elem?, arith, Bool-cases, inl, inr,
}
use pi_live_captions.Stt.Anchor.{
  Anchor, AnchorIndex, max_anchors, search_index, ends_after, covering_in, covering,
}
use pi_live_captions.Stt.Anchor.Search.{IsMonotone, IsLeast, search_index_lem}

-- The entries adjoin each other from `s` on, are not empty, and end at `w`.
abbrev pub Chain : ℕ → List Anchor → ℕ → Type 0
Chain s [] w = s ≡ w
Chain s (e ∷ es) w = (e.start_byte ≡ s) × (s < e.end_byte) × Chain e.end_byte es w

ends_after_later :
    (s w j : ℕ) (es : List Anchor) (want : ℤ)
    → Chain s es w
    → want <ℤ pos s
    → j < length es
    → ends_after es want j ≡ true
unfolding ends_after
ends_after_later s w j [] want c lt h = absurd (omega arith)
ends_after_later s w zero (e ∷ es) want c lt h = ground arith
ends_after_later s w (suc j) (e ∷ es) want c lt h =
    ends_after_later e.end_byte w j es want c.2 (omega arith) (omega arith)

ends_after-IsMonotone :
    (s w : ℕ) (es : List Anchor) (want : ℤ)
    → Chain s es w
    → IsMonotone (length es) (ends_after es want)
unfolding ends_after
ends_after-IsMonotone s w [] want c i j le lt h = absurd (omega arith)
ends_after-IsMonotone s w (e ∷ es) want c zero zero le lt h = h
ends_after-IsMonotone s w (e ∷ es) want c zero (suc j) le lt h =
    ends_after_later e.end_byte w j es want c.2 (ground arith) (omega arith)
ends_after-IsMonotone s w (e ∷ es) want c (suc i) zero le lt h = absurd (omega arith)
ends_after-IsMonotone s w (e ∷ es) want c (suc i) (suc j) le lt h =
    ends_after-IsMonotone e.end_byte w es want c.2 i j (omega arith) (omega arith) h

least-holds :
    (s w k : ℕ) (es : List Anchor) (want : ℤ)
    → Chain s es w
    → pos s ≤ℤ want
    → want <ℤ pos w
    → IsLeast (length es) k (ends_after es want)
    → (e : Anchor) × (get_elem? es k ≡ some e)
      × (pos e.start_byte ≤ℤ want)
      × (want <ℤ pos e.end_byte)
unfolding ends_after
least-holds s w k [] want c lo hi l = absurd (omega arith)
least-holds s w zero (e ∷ es) want c lo hi l =
    let h : ltb_ℤ want (pos e.end_byte) ≡ true = l.holds (omega arith) in
    (e, refl, omega arith, ground arith)
least-holds s w (suc k) (e ∷ es) want c lo hi l =
    let h : ltb_ℤ want (pos e.end_byte) ≡ false = l.before 0 (omega arith) in
    least-holds e.end_byte w k es want c.2 (ground arith) hi (record {
      within = omega (arith, l.within);
      before = λ i lt. l.before (suc i) (omega arith);
      holds = λ lt. l.holds (omega arith);
    })

-- What `covering` may answer for the position `want`: the entry around it, the newest entry for a
-- position that is not written yet, or none, before anything is written or once it is evicted.
pub data Covers (a : AnchorIndex) (want : ℤ) : Option Anchor → Type 0 where
  nothing_sent : a.entries ≡ [] → Covers a want none
  evicted :
      (e : Anchor) (es : List Anchor)
      → a.entries ≡ e ∷ es
      → want <ℤ pos e.start_byte
      → Covers a want none
  inside :
      (e : Anchor) (i : ℕ)
      → get_elem? a.entries i ≡ some e
      → pos e.start_byte ≤ℤ want
      → want <ℤ pos e.end_byte
      → Covers a want (some e)
  newest :
      (e : Anchor) (older : List Anchor)
      → a.entries ≡ older ++ e ∷ []
      → e.end_byte ≡ a.written
      → pos a.written ≤ℤ want
      → Covers a want (some e)

pub record IsValid (a : AnchorIndex) : Type 0 where
  pub first : ℕ
  pub chain : Chain first a.entries a.written
  pub few : length a.entries ≤ max_anchors
  pub begun : 0 < a.written → 0 < length a.entries

last_or-split :
    (s w : ℕ) (e : Anchor) (es : List Anchor)
    → Chain s (e ∷ es) w
    → ((older : List Anchor) × (e ∷ es ≡ older ++ last_or e es ∷ []))
      × ((last_or e es).end_byte ≡ w)
last_or-split s w e [] c = (([], refl), c.2)
last_or-split s w e (f ∷ es) c =
    let ((older, split), ends) = last_or-split e.end_byte w f es c.2 in
    ((e ∷ older, ap (◌∷◌ e) split), ends)

covering_in-Covers :
    (a : AnchorIndex) (s : ℕ) (es : List Anchor) (want : ℤ)
    → a.entries ≡ es
    → Chain s es a.written
    → Covers a want (covering_in es a.written want)
unfolding covering_in
covering_in-Covers a s [] want same c = Covers.nothing_sent same
covering_in-Covers a s (e ∷ es) want same c = elim (Bool-cases (leb_ℤ (pos a.written) want)) [
  | inl past ↦ rw past (at_end (last_or-split s a.written e es c) (ground arith))
  | inr more ↦ elim (Bool-cases (ltb_ℤ want (pos e.start_byte))) [
    | inl gone ↦ rw (more, gone) (Covers.evicted e es same (ground arith))
    | inr here ↦
        rw (more, here)
          (found (
            least-holds s a.written (search_index (length (e ∷ es)) (ends_after (e ∷ es) want))
              (e ∷ es) want c (ground (arith, c.0)) (ground arith)
              (search_index_lem (length (e ∷ es)) (ends_after (e ∷ es) want)
                (ends_after-IsMonotone s a.written (e ∷ es) want c))))
  ]
]
  where
    at_end :
        ((older : List Anchor) × (e ∷ es ≡ older ++ last_or e es ∷ []))
          × ((last_or e es).end_byte ≡ a.written)
        → pos a.written ≤ℤ want
        → Covers a want (some (last_or e es))
    at_end ((older, split), ends) h = Covers.newest (last_or e es) older (same ∙ split) ends h

    found :
        (x : Anchor) × (get_elem?
              (e ∷ es)
              (search_index (length (e ∷ es)) (ends_after (e ∷ es) want))
            ≡ some x)
          × (pos x.start_byte ≤ℤ want)
          × (want <ℤ pos x.end_byte)
        → Covers a want
            (get_elem? (e ∷ es) (search_index (length (e ∷ es)) (ends_after (e ∷ es) want)))
    found (x, hit, lo, hi) = rw hit (
        Covers.inside x (search_index (length (e ∷ es)) (ends_after (e ∷ es) want)) (rw same hit) lo
          hi)

-- On a valid index `covering` answers with the entry around the position; with the newest entry, which
-- ends at the last byte written, for a position that is not written yet; and with none only before
-- anything is kept, or for a position before the oldest entry.
pub covering-Covers : (a : AnchorIndex) (want : ℤ) → IsValid a → Covers a want (covering a want)
unfolding covering
covering-Covers a want v = covering_in-Covers a v.first a.entries want refl v.chain
