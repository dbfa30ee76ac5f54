-- ===== src/Stt/Anchor.antt =====
-- internal/stt/anchor.go: where the bytes of one connection's stream were captured. A byte position
-- on the stream counts up from 0, so it is a natural number; a position asked for may be negative.
pub mod Search
pub mod Chain
pub mod Window
use pi_live_captions.Base.{
  ℕ, zero, suc, ◌+◌, ◌/◌, List, [], ◌∷◌, ◌++◌, Bool, true, false, ◌||◌, Option, none, some, ℤ, pos,
  ◌-ℤ◌, ◌+ℤ◌, ltb_ℤ, leb_ℤ, eqb_ℤ, length, last_or, get_elem?, ltb, ◌==◌, if◌then◌else◌,
}
use pi_live_captions.Audio.Float.{Float64}
use pi_live_captions.Audio.Format.{Duration, Time, Format, second, duration, bytes_for}

pub record Anchor : Type 0 where
  pub start_byte : ℕ
  pub end_byte : ℕ
  pub captured_at : Time
  pub sent_at : Time
  pub source_end : Duration

pub record AnchorIndex : Type 0 where
  pub format : Format
  pub entries : List Anchor
  pub written : ℕ

abbrev pub max_anchors : ℕ
max_anchors = 4096

abbrev pub anchor_window : Duration
anchor_window = pos 30_000_000_000

unfoldable pub new_anchor_index : Format → AnchorIndex
new_anchor_index f = record { format = f; entries = []; written = 0 }

-- The loop of Add that evicts from the front.
trim : ℕ → ℤ → List Anchor → List Anchor
trim written window [] = []
trim written window (e ∷ []) = e ∷ []
trim written window (e ∷ f ∷ rest) =
    let later = trim written window (f ∷ rest) in
    if ltb_ℤ window (pos written -ℤ pos e.end_byte) || ltb max_anchors (length (e ∷ f ∷ rest))
    then later
    else e ∷ f ∷ rest

-- The loop of Go's sort.Search: the least index in [i, j) at which `p` holds, or j. Each round
-- shortens the interval, so `j - i` rounds are enough.
search_loop : ℕ → ℕ → ℕ → (ℕ → Bool) → ℕ
search_loop zero i j p = i
search_loop (suc fuel) i j p =
    let h = (i + j) / 2 in
    let left = search_loop fuel i h p in
    let right = search_loop fuel (h + 1) j p in if ltb i j then if p h then left else right else i

pub search_index : ℕ → (ℕ → Bool) → ℕ
search_index n p = search_loop n 0 n p

-- a.entries[i].endByte > want
ends_after : List Anchor → ℤ → ℕ → Bool
ends_after entries want i = elim (get_elem? entries i) [
  | none ↦ false
  | some e ↦ ltb_ℤ want (pos e.end_byte)
]

covering_in : List Anchor → ℕ → ℤ → Option Anchor
covering_in [] written want = none
covering_in (e ∷ es) written want =
    if leb_ℤ (pos written) want
    then some (last_or e es)
    else if ltb_ℤ want (pos e.start_byte)
    then none
    else get_elem? (e ∷ es) (search_index (length (e ∷ es)) (ends_after (e ∷ es) want))

unfoldable pub covering : AnchorIndex → ℤ → Option Anchor
unfolding covering_in search_index search_loop ends_after
covering a want = covering_in a.entries a.written want

module _ (fl : Float64) where
  -- What Add does with a chunk of n > 0 bytes.
  append_entry : AnchorIndex → ℕ → Time → Time → Duration → AnchorIndex
  append_entry a n captured_at sent_at source_end =
      let written = a.written + n in
      let new : Anchor = record {
        start_byte = a.written;
        end_byte = written;
        captured_at = captured_at;
        sent_at = sent_at;
        source_end = source_end;
      } in
      record a {
        entries = trim written (bytes_for fl a.format anchor_window) (a.entries ++ new ∷ []);
        written = written;
      }

  unfoldable pub add : AnchorIndex → ℕ → Time → Time → Duration → AnchorIndex
  unfolding append_entry trim
  add a n captured_at sent_at source_end =
      if n == 0 then a else append_entry a n captured_at sent_at source_end

  -- The stamps of the sample at `want` of the covering entry.
  stamps : Format → ℤ → Anchor → Option (Time × Time)
  stamps f want e = elim e.captured_at [
    | none ↦ none
    | some captured ↦
        if leb_ℤ (pos e.end_byte) want
        then some (some captured, e.sent_at)
        else some (some (captured -ℤ duration fl f (pos e.end_byte -ℤ want)), e.sent_at)
  ]

  unfoldable pub at : AnchorIndex → Duration → Option (Time × Time)
  unfolding stamps
  at a media = elim (covering a (bytes_for fl a.format media)) [
    | none ↦ none
    | some e ↦ stamps a.format (bytes_for fl a.format media) e
  ]

  source_position : Format → ℤ → Anchor → Option Duration
  source_position f want e =
      let source = e.source_end -ℤ duration fl f (pos e.end_byte -ℤ want) in
      if eqb_ℤ e.source_end (pos 0)
      then none
      else if leb_ℤ (pos e.end_byte) want
      then some e.source_end
      else some (if ltb_ℤ source (pos 0) then pos 0 else source)

  unfoldable pub source_at : AnchorIndex → Duration → Option Duration
  unfolding source_position
  source_at a media = elim (covering a (bytes_for fl a.format media)) [
    | none ↦ none
    | some e ↦ source_position a.format (bytes_for fl a.format media) e
  ]
