-- ===== src/Caption/Writer/Compact.antt =====
-- The compaction of markers.
use pi_live_captions.Base.{
  List, [], ◌∷◌, ◌++◌, Bool, true, false, ◌&&◌, ◌≡◌, refl, ap, ◌∙◌, Text, text_eq, text_eq_sound,
  if◌then◌else◌, Bool-cases, inl, inr,
}
use pi_live_captions.Caption.Event.{Line}
use pi_live_captions.Caption.Writer.Lines.{is_marker}

-- No marker stands straight after itself.
abbrev pub IsCompact : List Line → Type 0
IsCompact [] = Unit
IsCompact (l ∷ []) = Unit
IsCompact (l ∷ l' ∷ ls) =
    ((is_marker l'.text && text_eq l'.text l.text) ≡ false) × IsCompact (l' ∷ ls)

abbrev pub marker_or_none : Text → Text
marker_or_none t = if is_marker t then t else []

-- The last line if it is a marker.
abbrev pub marker_of_last : List Line → Text
marker_of_last [] = []
marker_of_last (l ∷ []) = marker_or_none l.text
marker_of_last (l ∷ l' ∷ ls) = marker_of_last (l' ∷ ls)

no_repeat :
    (t x : Text) (m : Bool)
    → is_marker x ≡ m
    → (is_marker t && text_eq t (if m then x else [])) ≡ false
    → (is_marker t && text_eq t x) ≡ false
no_repeat t x true e h = h
no_repeat t x false e h = elim (Bool-cases (text_eq t x)) [
  | inl same ↦ rw (ap is_marker (text_eq_sound t x same) ∙ e) refl
  | inr other ↦ both_false (is_marker t) (text_eq t x) other
]
  where
    both_false : (a b : Bool) → b ≡ false → (a && b) ≡ false
    both_false true b f = f
    both_false false b f = refl

pub IsCompact-append :
    (ls : List Line) (l : Line)
    → (is_marker l.text && text_eq l.text (marker_of_last ls)) ≡ false
    → IsCompact ls
    → IsCompact (ls ++ l ∷ [])
IsCompact-append [] l n c = tt
IsCompact-append (x ∷ []) l n c = (no_repeat l.text x.text (is_marker x.text) refl n, tt)
IsCompact-append (x ∷ y ∷ ls) l n (d, c) = (d, IsCompact-append (y ∷ ls) l n c)

pub marker_of_last-append :
    (ls : List Line) (l : Line) → marker_of_last (ls ++ l ∷ []) ≡ marker_or_none l.text
marker_of_last-append [] l = refl
marker_of_last-append (x ∷ []) l = refl
marker_of_last-append (x ∷ y ∷ ls) l = marker_of_last-append (y ∷ ls) l
