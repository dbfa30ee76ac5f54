-- ===== src/Caption/Hub/Painted.antt =====
-- What was painted, what was written, and when the two agree.
use pi_live_captions.Base.{
  List, [], ◌∷◌, ◌++◌, append_assoc, append-nil, map, Bool, true, false, Option, none, some, ◌≡◌,
  refl, sym, ap, ◌∙◌, ◌≡⟨◌⟩◌, ◌∎, ℤ, Text, trim_space, if◌then◌else◌,
}
use pi_live_captions.Stt.Transcript.{Word, Transcript, text_of, word_texts, join_words}
use pi_live_captions.Caption.Event.{Kind, Event, WireWord, Line, wire_words, wire_word, join_text}
use pi_live_captions.Caption.Hub.State.{
  Hub, Output, event, final, marker, new_event, broadcast, final_calls, close_line,
}
use pi_live_captions.Caption.Hub.Publish.{append_segment, close_locked, emit}

pub join_text-nil : (a : Text) → join_text a [] ≡ a
join_text-nil [] = refl
join_text-nil (x ∷ a) = refl

join_text_assoc : (a b c : Text) → join_text (join_text a b) c ≡ join_text a (join_text b c)
join_text_assoc [] b c = refl
join_text_assoc (x ∷ a) [] c = refl
join_text_assoc (x ∷ a) (y ∷ b) [] = refl
join_text_assoc (x ∷ a) (y ∷ b) (z ∷ c) = ap (◌∷◌ x) (append_assoc a (32 ∷ y ∷ b) (32 ∷ z ∷ c))

-- The text that a viewer has been sent in an event.
abbrev pub event_text : Event → Text
event_text ev = trim_space (join_words (map (λ (w : WireWord). w.text) ev.words))

abbrev pub painted_by : Kind → Event → Text
painted_by Kind.caption ev = event_text ev
painted_by Kind.status ev = []
painted_by Kind.music ev = []
painted_by Kind.clear ev = []

-- All that was painted, joined in order.
abbrev pub painted : List Output → Text
painted [] = []
painted (event ev ∷ os) = join_text (painted_by ev.kind ev) (painted os)
painted (final l ∷ os) = painted os
painted (marker l ∷ os) = painted os

-- All the lines that were handed to OnFinal, joined in order.
abbrev pub written : List Output → Text
written [] = []
written (event ev ∷ os) = written os
written (final l ∷ os) = join_text l.text (written os)
written (marker l ∷ os) = written os

pub painted-append :
    (xs ys : List Output) → painted (xs ++ ys) ≡ join_text (painted xs) (painted ys)
painted-append [] ys = refl
painted-append (event ev ∷ xs) ys =
    ap (join_text (painted_by ev.kind ev)) (painted-append xs ys)
    ∙ sym (join_text_assoc (painted_by ev.kind ev) (painted xs) (painted ys))
painted-append (final l ∷ xs) ys = painted-append xs ys
painted-append (marker l ∷ xs) ys = painted-append xs ys

written-append : (xs ys : List Output) → written (xs ++ ys) ≡ join_text (written xs) (written ys)
written-append [] ys = refl
written-append (event ev ∷ xs) ys = written-append xs ys
written-append (final l ∷ xs) ys =
    ap (join_text l.text) (written-append xs ys)
    ∙ sym (join_text_assoc l.text (written xs) (written ys))
written-append (marker l ∷ xs) ys = written-append xs ys

ruleset joins = (painted-append, written-append, join_text-nil, join_text_assoc)

-- The record agrees with the screens.
pub record Agrees (o : List Output) (c : Text) : Type 0 where
  pub equal : join_text (written o) c ≡ painted o

abbrev line_text : Option Line → Text
line_text none = []
line_text (some l) = l.text

written-final_calls : (l : Option Line) → written (final_calls true l) ≡ line_text l
written-final_calls none = refl
written-final_calls (some l) = join_text-nil l.text

pub painted-final_calls : (b : Bool) (l : Option Line) → painted (final_calls b l) ≡ []
painted-final_calls false l = refl
painted-final_calls true none = refl
painted-final_calls true (some l) = refl

-- Of a line that closes or stays open no text is lost.
pub line_text-stays :
    (stays : Bool) (l : Line)
    → join_text (line_text (if stays then none else some l)) (if stays then l.text else []) ≡ l.text
line_text-stays true l = refl
line_text-stays false l = join_text-nil l.text

wire_words-text :
    (t : Transcript) (ws : List Word)
    → map (λ (w : WireWord). w.text) (map (wire_word t) ws) ≡ word_texts ws
unfolding wire_word
wire_words-text t [] = refl
wire_words-text t (w ∷ ws) = ap (◌∷◌ w.text) (wire_words-text t ws)

written-lines : (b : Bool) (l : Option Line) → b ≡ true → written (final_calls b l) ≡ line_text l
written-lines b l on = rw on (written-final_calls l)

-- A caption event and the lines that closed around it keep the agreement.
agree_caption :
    (b : Bool) (o : List Output) (ev : Event) (before after : Option Line) (c₀ c₁ c₂ text : Text)
    → b ≡ true
    → Agrees o c₀
    → join_text (line_text before) c₁ ≡ c₀
    → join_text (line_text after) c₂ ≡ join_text c₁ text
    → painted_by ev.kind ev ≡ text
    → Agrees (((o ++ event ev ∷ []) ++ final_calls b before) ++ final_calls b after) c₂
agree_caption b o ev before after c₀ c₁ c₂ text on a opens closes paints = record {
  equal =
      join_text (written (((o ++ event ev ∷ []) ++ final_calls b before) ++ final_calls b after)) c₂
      ≡⟨ (simp (joins, written-lines b before on, written-lines b after on)) ⟩
        join_text (written o) (join_text (line_text before) (join_text (line_text after) c₂))
      ≡⟨ ap (λ s. join_text (written o) (join_text (line_text before) s)) closes ⟩
        join_text (written o) (join_text (line_text before) (join_text c₁ text))
      ≡⟨ ap (join_text (written o)) (sym (join_text_assoc (line_text before) c₁ text)) ⟩
        join_text (written o) (join_text (join_text (line_text before) c₁) text)
      ≡⟨ ap (λ s. join_text (written o) (join_text s text)) opens ⟩
        join_text (written o) (join_text c₀ text)
      ≡⟨ sym (join_text_assoc (written o) c₀ text) ⟩ join_text (join_text (written o) c₀) text
      ≡⟨ ap (λ s. join_text s text) a.equal ⟩ join_text (painted o) text
      ≡⟨ sym (simp (joins, painted-final_calls, paints)) ⟩
        painted (((o ++ event ev ∷ []) ++ final_calls b before) ++ final_calls b after) ∎;
}

pub emit-Agrees :
    (h : Hub) (now : ℤ) (t : Transcript) (text : Text)
    → h.on_final ≡ true
    → text ≡ trim_space (text_of t)
    → Agrees h.out h.committed
    → Agrees (emit h now t text).out (emit h now t text).committed
unfolding emit broadcast new_event append_segment close_line close_locked wire_words
emit-Agrees h now t text on e a =
    agree_caption h.on_final h.out _ _ _ h.committed _ _ text on a (line_text-stays _ _)
      (line_text-stays _ _)
      (ap (λ ws. trim_space (join_words ws)) (wire_words-text t t.words) ∙ sym e)

-- The steps that paint no caption.
pub agree_final :
    (b : Bool) (o : List Output) (line : Option Line) (c c' : Text)
    → b ≡ true
    → join_text (line_text line) c' ≡ c
    → Agrees o c
    → Agrees (o ++ final_calls b line) c'
agree_final b o line c c' on closes a = record {
  equal =
      simp (joins, written-lines b line on)
        (ap (join_text (written o)) closes
          ∙ a.equal
          ∙ sym (simp (painted-final_calls, join_text-nil)));
}

pub agree_event :
    (o : List Output) (ev : Event) (c : Text)
    → painted_by ev.kind ev ≡ []
    → Agrees o c
    → Agrees (o ++ event ev ∷ []) c
agree_event o ev c silent a = record { equal = simp (joins, silent) a.equal }

pub agree_marker :
    (b : Bool) (o : List Output) (l : Line) (c : Text)
    → Agrees o c
    → Agrees (o ++ (if b then marker l ∷ [] else [])) c
agree_marker true o l c a = record { equal = simp joins a.equal }
agree_marker false o l c a = rw (append-nil o) a
