-- ===== src/Ui/Screen.antt =====
-- What a terminal that obeys the writes to stderr shows, and what it is to show.
use pi_live_captions.Base.{
  ℕ, List, [], ◌∷◌, ◌++◌, append-nil, append_assoc, Bool, true, false, not, ◌&&◌, ◌||◌, ◌≡◌, refl,
  sym, ap, subst, ◌∙◌, Text, text_eq, is_empty, ◌==◌, if◌then◌else◌, if_cases, arith,
}
use pi_live_captions.Ui.Terminal.{
  Terminal, clear_line, with_newline, print_err, print_lines, hide_status, show_status,
}

-- The lines that are complete, and the one that the cursor is on.
pub record Display : Type 0 where
  pub above : Text
  pub cursor : Text

-- A carriage return and an erasure empty the line, a newline completes it.
abbrev pub show_char : Display → ℕ → Display
show_char d c =
    if c == b'\n'
    then record { above = d.above ++ (d.cursor ++ c ∷ []); cursor = [] }
    else record d { cursor = d.cursor ++ c ∷ [] }

abbrev pub show_text : Display → Text → Display
show_text d [] = d
show_text d (c ∷ cs) = show_text (show_char d c) cs

abbrev pub show_write : Display → Text → Display
show_write d w = if text_eq w clear_line then record d { cursor = [] } else show_text d w

abbrev pub display_from : Display → List Text → Display
display_from d [] = d
display_from d (w ∷ ws) = display_from (show_write d w) ws

abbrev pub display : Terminal → Display
display t = display_from (record { above = []; cursor = [] }) t.err

-- No newline and no carriage return.
abbrev pub is_row : Text → Bool
is_row [] = true
is_row (c ∷ cs) = not (c == b'\n' || c == 13) && is_row cs

-- What lines write, and what is above then.
abbrev pub lines_text : List Text → Text
lines_text [] = []
lines_text (l ∷ ls) = with_newline l ++ lines_text ls

display_after :
    (d : Display) (ws : List Text) (w : Text)
    → display_from d (ws ++ w ∷ []) ≡ show_write (display_from d ws) w
display_after d [] w = refl
display_after d (v ∷ ws) w = display_after (show_write d v) ws w

text_before :
    (d : Display) (s : Text) (c : ℕ) → show_text d (s ++ c ∷ []) ≡ show_char (show_text d s) c
text_before d [] c = refl
text_before d (x ∷ s) c = text_before (show_char d x) s c

-- Nothing of a text is lost: it is above or on the cursor's line.
text_total :
    (d : Display) (s : Text)
    → (show_text d s).above ++ (show_text d s).cursor ≡ d.above ++ (d.cursor ++ s)
text_total d [] = ap (λ u. d.above ++ u) (sym (append-nil d.cursor))
text_total d (c ∷ s) =
    text_total (show_char d c) s
    ∙ if_cases (λ (e : Display). e.above ++ (e.cursor ++ s) ≡ d.above ++ (d.cursor ++ c ∷ s))
        (c == b'\n')
        (λ e. append_assoc d.above _ s ∙ ap (λ u. d.above ++ u) (append_assoc d.cursor (c ∷ []) s))
        (λ e. ap (λ u. d.above ++ u) (append_assoc d.cursor (c ∷ []) s))

text_of_row :
    (d : Display) (s : Text) → is_row s ≡ true → show_text d s ≡ record d { cursor = d.cursor ++ s }
text_of_row d [] h = λ i. record d { cursor = sym (append-nil d.cursor) i }
text_of_row d (c ∷ s) h =
    if_cases (λ e. show_text e s ≡ record d { cursor = d.cursor ++ c ∷ s }) (c == b'\n')
      (λ e. absurd (ground arith))
      (λ e. text_of_row (record d { cursor = d.cursor ++ c ∷ [] }) s (ground arith) ∙ λ i.
        record d { cursor = append_assoc d.cursor (c ∷ []) s i })

-- What ends in a newline is no erasure, nor is a row.
ended_of_row : (l c : Text) → is_row c ≡ true → text_eq (with_newline l) c ≡ false
ended_of_row [] [] h = refl
ended_of_row [] (d ∷ c) h = ground arith
ended_of_row (x ∷ l) [] h = refl
ended_of_row (x ∷ l) (d ∷ c) h = ground (arith, ended_of_row l c)

ended_lem : (l c : Text) → is_row c ≡ true → text_eq (with_newline l) (13 ∷ c) ≡ false
ended_lem [] c h = refl
ended_lem (x ∷ l) c h = ground (arith, ended_of_row l c h)

row_lem : (s c : Text) → is_row s ≡ true → text_eq s (13 ∷ c) ≡ false
row_lem [] c h = refl
row_lem (x ∷ s) c h = ground arith

write_ended :
    (d : Display) (l : Text)
    → show_write d (with_newline l)
      ≡ record { above = d.above ++ (d.cursor ++ with_newline l); cursor = [] }
write_ended d l =
    if_cases (λ e. e ≡ record { above = d.above ++ (d.cursor ++ with_newline l); cursor = [] })
      (text_eq (with_newline l) clear_line)
      (λ e. absurd (ground (arith, ended_lem l (27 ∷ b'[' ∷ b'K' ∷ []) refl)))
      (λ e. text_before d l b'\n' ∙ λ i. record { above = whole i; cursor = [] })
  where
    whole :
        (show_text d l).above ++ ((show_text d l).cursor ++ b'\n' ∷ [])
        ≡ d.above ++ (d.cursor ++ with_newline l)
    whole =
        sym (append_assoc (show_text d l).above (show_text d l).cursor (b'\n' ∷ []))
        ∙ ap (λ u. u ++ b'\n' ∷ []) (text_total d l)
        ∙ append_assoc d.above (d.cursor ++ l) (b'\n' ∷ [])
        ∙ ap (λ u. d.above ++ u) (append_assoc d.cursor l (b'\n' ∷ []))

write_row :
    (d : Display) (s : Text)
    → is_row s ≡ true
    → show_write d s ≡ record d { cursor = d.cursor ++ s }
write_row d s h =
    if_cases (λ e. e ≡ record d { cursor = d.cursor ++ s }) (text_eq s clear_line)
      (λ e. absurd (ground (arith, row_lem s (27 ∷ b'[' ∷ b'K' ∷ []) h))) (λ e. text_of_row d s h)

-- The status line is to be on the screen.
abbrev pub is_visible : Terminal → Bool
is_visible t = t.tty && not t.stopped && not (is_empty t.status_text)

-- Below the text `above` the screen shows nothing.
abbrev pub IsClear : Terminal → Text → Type 0
IsClear t above = display t ≡ record { above = above; cursor = [] }

pub hide_status-IsClear :
    (t : Terminal) (above cursor : Text)
    → display t ≡ record { above = above; cursor = cursor }
    → (t.status_shown ≡ false → cursor ≡ [])
    → IsClear (hide_status t) above
unfolding hide_status
hide_status-IsClear t above cursor e h =
    if_cases (λ u. IsClear u above) t.status_shown
      (λ s. display_after _ t.err clear_line ∙ λ i. record { above = (e i).above; cursor = [] })
      (λ s. e ∙ λ i. record { above = above; cursor = h s i })

pub print_err-IsClear :
    (t : Terminal) (above l : Text)
    → IsClear t above
    → IsClear (print_err t (with_newline l)) (above ++ with_newline l)
print_err-IsClear t above l e =
    display_after _ t.err (with_newline l)
    ∙ ap (λ d. show_write d (with_newline l)) e
    ∙ write_ended _ l

pub print_lines-IsClear :
    (t : Terminal) (above : Text) (ls : List Text)
    → IsClear t above
    → IsClear (print_lines t ls) (above ++ lines_text ls)
unfolding print_lines
print_lines-IsClear t above [] e = e ∙ λ i. record { above = sym (append-nil above) i; cursor = [] }
print_lines-IsClear t above (l ∷ ls) e =
    subst (IsClear (print_lines (print_err t (with_newline l)) ls))
      (append_assoc above (with_newline l) (lines_text ls))
      (print_lines-IsClear (print_err t (with_newline l)) (above ++ with_newline l) ls
        (print_err-IsClear t above l e))

-- The screen shows `above`, and below it the status line if it is to be there.
pub record Shows (t : Terminal) (above : Text) (printed : List Text) : Type 0 where
  pub screen :
      display t ≡ record { above = above; cursor = if is_visible t then t.status_text else [] }
  pub shown : t.status_shown ≡ is_visible t
  pub is_one_row : is_row t.status_text ≡ true
  pub stdout : t.out ≡ printed

pub show_status-Shows :
    (t : Terminal) (above : Text)
    → IsClear t above
    → t.status_shown ≡ false
    → is_row t.status_text ≡ true
    → Shows (show_status t) above t.out
unfolding show_status
show_status-Shows t above e h r =
    if_cases (λ u. Shows u above t.out) (is_visible t)
      (λ v. record {
        screen =
            display_after _ t.err t.status_text
            ∙ ap (λ d. show_write d t.status_text) e
            ∙ write_row _ t.status_text r
            ∙ λ i. record { above = above; cursor = if sym v i then t.status_text else [] };
        shown = sym v;
        is_one_row = r;
        stdout = refl;
      })
      (λ v. record {
        screen = e ∙ λ i. record { above = above; cursor = if sym v i then t.status_text else [] };
        shown = h ∙ sym v;
        is_one_row = r;
        stdout = refl;
      })
