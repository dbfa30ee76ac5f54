-- ===== src/Ui/Terminal.antt =====
-- internal/ui/terminal.go: the terminal and its pinned status line. Its lock makes each method one
-- step; `out` and `err` are the writes to stdout and to stderr, in order.
use pi_live_captions.Base.{
  ℕ, ◌-◌, zero, suc, List, [], ◌∷◌, ◌++◌, Bool, true, false, not, ◌&&◌, Text, codes, byte_len,
  is_empty, length, ltb, if◌then◌else◌,
}
use pi_live_captions.Audio.Format.{Duration}
use pi_live_captions.Caption.Writer.Lines.{format_clock}

abbrev escape : Text → Text
escape s = 27 ∷ b'[' ∷ s

abbrev pub ansi_reset : Text
ansi_reset = escape (codes "0m")

abbrev pub ansi_dim : Text
ansi_dim = escape (codes "2m")

abbrev pub ansi_bold : Text
ansi_bold = escape (codes "1m")

abbrev pub ansi_red : Text
ansi_red = escape (codes "31m")

abbrev pub ansi_green : Text
ansi_green = escape (codes "32m")

abbrev pub ansi_yellow : Text
ansi_yellow = escape (codes "33m")

abbrev pub ansi_blue : Text
ansi_blue = escape (codes "36m")

abbrev pub clear_line : Text
clear_line = 13 ∷ escape (codes "K")

pub record Terminal : Type 0 where
  pub tty : Bool
  pub color : Bool
  pub suppress_captions : Bool
  pub status_text : Text
  pub status_shown : Bool
  pub stopped : Bool
  pub out : List Text
  pub err : List Text

-- The options' TTY, Color and SuppressCaptions.
unfoldable pub new_terminal : Bool → Bool → Bool → Terminal
new_terminal tty color suppress_captions = record {
  tty = tty;
  color = color && tty;
  suppress_captions = suppress_captions;
  status_text = [];
  status_shown = false;
  stopped = false;
  out = [];
  err = [];
}

-- c
unfoldable pub colored : Terminal → Text → Text → Text
colored t code s = if not t.color then s else code ++ (s ++ ansi_reset)

abbrev pub print_out : Terminal → Text → Terminal
print_out t w = record t { out = t.out ++ w ∷ [] }

abbrev pub print_err : Terminal → Text → Terminal
print_err t w = record t { err = t.err ++ w ∷ [] }

abbrev pub with_newline : Text → Text
with_newline line = line ++ b'\n' ∷ []

-- fmt.Fprintln for each line.
unfoldable pub print_lines : Terminal → List Text → Terminal
print_lines t [] = t
print_lines t (l ∷ ls) = print_lines (print_err t (with_newline l)) ls

unfoldable pub hide_status : Terminal → Terminal
hide_status t =
    if t.status_shown then record (print_err t clear_line) { status_shown = false } else t

unfoldable pub show_status : Terminal → Terminal
show_status t =
    if t.tty && not t.stopped && not (is_empty t.status_text)
    then record (print_err t t.status_text) { status_shown = true }
    else t

unfoldable pub caption_line : Terminal → Duration → Text → Text
caption_line t offset text =
    colored t ansi_dim (b'[' ∷ (format_clock offset ++ b']' ∷ [])) ++ b' ' ∷ (text ++ b'\n' ∷ [])

unfoldable pub caption : Terminal → Duration → Text → Terminal
caption t offset text =
    if t.suppress_captions
    then t
    else show_status (print_out (hide_status t) (caption_line t offset text))

unfoldable pub write_log : Terminal → Text → Terminal
write_log t line = show_status (print_err (hide_status t) (with_newline line))

pub record BannerField : Type 0 where
  pub label : Text
  pub value : Text
  pub note : Text

-- The width of the labels, in bytes.
abbrev pub label_width : ℕ → List BannerField → ℕ
unfolding byte_len
label_width width [] = width
label_width width (f ∷ fs) =
    label_width (if ltb width (byte_len f.label) then byte_len f.label else width) fs

abbrev pub spaces : ℕ → Text
spaces zero = []
spaces (suc n) = b' ' ∷ spaces n

-- %-*s, which counts code points.
abbrev pub padded : ℕ → Text → Text
padded width s = s ++ spaces (width - length s)

abbrev pub row : ℕ → BannerField → Text
row width f = codes "  " ++ (padded width f.label ++ (codes "  " ++ f.value))

abbrev pub banner_row : Terminal → ℕ → BannerField → Text
unfolding colored
banner_row t width f =
    if not (is_empty f.note)
    then row width f ++ (codes "  " ++ colored t ansi_dim f.note)
    else row width f

abbrev pub banner_rows : Terminal → ℕ → List BannerField → List Text
banner_rows t width [] = [] ∷ []
banner_rows t width (f ∷ fs) = banner_row t width f ∷ banner_rows t width fs

abbrev pub banner_lines : Terminal → Text → List BannerField → List Text
banner_lines t title fields =
    colored t ansi_bold title ∷ banner_rows t (label_width 0 fields) fields

unfoldable pub banner : Terminal → Text → List BannerField → Terminal
banner t title fields = print_lines t (banner_lines t title fields)

unfoldable pub ready : Terminal → Text → Terminal
ready t msg = print_lines t (colored t ansi_dim msg ∷ [])

unfoldable pub set_status : Terminal → Text → Terminal
set_status t s = if t.stopped then t else show_status (hide_status (record t { status_text = s }))

-- A tick of StartStatus with what renderStatus answers.
unfoldable pub tick : Terminal → Text → Terminal
tick t s = if not t.tty then t else set_status t s

unfoldable pub stop_status : Terminal → Terminal
stop_status t = if t.stopped then t else hide_status (record t { stopped = true })
