-- ===== src/Ui/Logging.antt =====
-- internal/ui/logging.go: the level of the log and the lines of the pretty handler. What slog and
-- fmt print of a value (String and %q) is an argument, as is strings.ToLower on a code point.
use pi_live_captions.Base.{
  ℕ, List, [], ◌∷◌, ◌++◌, Bool, false, not, ◌||◌, ℤ, pos, negsuc, leb_ℤ, Text, codes, text_eq, ◌==◌,
  if◌then◌else◌, map,
}
use pi_live_captions.Audio.Format.{Duration}
use pi_live_captions.Caption.Writer.Lines.{format_clock}
use pi_live_captions.Ui.Terminal.{
  Terminal, colored, write_log, ansi_dim, ansi_red, ansi_green, ansi_yellow,
}
use pi_live_captions.Ui.Status.{joined}

pub record LogConfig : Type 0 where
  pub level : Text
  pub verbose : Bool

abbrev pub level_debug : ℤ
level_debug = negsuc 3

abbrev pub level_info : ℤ
level_info = pos 0

abbrev pub level_warn : ℤ
level_warn = pos 4

abbrev pub level_error : ℤ
level_error = pos 8

-- strings.ContainsAny(s, " \t")
abbrev pub has_blank : Text → Bool
has_blank [] = false
has_blank (c ∷ cs) = c == b' ' || c == 9 || has_blank cs

pub record LogAttr : Type 0 where
  pub key : Text
  pub value : Text

pub record LogRecord : Type 0 where
  pub level : ℤ
  pub message : Text
  pub attrs : List LogAttr

module _ (lower : ℕ → ℕ) where
  unfoldable pub level_of : LogConfig → ℤ
  level_of c =
      let level = map lower c.level in
      if c.verbose
      then level_debug
      else if text_eq level (codes "debug")
      then level_debug
      else if text_eq level (codes "warn")
      then level_warn
      else if text_eq level (codes "error")
      then level_error
      else level_info

  -- Setup's SuppressCaptions.
  abbrev pub suppresses : LogConfig → Bool
  unfolding level_of
  suppresses c = not (leb_ℤ (level_of c) level_debug)

-- The handler's own attributes; WithGroup's name is never read.
pub record PrettyHandler : Type 0 where
  pub level : ℤ
  pub attrs : List LogAttr

unfoldable pub enabled : PrettyHandler → ℤ → Bool
enabled h level = leb_ℤ h.level level

unfoldable pub with_attrs : PrettyHandler → List LogAttr → PrettyHandler
with_attrs h attrs = record h { attrs = h.attrs ++ attrs }

module _ (quote : Text → Text) where
  unfoldable pub format_value : Text → Text
  format_value s = if has_blank s then quote s else s

  -- writeAttr for each attribute.
  abbrev pub attr_parts : Terminal → List LogAttr → List Text
  unfolding colored format_value
  attr_parts t [] = []
  attr_parts t (a ∷ as') =
      codes " "
      ∷ colored t ansi_dim (a.key ++ b'=' ∷ [])
      ∷ colored t ansi_dim (format_value a.value)
      ∷ attr_parts t as'

  abbrev pub head_parts : Terminal → ℤ → Text → Text × Text
  unfolding colored
  head_parts t level message =
      if leb_ℤ level_error level
      then (colored t ansi_red (codes "✕"), colored t ansi_red message)
      else if leb_ℤ level_warn level
      then (colored t ansi_yellow (codes "⚠"), colored t ansi_yellow message)
      else if leb_ℤ level level_debug
      then (colored t ansi_dim (codes "·"), colored t ansi_dim message)
      else (colored t ansi_green (codes "✓"), message)

  abbrev pub log_parts : PrettyHandler → Terminal → LogRecord → Duration → List Text
  unfolding colored format_clock
  log_parts h t r since =
      (head_parts t r.level r.message).0
      ∷ codes " "
      ∷ colored t ansi_dim (format_clock since)
      ∷ codes "  "
      ∷ (head_parts t r.level r.message).1
      ∷ (attr_parts t h.attrs ++ attr_parts t r.attrs)

  -- Handle, a given time after the handler's start.
  unfoldable pub handle_log : PrettyHandler → Terminal → LogRecord → Duration → Terminal
  handle_log h t r since = write_log t (joined (log_parts h t r since))
