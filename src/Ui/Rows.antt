-- ===== src/Ui/Rows.antt =====
-- The status line is one row, and the session's calls keep what the screen shows.
use pi_live_captions.Base.{
  ℕ, suc, ◌/◌, ◌%◌, List, [], ◌∷◌, ◌++◌, true, not, ◌≡◌, refl, ℤ, pos, negsuc, Text, codes, text_eq,
  decimal, two_digits, digits, all_digits, all_digits-digits, eqb_ℤ, ltb, if_cases, All, All-append,
  arith,
}
use pi_live_captions.Audio.Float.{Float64}
use pi_live_captions.Audio.Format.{Duration}
use pi_live_captions.Caption.Writer.Lines.{format_clock, whole_seconds}
use pi_live_captions.Metrics.Report.{Snapshot}
use pi_live_captions.Ui.Terminal.{Terminal, colored, ansi_reset, ansi_dim, ansi_yellow, ansi_blue}
use pi_live_captions.Ui.Status.{
  joined, of_seconds, signed, counted_noun, state_glyph, clock_part, latency_part, drop_total,
  status_parts, render_status,
}
use pi_live_captions.Ui.Screen.{is_row}

abbrev IsRow : Text → Type 0
IsRow s = is_row s ≡ true

append-IsRow : (a b : Text) → IsRow a → IsRow b → IsRow (a ++ b)
append-IsRow [] b h k = k
append-IsRow (c ∷ a) b h k = ground (arith, append-IsRow a b)

joined-IsRow : (ss : List Text) → All IsRow ss → IsRow (joined ss)
joined-IsRow [] a = refl
joined-IsRow (s ∷ ss) (h, a) = append-IsRow s (joined ss) h (joined-IsRow ss a)

digits-IsRow : (s : Text) → all_digits s ≡ true → IsRow s
digits-IsRow [] h = refl
digits-IsRow (c ∷ s) h = ground (arith, digits-IsRow s)

decimal-IsRow : (n : ℕ) → IsRow (decimal n)
unfolding decimal
decimal-IsRow n = digits-IsRow (digits (suc n) n []) (all_digits-digits (suc n) n [] refl)

two_digits-IsRow : (n : ℕ) → IsRow (two_digits n)
unfolding two_digits
two_digits-IsRow n =
    if_cases IsRow (ltb n 10) (λ e. ground (arith, decimal-IsRow n)) (λ e. decimal-IsRow n)

format_clock-IsRow : (d : Duration) → IsRow (format_clock d)
unfolding format_clock
format_clock-IsRow d =
    let total = whole_seconds d in
    let m = two_digits-IsRow (total / 60 % 60) in
    let rest : IsRow (two_digits (total / 60 % 60) ++ b':' ∷ two_digits (total % 60)) =
      append-IsRow (two_digits (total / 60 % 60)) _ m (two_digits-IsRow (total % 60)) in
    if_cases IsRow (ltb 0 (total / 3600))
      (λ e. append-IsRow (decimal (total / 3600)) _ (decimal-IsRow (total / 3600)) rest) (λ e. rest)

counted_noun-IsRow : (n : ℤ) (noun : Text) → IsRow noun → IsRow (counted_noun n noun)
unfolding signed
counted_noun-IsRow n noun h =
    append-IsRow (signed n) _ (number n)
      (append-IsRow noun _ h (if_cases IsRow (eqb_ℤ n (pos 1)) (λ e. refl) (λ e. refl)))
  where
    number : (n : ℤ) → IsRow (signed n)
    number (pos k) = decimal-IsRow k
    number (negsuc k) = decimal-IsRow (suc k)

colored-IsRow : (t : Terminal) (code s : Text) → IsRow code → IsRow s → IsRow (colored t code s)
unfolding colored
colored-IsRow t code s h k =
    if_cases IsRow (not t.color) (λ e. k)
      (λ e. append-IsRow code _ h (append-IsRow s ansi_reset k refl))

state_glyph-IsRow : (t : Terminal) (state : Text) (n : ℕ) → IsRow (state_glyph t state n)
unfolding state_glyph
state_glyph-IsRow t state n =
    if_cases IsRow (text_eq state (codes "connected")) (λ e. colored-IsRow t _ _ refl refl)
      (λ e.
        if_cases IsRow (text_eq state (codes "connecting")) (λ e. colored-IsRow t _ _ refl refl)
          (λ e.
            if_cases IsRow (text_eq state (codes "reconnecting"))
              (λ e. colored-IsRow t _ _ refl (
                if_cases IsRow (ltb 0 n)
                  (λ e. append-IsRow (codes "○ reconnecting ×") (decimal n) refl (decimal-IsRow n))
                  (λ e. refl)))
              (λ e.
                if_cases IsRow (text_eq state (codes "closed")) (λ e. colored-IsRow t _ _ refl refl)
                  (λ e.
                    if_cases IsRow (text_eq state (codes "paused"))
                      (λ e. colored-IsRow t _ _ refl refl) (λ e. colored-IsRow t _ _ refl refl)))))

module _ (fl : Float64) (print0 : fl.F → Text) where
  open fl use {F}

  clock_part-IsRow : (s : Snapshot F) → IsRow (clock_part fl s)
  clock_part-IsRow s =
      let elapsed = of_seconds fl s.source.seconds_total in
      let total = of_seconds fl s.source.total_seconds in
      if_cases IsRow (fl.lt (fl.of_int (pos 0)) s.source.total_seconds)
        (λ e.
          append-IsRow (format_clock elapsed) _ (format_clock-IsRow elapsed)
            (append-IsRow (codes " / ") (format_clock total) refl (format_clock-IsRow total)))
        (λ e. format_clock-IsRow elapsed)

  bar : (t : Terminal) → IsRow (colored t ansi_dim (codes " │ "))
  bar t = colored-IsRow t ansi_dim (codes " │ ") refl refl

  -- If fmt prints no newline in a number, the status line is one row, for every snapshot.
  pub render_status-IsRow :
      (t : Terminal) (s : Snapshot F)
      → ((x : F) → is_row (print0 x) ≡ true)
      → is_row (render_status fl print0 t s) ≡ true
  unfolding render_status
  render_status-IsRow t s p = joined-IsRow (status_parts fl print0 t s) (
    colored-IsRow t ansi_blue _ refl refl,
    (
      refl,
      (
        clock_part-IsRow s,
        (
          bar t,
          (
            refl,
            (
              state_glyph-IsRow t s.stt.state s.stt.reconnects,
              All-append IsRow (latency_part fl print0 t s) _
                  (if_cases (All IsRow) (ltb 0 s.stt.latency_count)
                    (λ e. (bar t, (refl, (p _, (refl, (p _, (refl, tt))))))) (λ e. tt))
                  (
                    bar t,
                    (
                      counted_noun-IsRow s.web.clients _ refl,
                      (
                        bar t,
                        (
                          counted_noun-IsRow (pos s.stt.lines) _ refl,
                          if_cases (All IsRow) (ltb 0 (drop_total fl s))
                              (λ e. (
                                bar t,
                                (
                                  colored-IsRow t ansi_yellow _ refl
                                      (counted_noun-IsRow (pos (drop_total fl s)) _ refl),
                                  tt,
                                ),
                              ))
                              (λ e. tt),
                        ),
                      ),
                    ),
                  ),
            ),
          ),
        ),
      ),
    ),
  )
