-- ===== src/Ui/Session.antt =====
-- A session's calls keep what the screen shows.
use pi_live_captions.Base.{
  List, [], ◌∷◌, ◌++◌, append-nil, append_assoc, Bool, true, false, is_empty, not, ◌&&◌, ◌≡◌, refl,
  sym, ap, subst, ◌∙◌, Text, if◌then◌else◌, if_cases, arith,
}
use pi_live_captions.Audio.Float.{Float64}
use pi_live_captions.Audio.Format.{Duration}
use pi_live_captions.Ui.Terminal.{
  print_lines, with_newline, Terminal, new_terminal, hide_status, show_status, caption, write_log,
  banner, ready, stop_status,
}
use pi_live_captions.Ui.Status.{render_status}
use pi_live_captions.Ui.Summary.{summarize}
use pi_live_captions.Ui.Calls.{
  Call, banners, readies, logs, captions, ticks, summarizes, IsTimely, has_started, InOrder, call,
  run, lines_of, printed_of,
}
use pi_live_captions.Ui.Screen.{is_row, lines_text, is_visible, Shows}
use pi_live_captions.Ui.Contract.{
  hide_status_lem, print_lines_lem, lines-Shows, write_log-Shows, caption-Shows, tick-Shows,
  stop_status-Shows,
}
use pi_live_captions.Ui.Rows.{render_status-IsRow}

unseen : (t : Terminal) → t.status_text ≡ [] → is_visible t ≡ false
unseen t e =
    subst (λ s. (t.tty && not t.stopped && not (is_empty s)) ≡ false) (sym e) (ground arith)

show_status_text : (t : Terminal) → (show_status t).status_text ≡ t.status_text
unfolding show_status
show_status_text t =
    if_cases (λ (u : Terminal). u.status_text ≡ t.status_text) (is_visible t) (λ e. refl)
      (λ e. refl)

hide_status_text : (t : Terminal) → (hide_status t).status_text ≡ t.status_text
hide_status_text t = ap (λ u. u.status_text) (hide_status_lem t)

lines_status : (t : Terminal) (ls : List Text) → (print_lines t ls).status_text ≡ t.status_text
lines_status t ls = ap (λ u. u.status_text) (print_lines_lem t ls)

caption_status :
    (t : Terminal) (at : Duration) (text : Text) → (caption t at text).status_text ≡ t.status_text
unfolding caption
caption_status t at text =
    if_cases (λ (u : Terminal). u.status_text ≡ t.status_text) t.suppress_captions (λ e. refl)
      (λ e. show_status_text _ ∙ hide_status_text t)

stop_status_text : (t : Terminal) → (stop_status t).status_text ≡ t.status_text
unfolding stop_status
stop_status_text t =
    if_cases (λ (u : Terminal). u.status_text ≡ t.status_text) t.stopped (λ e. refl)
      (λ e. hide_status_text _)

-- Before the first tick there is no status.
Begins : Bool → Terminal → Type 0
Begins started t = started ≡ false → t.status_text ≡ []

carry :
    {t : Terminal} {a a' : Text} {o o' : List Text} → a ≡ a' → o ≡ o' → Shows t a o → Shows t a' o'
carry {t} {a} {a'} {o} {o'} e f v = subst (λ u. Shows t u o') e (subst (Shows t a) f v)

module _ (fl : Float64) (print0 print1 : fl.F → Text) where
  open fl use {F}

  -- What a history is to leave above the status line, and on stdout.
  unfoldable pub above_of : Terminal → List (Call F) → Text
  unfolding call
  above_of t [] = []
  above_of t (c ∷ cs) =
      lines_text (lines_of fl print0 print1 t c) ++ above_of (call fl print0 print1 t c) cs

  unfoldable pub stdout_of : Terminal → List (Call F) → List Text
  unfolding call
  stdout_of t [] = []
  stdout_of t (c ∷ cs) = printed_of fl print0 print1 t c ++ stdout_of (call fl print0 print1 t c) cs

  module _ (print0_row : (x : F) → is_row (print0 x) ≡ true) where
    step-Shows :
        (started : Bool) (t : Terminal) (above : Text) (o : List Text) (c : Call F)
        → IsTimely started c
        → Begins started t
        → Shows t above o
        → Shows
            (call fl print0 print1 t c)
            (above ++ lines_text (lines_of fl print0 print1 t c))
            (o ++ printed_of fl print0 print1 t c)
          × Begins (has_started started c) (call fl print0 print1 t c)
    unfolding call Begins banner ready write_log summarize lines_of printed_of
    step-Shows started t above o (banners title fields) h b v = (
      carry refl (sym (append-nil o)) (lines-Shows t above o _ v (unseen t (b h))),
      λ e. lines_status t _ ∙ b e,
    )
    step-Shows started t above o (readies msg) h b v = (
      carry refl (sym (append-nil o)) (lines-Shows t above o _ v (unseen t (b h))),
      λ e. lines_status t _ ∙ b e,
    )
    step-Shows started t above o (logs line) h b v = (
      carry (ap (λ l. above ++ l) (sym (append-nil (with_newline line)))) (sym (append-nil o))
          (write_log-Shows t above o line v),
      λ e. show_status_text _ ∙ hide_status_text t ∙ b e,
    )
    step-Shows started t above o (captions at text) h b v = (
      carry (sym (append-nil above)) refl (caption-Shows t above o at text v),
      λ e. caption_status t at text ∙ b e,
    )
    step-Shows started t above o (ticks s) h b v = (
      carry (sym (append-nil above)) (sym (append-nil o)) (
          tick-Shows t above o (render_status fl print0 t s)
            (render_status-IsRow fl print0 t s print0_row) v),
      λ e. absurd (ground arith),
    )
    step-Shows started t above o (summarizes s m) h b v =
        let p = stop_status-Shows t above o v in
        (
          carry refl (sym (append-nil o)) (lines-Shows (stop_status t) above o _ p.0 p.1),
          λ e. lines_status (stop_status t) _ ∙ stop_status_text t ∙ b e,
        )

    run-Shows :
        (started : Bool) (t : Terminal) (above : Text) (o : List Text) (cs : List (Call F))
        → InOrder started cs
        → Begins started t
        → Shows t above o
        → Shows (run fl print0 print1 t cs) (above ++ above_of t cs) (o ++ stdout_of t cs)
    unfolding run above_of stdout_of
    run-Shows started t above o [] h b v = carry (sym (append-nil above)) (sym (append-nil o)) v
    run-Shows started t above o (c ∷ cs) (h, r) b v =
        let p = step-Shows started t above o c h b v in
        carry (append_assoc above _ _) (append_assoc o _ _) (
          run-Shows (has_started started c) (call fl print0 print1 t c)
            (above ++ lines_text (lines_of fl print0 print1 t c))
            (o ++ printed_of fl print0 print1 t c) cs r p.1 p.0)

    -- If fmt prints no newline in a number: of a session that prints its banner before its status
    -- line starts, the screen shows the lines that were logged and printed, whole and in their order,
    -- and below them the last status line, if stderr is a terminal and no summary was printed; stdout
    -- has the captions' lines alone, in their order.
    pub run-new_terminal-Shows :
        (tty color suppress : Bool) (cs : List (Call F))
        → InOrder false cs
        → Shows
            (run fl print0 print1 (new_terminal tty color suppress) cs)
            (above_of (new_terminal tty color suppress) cs)
            (stdout_of (new_terminal tty color suppress) cs)
    unfolding new_terminal Begins
    run-new_terminal-Shows tty color suppress cs h =
        let gone = unseen (new_terminal tty color suppress) refl in
        run-Shows false (new_terminal tty color suppress) [] [] cs h (λ e. refl)
          (record {
            screen = λ i. record { above = []; cursor = if sym gone i then [] else [] };
            shown = sym gone;
            is_one_row = refl;
            stdout = refl;
          })
