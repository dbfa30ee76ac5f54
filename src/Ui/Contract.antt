-- ===== src/Ui/Contract.antt =====
-- Every method of the terminal keeps what the screen shows.
use pi_live_captions.Base.{
  List, [], ◌∷◌, ◌++◌, append-nil, true, false, not, ◌≡◌, refl, sym, ap, subst, ◌∙◌, Text,
  if◌then◌else◌, if_cases, if_cases_both, arith,
}
use pi_live_captions.Audio.Format.{Duration}
use pi_live_captions.Ui.Terminal.{
  Terminal, with_newline, print_out, print_err, print_lines, hide_status, show_status, caption_line,
  caption, write_log, set_status, tick, stop_status,
}
use pi_live_captions.Ui.Screen.{
  is_row, lines_text, is_visible, IsClear, hide_status-IsClear, print_err-IsClear,
  print_lines-IsClear, Shows, show_status-Shows,
}

-- Hiding changes the writes and the flag alone.
pub hide_status_lem :
    (t : Terminal) → hide_status t ≡ record t { err = (hide_status t).err; status_shown = false }
unfolding hide_status
hide_status_lem t =
    if_cases (λ u. u ≡ record t { err = u.err; status_shown = false }) t.status_shown (λ e. refl)
      (λ e i. record t { status_shown = e i })

pub print_lines_lem :
    (t : Terminal) (ls : List Text) → print_lines t ls ≡ record t { err = (print_lines t ls).err }
unfolding print_lines
print_lines_lem t [] = refl
print_lines_lem t (l ∷ ls) = print_lines_lem (print_err t (with_newline l)) ls

hidden :
    (t : Terminal) (above : Text) (o : List Text) → Shows t above o → IsClear (hide_status t) above
hidden t above o v =
    hide_status-IsClear t above _ v.screen
      (λ f i. if (sym v.shown ∙ f) i then t.status_text else [])

-- Lines where no status is to be shown.
pub lines-Shows :
    (t : Terminal) (above : Text) (o ls : List Text)
    → Shows t above o
    → is_visible t ≡ false
    → Shows (print_lines t ls) (above ++ lines_text ls) o
lines-Shows t above o ls v n =
    let e = print_lines_lem t ls in
    let gone : is_visible (print_lines t ls) ≡ false = ap is_visible e ∙ n in
    record {
      screen =
          print_lines-IsClear t above ls
            (v.screen ∙ λ i. record { above = above; cursor = if n i then t.status_text else [] })
          ∙ λ i. record {
            above = above ++ lines_text ls;
            cursor = if sym gone i then (print_lines t ls).status_text else [];
          };
      shown = ap (λ u. u.status_shown) e ∙ v.shown ∙ n ∙ sym gone;
      is_one_row = ap (λ u. is_row u.status_text) e ∙ v.is_one_row;
      stdout = ap (λ u. u.out) e ∙ v.stdout;
    }

-- The status line again, below what was written where it was hidden.
again :
    (t u : Terminal) (above : Text) (o : List Text)
    → IsClear u above
    → u.status_shown ≡ false
    → u.status_text ≡ t.status_text
    → u.out ≡ o
    → is_row t.status_text ≡ true
    → Shows (show_status u) above o
again t u above o c s e p r =
    subst (Shows (show_status u) above) p (show_status-Shows u above c s (ap is_row e ∙ r))

pub write_log-Shows :
    (t : Terminal) (above : Text) (o : List Text) (line : Text)
    → Shows t above o
    → Shows (write_log t line) (above ++ with_newline line) o
unfolding write_log
write_log-Shows t above o line v =
    let h = hide_status_lem t in
    again t _ _ o (print_err-IsClear (hide_status t) above line (hidden t above o v))
      (ap (λ u. u.status_shown) h) (ap (λ u. u.status_text) h) (ap (λ u. u.out) h ∙ v.stdout)
      v.is_one_row

pub caption-Shows :
    (t : Terminal) (above : Text) (o : List Text) (at : Duration) (text : Text)
    → Shows t above o
    → Shows
        (caption t at text)
        above
        (o ++ (if t.suppress_captions then [] else caption_line t at text ∷ []))
unfolding caption
caption-Shows t above o at text v =
    let h = hide_status_lem t in
    let u = print_out (hide_status t) (caption_line t at text) in
    if_cases_both (λ u p. Shows u above (o ++ p)) t.suppress_captions
      (λ e. subst (Shows t above) (sym (append-nil o)) v)
      (λ e.
        again t u above (o ++ caption_line t at text ∷ []) (hidden t above o v)
          (ap (λ u. u.status_shown) h) (ap (λ u. u.status_text) h)
          (ap (λ u. u.out ++ caption_line t at text ∷ []) h
            ∙ ap (λ p. p ++ caption_line t at text ∷ []) v.stdout)
          v.is_one_row)

pub set_status-Shows :
    (t : Terminal) (above : Text) (o : List Text) (s : Text)
    → is_row s ≡ true
    → Shows t above o
    → Shows (set_status t s) above o
unfolding set_status
set_status-Shows t above o s r v =
    if_cases (λ u. Shows u above o) t.stopped (λ e. v)
      (λ e.
        let t' : Terminal = record t { status_text = s } in
        let h = hide_status_lem t' in
        again t' _ above o
          (hide_status-IsClear t' above _ v.screen
            (λ f i. if (sym v.shown ∙ f) i then t.status_text else []))
          (ap (λ u. u.status_shown) h) (ap (λ u. u.status_text) h) (ap (λ u. u.out) h ∙ v.stdout) r)

pub tick-Shows :
    (t : Terminal) (above : Text) (o : List Text) (s : Text)
    → is_row s ≡ true
    → Shows t above o
    → Shows (tick t s) above o
unfolding tick
tick-Shows t above o s r v =
    if_cases (λ u. Shows u above o) (not t.tty) (λ e. v) (λ e. set_status-Shows t above o s r v)

stopped_lem : (t : Terminal) → is_visible (record t { stopped = true }) ≡ false
stopped_lem t = ground arith

pub stop_status-Shows :
    (t : Terminal) (above : Text) (o : List Text)
    → Shows t above o
    → Shows (stop_status t) above o × (is_visible (stop_status t) ≡ false)
unfolding stop_status
stop_status-Shows t above o v =
    if_cases (λ u. Shows u above o × (is_visible u ≡ false)) t.stopped (λ e. (v, ground arith))
      (λ e.
        let t' : Terminal = record t { stopped = true } in
        let h = hide_status_lem t' in
        let gone : is_visible (hide_status t') ≡ false = ap is_visible h ∙ stopped_lem t in
        (
          record {
            screen =
                hide_status-IsClear t' above _ v.screen
                  (λ f i. if (sym v.shown ∙ f) i then t.status_text else [])
                ∙ λ i. record {
                  above = above;
                  cursor = if sym gone i then (hide_status t').status_text else [];
                };
            shown = ap (λ u. u.status_shown) h ∙ sym gone;
            is_one_row = ap (λ u. is_row u.status_text) h ∙ v.is_one_row;
            stdout = ap (λ u. u.out) h ∙ v.stdout;
          },
          gone,
        ))
