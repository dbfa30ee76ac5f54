-- ===== src/Ui/Tests.antt =====
-- The terminal at concrete inputs.
use pi_live_captions.Base.{List, [], ◌∷◌, ◌++◌, true, false, ◌≡◌, refl, Text, codes, ℤ, pos}
use pi_live_captions.Audio.Toy.{toy}
use pi_live_captions.Ui.Terminal.{
  new_terminal, clear_line, hide_status, show_status, write_log, set_status, tick,
}
use pi_live_captions.Ui.Calls.{Call, banners, readies, logs, captions, run}
use pi_live_captions.Ui.Screen.{Shows}
use pi_live_captions.Ui.Session.{above_of, stdout_of, run-new_terminal-Shows}

abbrev calls : List (Call ℤ)
calls =
    banners (codes "livecaption")
      (record { label = codes "source"; value = codes "live"; note = [] } ∷ [])
    ∷ readies (codes "ready")
    ∷ logs (codes "connected")
    ∷ captions (pos 7) (codes "Hello.")
    ∷ []

abbrev number : ℤ → Text
number n = codes "1"

run-new_terminal-Shows_example :
    Shows
      (run toy number number (new_terminal true true false) calls)
      (above_of toy number number (new_terminal true true false) calls)
      (stdout_of toy number number (new_terminal true true false) calls)
run-new_terminal-Shows_example =
    run-new_terminal-Shows toy number number (λ x. refl) true true false calls
      (refl, (refl, (tt, (tt, tt))))

-- A log line takes the place of the status line, which comes back below it.
logs_over_status :
    (write_log (tick (new_terminal true false false) (codes "up")) (codes "hi")).err
    ≡ codes "up" ∷ clear_line ∷ (codes "hi" ++ b'\n' ∷ []) ∷ codes "up" ∷ []
unfolding new_terminal write_log tick set_status hide_status show_status
logs_over_status = refl
