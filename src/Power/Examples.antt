-- ===== src/Power/Examples.antt =====
-- Presses of the buttons on a board that was just set up.
use esp.Base.{◌≡◌, true, false, List, [], ◌∷◌, ◌++◌}
use esp.Power.{setup_pins, Button, toggle1, toggle4, handle_toggles}
use esp.Power.Presses.{Board, run, presses}

abbrev floating : Board
floating = record { level = λ q. true; is_output = λ q. false; high_ms = λ q. 0 }

abbrev bs : List Button
bs = toggle1 ∷ toggle4 ∷ toggle1 ∷ []

presses_example :
    let after = run floating (setup_pins ++ handle_toggles bs) in
    (after.level 33 ≡ false) × (after.is_output 33 ≡ true) × (after.high_ms 33 ≡ 2000)
presses_example = presses bs floating toggle1
