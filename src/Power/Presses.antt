-- ===== src/Power/Presses.antt =====
-- How long each pin is high.
use esp.Base.{
  ℕ, ◌+◌, ◌*◌, ◌≡◌, refl, ◌∙◌, Bool, true, false, List, [], ◌∷◌, ◌++◌, ◌==◌, if◌then◌else◌, arith,
}
use esp.Power.{
  setup_pins, PinCall, digital_write, pin_mode_output, delay, Button, toggle1, toggle2, toggle3,
  toggle4, toggle5, toggle6, handle_toggle, handle_toggles, laptop_hp_1, laptop_hp_2, laptop_hp_3,
  laptop_lenovo_1, laptop_acer_1, laptop_acer_2,
}

-- Levels of the pins, and for how many ms each was high and any two at once.
pub record Board : Type 0 where
  pub level : ℕ → Bool
  pub is_output : ℕ → Bool
  pub high_ms : ℕ → ℕ

pub perform : Board → PinCall → Board
perform p (digital_write pin v) = record p { level = λ q. if q == pin then v else p.level q }
perform p (pin_mode_output pin) = record p {
  is_output = λ q. if q == pin then true else p.is_output q;
}
perform p (delay ms) = record p { high_ms = λ q. p.high_ms q + (if p.level q then ms else 0) }

pub run : Board → List PinCall → Board
unfolding perform
run p [] = p
run p (c ∷ cs) = run (perform p c) cs

-- The pin that a button is wired to.
abbrev pub pin_of : Button → ℕ
pin_of toggle1 = laptop_hp_1
pin_of toggle2 = laptop_hp_2
pin_of toggle3 = laptop_lenovo_1
pin_of toggle4 = laptop_acer_1
pin_of toggle5 = laptop_acer_2
pin_of toggle6 = laptop_hp_3

-- How many of the presses are of this pin.
abbrev pub times_pressed : ℕ → List Button → ℕ
times_pressed q [] = 0
times_pressed q (b ∷ bs) = (if q == pin_of b then 1 else 0) + times_pressed q bs

run-append : (p : Board) (cs ds : List PinCall) → run p (cs ++ ds) ≡ run (run p cs) ds
unfolding run
run-append p [] ds = refl
run-append p (c ∷ cs) ds = run-append (perform p c) cs ds

-- One press leaves a low pin low. It was high for a second if the button is wired to it.
press :
    (p : Board) (b : Button) (q : ℕ)
    → p.level q ≡ false
    → ((run p (handle_toggle b)).level q ≡ false)
      × ((run p (handle_toggle b)).is_output q ≡ p.is_output q)
      × ((run p (handle_toggle b)).high_ms q ≡ p.high_ms q + (if q == pin_of b then 1000 else 0))
unfolding run handle_toggle
press p toggle1 q low = ground arith
press p toggle2 q low = ground arith
press p toggle3 q low = ground arith
press p toggle4 q low = ground arith
press p toggle5 q low = ground arith
press p toggle6 q low = ground arith

presses_of_low :
    (bs : List Button) (p : Board) (q : ℕ)
    → p.level q ≡ false
    → ((run p (handle_toggles bs)).level q ≡ false)
      × ((run p (handle_toggles bs)).is_output q ≡ p.is_output q)
      × ((run p (handle_toggles bs)).high_ms q ≡ p.high_ms q + 1000 * times_pressed q bs)
unfolding run handle_toggles
presses_of_low [] p q low = (low, refl, omega arith)
presses_of_low (b ∷ bs) p q low =
    let now = press p b q low in
    let rest = presses_of_low bs (run p (handle_toggle b)) q now.0 in
    rw (run-append p (handle_toggle b) (handle_toggles bs))
      (rest.0, rest.1 ∙ now.1, ground (arith, rest.2, now.2))

setup_low :
    (p : Board) (c : Button)
    → ((run p setup_pins).level (pin_of c) ≡ false)
      × ((run p setup_pins).is_output (pin_of c) ≡ true)
      × ((run p setup_pins).high_ms (pin_of c) ≡ p.high_ms (pin_of c))
unfolding run setup_pins
setup_low p toggle1 = (refl, refl, refl)
setup_low p toggle2 = (refl, refl, refl)
setup_low p toggle3 = (refl, refl, refl)
setup_low p toggle4 = (refl, refl, refl)
setup_low p toggle5 = (refl, refl, refl)
setup_low p toggle6 = (refl, refl, refl)

-- Whatever the pins were, after `setup` and any sequence of presses the pin of every button is an
-- output and low. It was high for one second for each press of its own button, and no longer.
pub presses :
    (bs : List Button) (p : Board) (c : Button)
    → let after = run p (setup_pins ++ handle_toggles bs) in
      (after.level (pin_of c) ≡ false)
      × (after.is_output (pin_of c) ≡ true)
      × (after.high_ms (pin_of c) ≡ p.high_ms (pin_of c) + 1000 * times_pressed (pin_of c) bs)
presses bs p c =
    let ready = setup_low p c in
    let rest = presses_of_low bs (run p setup_pins) (pin_of c) ready.0 in
    rw (run-append p setup_pins (handle_toggles bs))
      (rest.0, rest.1 ∙ ready.1, rest.2 ∙ rw ready.2 refl)
