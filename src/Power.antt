-- ===== src/Power.antt =====
-- The power buttons of src/main.cpp: the pins that `setup` prepares and that `handleToggle1` to
-- `handleToggle6` press for a second. `true` is HIGH. The calls are kept in their order.
pub mod Presses
mod Examples
use esp.Base.{ℕ, Bool, true, false, List, [], ◌∷◌, ◌++◌, ◌==◌, if◌then◌else◌, ◌+◌}

abbrev pub laptop_hp_1 : ℕ
laptop_hp_1 = 33

abbrev pub laptop_hp_2 : ℕ
laptop_hp_2 = 32

abbrev pub laptop_hp_3 : ℕ
laptop_hp_3 = 12

abbrev pub laptop_lenovo_1 : ℕ
laptop_lenovo_1 = 27

abbrev pub laptop_acer_1 : ℕ
laptop_acer_1 = 26

abbrev pub laptop_acer_2 : ℕ
laptop_acer_2 = 25

-- The calls that reach the pins, and the delay between them.
pub data PinCall : Type 0 where
  digital_write : ℕ → Bool → PinCall
  pin_mode_output : ℕ → PinCall
  delay : ℕ → PinCall

-- The calls of `setup` for the buttons.
unfoldable pub setup_pins : List PinCall
setup_pins =
    digital_write laptop_hp_1 false
    ∷ digital_write laptop_hp_2 false
    ∷ digital_write laptop_hp_3 false
    ∷ digital_write laptop_lenovo_1 false
    ∷ digital_write laptop_acer_1 false
    ∷ digital_write laptop_acer_2 false
    ∷ pin_mode_output laptop_hp_1
    ∷ pin_mode_output laptop_hp_2
    ∷ pin_mode_output laptop_hp_3
    ∷ pin_mode_output laptop_lenovo_1
    ∷ pin_mode_output laptop_acer_1
    ∷ pin_mode_output laptop_acer_2
    ∷ []

unfoldable pub handle_toggle1 : List PinCall
handle_toggle1 = digital_write laptop_hp_1 true ∷ delay 1000 ∷ digital_write laptop_hp_1 false ∷ []

unfoldable pub handle_toggle2 : List PinCall
handle_toggle2 = digital_write laptop_hp_2 true ∷ delay 1000 ∷ digital_write laptop_hp_2 false ∷ []

unfoldable pub handle_toggle3 : List PinCall
handle_toggle3 =
    digital_write laptop_lenovo_1 true ∷ delay 1000 ∷ digital_write laptop_lenovo_1 false ∷ []

unfoldable pub handle_toggle4 : List PinCall
handle_toggle4 =
    digital_write laptop_acer_1 true ∷ delay 1000 ∷ digital_write laptop_acer_1 false ∷ []

unfoldable pub handle_toggle5 : List PinCall
handle_toggle5 =
    digital_write laptop_acer_2 true ∷ delay 1000 ∷ digital_write laptop_acer_2 false ∷ []

unfoldable pub handle_toggle6 : List PinCall
handle_toggle6 = digital_write laptop_hp_3 true ∷ delay 1000 ∷ digital_write laptop_hp_3 false ∷ []

-- The routes /toggle1 to /toggle6.
pub data Button : Type 0 where
  toggle1 toggle2 toggle3 toggle4 toggle5 toggle6 : Button

unfoldable pub handle_toggle : Button → List PinCall
unfolding handle_toggle1 handle_toggle2 handle_toggle3 handle_toggle4 handle_toggle5 handle_toggle6
handle_toggle toggle1 = handle_toggle1
handle_toggle toggle2 = handle_toggle2
handle_toggle toggle3 = handle_toggle3
handle_toggle toggle4 = handle_toggle4
handle_toggle toggle5 = handle_toggle5
handle_toggle toggle6 = handle_toggle6

-- The one server task runs the handlers one after the other.
unfoldable pub handle_toggles : List Button → List PinCall
unfolding handle_toggle
handle_toggles [] = []
handle_toggles (b ∷ bs) = handle_toggle b ++ handle_toggles bs
