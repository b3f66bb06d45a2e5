-- ===== src/Ps2/Init/Tests.antt =====
-- The theorems on the initialization of the keyboard at a controller that answers as expected.
use locos.Prelude.{◌≡◌, refl, none, some, ◌>>=◌, ok, [], ◌∷◌}
use locos.Ps2.Controller.{read_data, write_data, wait_output_buffer_full, wait_input_buffer_empty}
use locos.Ps2.Controller.Dialog.{Dialog, dialog}
use locos.Ps2.Init.{Outcome, expect, write_then, keyboard_init}
use locos.Ps2.Init.Answers.{Installed, keyboard_init-Installed, verdict, keyboard_init-verdict}
use locos.Ps2.Keyboard.{new}

abbrev good : Dialog
good = record { answers = 0xFA ∷ 0xAA ∷ 0xFA ∷ 0xFA ∷ 0xFA ∷ []; sent = [] }

abbrev done : Outcome dialog 1
done = (ok tt, some new, record { answers = []; sent = 0xF4 ∷ 0x01 ∷ 0xF0 ∷ 0xFF ∷ [] })

runs : keyboard_init dialog 1 none good ≡ some done
unfolding keyboard_init expect write_then read_data write_data wait_output_buffer_full
    wait_input_buffer_empty
runs = refl

keyboard_init-Installed_example : Installed dialog 1 none done
keyboard_init-Installed_example = keyboard_init-Installed dialog 1 none good done runs

keyboard_init-verdict_example :
    (keyboard_init dialog 1 none good >>= λ o. some o.0) ≡ some (verdict 0xFA 0xAA 0xFA 0xFA 0xFA)
keyboard_init-verdict_example = keyboard_init-verdict 0xFA 0xAA 0xFA 0xFA 0xFA none
