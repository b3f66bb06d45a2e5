-- ===== src/Ps2/Keyboard/Tests.antt =====
-- The theorems on the keyboard at a new driver.
use locos.Prelude.{◌≡◌, ◌≤◌, refl, arith, true, false, some, [], ◌∷◌, ◌++◌, take, length, ◌||◌}
use locos.Ps2.Keyboard.{
  key_down, KeyboardState, update, KeyboardDriver, new, handle_interrupt, key_event_to_char,
}
use locos.Ps2.Keyboard.Buffer.{events, updates, handle_interrupt-events}
use locos.Ps2.Keyboard.ScanCodes.{discriminant, is_character, key_a, delete, enter}
use locos.Ps2.Keyboard.Characters.{to_char, is_some, is_control, to_char-is_character}
use locos.Ps2.Keyboard.Decode.{
  scancode_to_enum, arm, is_extended, scancode_to_enum-discriminant, discriminant-scancode_to_enum,
}
use locos.Ps2.Keyboard.Typing.{key_event_to_char_late}

handle_interrupt-events_example :
    (d : KeyboardDriver) × (handle_interrupt (some new) (0xE0 ∷ 0x53 ∷ 0x1E ∷ []) ≡ some d)
    × (d.input_buffer ≡ take 256 ([] ++ events false (0xE0 ∷ 0x53 ∷ 0x1E ∷ [])))
    × (length d.input_buffer ≤ 256)
    × (d.state ≡ updates new.state (events false (0xE0 ∷ 0x53 ∷ 0x1E ∷ [])))
handle_interrupt-events_example =
    handle_interrupt-events new (0xE0 ∷ 0x53 ∷ 0x1E ∷ []) (omega arith)

to_char-is_character_example :
    is_some (to_char true false enter) ≡ (is_character enter || is_control enter)
to_char-is_character_example = to_char-is_character true false enter

scancode_to_enum-discriminant_example :
    scancode_to_enum (discriminant delete) (is_extended delete) ≡ some delete
scancode_to_enum-discriminant_example = scancode_to_enum-discriminant delete

key_a_code : scancode_to_enum 0x1E false ≡ some key_a
unfolding scancode_to_enum arm
key_a_code = refl

discriminant-scancode_to_enum_example : (discriminant key_a ≡ 0x1E) × (is_extended key_a ≡ false)
discriminant-scancode_to_enum_example = discriminant-scancode_to_enum 0x1E false key_a key_a_code

key_a_plain : (k : KeyboardState) → update k (key_down key_a) ≡ k
unfolding update
key_a_plain k = refl

key_event_to_char_late_example :
    ((d : KeyboardDriver) × (handle_interrupt (some new) (0x2A ∷ 0x1E ∷ []) ≡ some d)
      × (key_event_to_char (some d) (key_down key_a) ≡ to_char true false key_a))
    × ((d : KeyboardDriver) × (handle_interrupt (some new) (0x2A ∷ 0x1E ∷ 0xAA ∷ []) ≡ some d)
        × (key_event_to_char (some d) (key_down key_a) ≡ to_char false false key_a))
key_event_to_char_late_example =
    key_event_to_char_late new 0x1E key_a refl refl
      (record { plain = refl; down = refl; code = key_a_code; still = key_a_plain })
