-- ===== src/Ps2/Keyboard/Typing.antt =====
-- kernel/src/ps2/keyboard.rs: the character of a key event that waited in the buffer.
use locos.Prelude.{ℕ, ◌==◌, ◌||◌, bit_and, true, false, ◌≡◌, ◌∙◌, refl, some, List, [], ◌∷◌}
use locos.Ps2.Keyboard.{
  key_down, KeyboardState, update, KeyboardDriver, handle_interrupt, key_event_to_char, key_to_char,
  get_keyboard_state,
}
use locos.Ps2.Keyboard.Buffer.{handle_interrupt-pushes, events, updates, event_from}
use locos.Ps2.Keyboard.Characters.{to_char}
use locos.Ps2.Keyboard.Decode.{scancode_to_enum, arm}
use locos.Ps2.Keyboard.ScanCodes.{ScanCode}

-- The bytes of: left Shift pressed, and the key of a byte pressed.
abbrev pub under_shift : ℕ → List ℕ
under_shift b = 0x2A ∷ b ∷ []

-- The same, and left Shift released.
abbrev pub shifted : ℕ → List ℕ
shifted b = 0x2A ∷ b ∷ 0xAA ∷ []

-- A byte, of no extended code, that reports the press of a key, which is no modifier.
pub record Presses (b : ℕ) (s : ScanCode) : Type 0 where
  pub plain : (b == 0xE0) ≡ false
  pub down : (bit_and b 0x80 == 0) ≡ true
  pub code : scancode_to_enum (bit_and b 0x7F) false ≡ some s
  pub still : (k : KeyboardState) → update k (key_down s) ≡ k

updates-under_shift :
    (b : ℕ) (s : ScanCode) (k : KeyboardState)
    → Presses b s
    → updates k (events false (under_shift b)) ≡ record k { left_shift_down = true }
unfolding events updates event_from scancode_to_enum arm update
updates-under_shift b s k p =
    rw (p.plain, p.code, p.down, p.still (record k { left_shift_down = true })) refl

updates-shifted :
    (b : ℕ) (s : ScanCode) (k : KeyboardState)
    → Presses b s
    → updates k (events false (shifted b)) ≡ record k { left_shift_down = false }
unfolding events updates event_from scancode_to_enum arm update
updates-shifted b s k p =
    rw (p.plain, p.code, p.down, p.still (record k { left_shift_down = true })) refl

-- A driver after some bytes gives an event of a key the character of the table, by the Shift and Caps
-- Lock keys of its state.
key_event_to_char_state :
    (d : KeyboardDriver) (bytes : List ℕ) (s : ScanCode) (k : KeyboardState)
    → updates d.state (events d.extended_scancode bytes) ≡ k
    → (d' : KeyboardDriver) × (handle_interrupt (some d) bytes ≡ some d')
      × (key_event_to_char (some d') (key_down s)
          ≡ to_char (k.left_shift_down || k.right_shift_down) k.caps_lock_on s)
unfolding key_event_to_char key_to_char get_keyboard_state
key_event_to_char_state d bytes s k e =
    let (d', done, _, state) = handle_interrupt-pushes d bytes in
    let after : d'.state ≡ k = state ∙ e in (d', done, rw after refl)

-- Left Shift and then a key are pressed: the event of that key, read now, gives its shifted character.
-- The same event, read after left Shift was released, gives the unshifted one. Before the bytes no
-- extended code was begun and the right Shift key is up; the key is no modifier, and its byte is not
-- an extended one.
pub key_event_to_char_late :
    (d : KeyboardDriver) (b : ℕ) (s : ScanCode)
    → d.extended_scancode ≡ false
    → d.state.right_shift_down ≡ false
    → Presses b s
    → ((d₁ : KeyboardDriver) × (handle_interrupt (some d) (under_shift b) ≡ some d₁)
        × (key_event_to_char (some d₁) (key_down s) ≡ to_char true d.state.caps_lock_on s))
      × ((d₂ : KeyboardDriver) × (handle_interrupt (some d) (shifted b) ≡ some d₂)
          × (key_event_to_char (some d₂) (key_down s) ≡ to_char false d.state.caps_lock_on s))
key_event_to_char_late d b s ext right p =
    let (d₁, done₁, c₁) =
      key_event_to_char_state d (under_shift b) s (record d.state { left_shift_down = true })
        (rw ext (updates-under_shift b s d.state p)) in
    let (d₂, done₂, c₂) =
      key_event_to_char_state d (shifted b) s (record d.state { left_shift_down = false })
        (rw ext (updates-shifted b s d.state p)) in
    ((d₁, done₁, c₁), (d₂, done₂, c₂ ∙ (rw right refl)))
