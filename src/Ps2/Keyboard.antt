-- ===== src/Ps2/Keyboard.antt =====
-- kernel/src/ps2/keyboard.rs: the keyboard driver, from the bytes of the controller to key events.
pub mod ScanCodes
pub mod Characters
pub mod Decode
pub mod Buffer
pub mod Typing
mod Tests
use Prim.Native.Char.{Char}
use locos.Prelude.{
  ℕ, ◌+◌, ◌%◌, ◌/◌, ◌==◌, ltb, bit_and, Bool, true, false, not, ◌||◌, Option, none, some, List, [],
  ◌∷◌, ◌++◌, length, if◌then◌else◌,
}
use ScanCodes.{ScanCode, left_shift, right_shift, left_ctrl, left_alt, caps_lock, is_character}
use Characters.{to_char}
use Decode.{scancode_to_enum}

-- `KEYBOARD_BUFFER_SIZE`
abbrev pub keyboard_buffer_size : ℕ
keyboard_buffer_size = 256

-- `KeyEvent`
pub data KeyEvent : Type 0 where
  key_down key_up : ScanCode → KeyEvent
  unknown : ℕ → KeyEvent

-- `KeyboardState`
pub record KeyboardState : Type 0 where
  pub left_shift_down : Bool
  pub right_shift_down : Bool
  pub left_ctrl_down : Bool
  pub left_alt_down : Bool
  pub caps_lock_on : Bool

-- `KeyboardState::shift_pressed`
abbrev pub shift_pressed : KeyboardState → Bool
shift_pressed k = k.left_shift_down || k.right_shift_down

-- `KeyboardState::update`
pub update : KeyboardState → KeyEvent → KeyboardState
update k (key_down left_shift) = record k { left_shift_down = true }
update k (key_down right_shift) = record k { right_shift_down = true }
update k (key_down left_ctrl) = record k { left_ctrl_down = true }
update k (key_down left_alt) = record k { left_alt_down = true }
update k (key_down caps_lock) = record k { caps_lock_on = not k.caps_lock_on }
update k (key_down _) = k
update k (key_up left_shift) = record k { left_shift_down = false }
update k (key_up right_shift) = record k { right_shift_down = false }
update k (key_up left_ctrl) = record k { left_ctrl_down = false }
update k (key_up left_alt) = record k { left_alt_down = false }
update k (key_up _) = k
update k (unknown b) = k

-- `KeyboardDriver`
pub record KeyboardDriver : Type 0 where
  pub input_buffer : List KeyEvent
  pub state : KeyboardState
  pub extended_scancode : Bool

-- `KeyboardDriver::new`
abbrev pub new : KeyboardDriver
new = record {
  input_buffer = [];
  state = record {
    left_shift_down = false;
    right_shift_down = false;
    left_ctrl_down = false;
    left_alt_down = false;
    caps_lock_on = false;
  };
  extended_scancode = false;
}

-- `push_back` under the test of the length.
abbrev pub push_event : List KeyEvent → KeyEvent → List KeyEvent
push_event buffer event =
    if ltb (length buffer) keyboard_buffer_size then buffer ++ event ∷ [] else buffer

-- `process_scancode`, from the outcome of `scancode_to_enum` on.
pub process_decoded : KeyboardDriver → ℕ → Option ScanCode → KeyboardDriver
process_decoded d scancode none = record d {
  extended_scancode = false;
  input_buffer = push_event d.input_buffer (unknown scancode);
}
process_decoded d scancode (some scan_code) =
    let event = if bit_and scancode 0x80 == 0 then key_down scan_code else key_up scan_code in
    record {
      state = update d.state event;
      input_buffer = push_event d.input_buffer event;
      extended_scancode = false;
    }

-- `KeyboardDriver::process_scancode`
pub process_scancode : KeyboardDriver → ℕ → KeyboardDriver
unfolding process_decoded
process_scancode d scancode =
    if scancode == 0xE0
    then record d { extended_scancode = true }
    else process_decoded d scancode (scancode_to_enum (bit_and scancode 0x7F) d.extended_scancode)

-- The loop of `handle_interrupt`, over the bytes that the controller holds; before `init` they are
-- read and dropped.
pub handle_interrupt : Option KeyboardDriver → List ℕ → Option KeyboardDriver
unfolding process_scancode
handle_interrupt none bytes = none
handle_interrupt (some d) [] = some d
handle_interrupt (some d) (b ∷ bytes) = handle_interrupt (some (process_scancode d b)) bytes

-- `read_key`: `VecDeque::pop_front` of the buffer, if there is a driver.
pub read_key : Option KeyboardDriver → Option KeyEvent × Option KeyboardDriver
read_key none = (none, none)
read_key (some d) = elim d.input_buffer [
  | [] ↦ (none, some d)
  | event ∷ rest ↦ (some event, some (record d { input_buffer = rest }))
]

-- `has_key`
pub has_key : Option KeyboardDriver → Bool
has_key none = false
has_key (some d) = elim d.input_buffer [ [] ↦ false | event ∷ rest ↦ true ]

-- `get_keyboard_state`
pub get_keyboard_state : Option KeyboardDriver → Option KeyboardState
get_keyboard_state none = none
get_keyboard_state (some d) = some d.state

-- `KeyDown` of `key_event_to_char`
pub key_to_char : ScanCode → Option KeyboardState → Option Char
key_to_char scancode (some state) = to_char (shift_pressed state) state.caps_lock_on scancode
key_to_char scancode none = to_char false false scancode

-- `key_event_to_char`
pub key_event_to_char : Option KeyboardDriver → KeyEvent → Option Char
unfolding key_to_char get_keyboard_state
key_event_to_char keyboard (key_down scancode) = key_to_char scancode (get_keyboard_state keyboard)
key_event_to_char keyboard (key_up scancode) = none
key_event_to_char keyboard (unknown b) = none

-- `is_character_key`
pub is_character_key : KeyEvent → Bool
is_character_key (key_down scancode) = is_character scancode
is_character_key (key_up scancode) = false
is_character_key (unknown b) = false
