-- ===== src/Ps2/Keyboard/Characters.antt =====
-- kernel/src/ps2/keyboard.rs: the characters of the keys.
use Prim.Native.Char.{Char, char}
use locos.Prelude.{Bool, true, false, xor, ◌||◌, ◌≡◌, Option, none, some, arith, if◌then◌else◌}
use locos.Ps2.Keyboard.ScanCodes.{
  ScanCode, is_character, key_a, key_b, key_c, key_d, key_e, key_f, key_g, key_h, key_i, key_j,
  key_k, key_l, key_m, key_n, key_o, key_p, key_q, key_r, key_s, key_t, key_u, key_v, key_w, key_x,
  key_y, key_z, key1, key2, key3, key4, key5, key6, key7, key8, key9, key0, backspace, enter, space,
  minus, equals, left_bracket, right_bracket, semicolon, quote, grave, backslash, comma, period,
  slash,
}

-- `ScanCode::to_char`
pub to_char : Bool → Bool → ScanCode → Option Char
to_char shift_pressed caps key_a = some (if xor shift_pressed caps then "A" else "a")
to_char shift_pressed caps key_b = some (if xor shift_pressed caps then "B" else "b")
to_char shift_pressed caps key_c = some (if xor shift_pressed caps then "C" else "c")
to_char shift_pressed caps key_d = some (if xor shift_pressed caps then "D" else "d")
to_char shift_pressed caps key_e = some (if xor shift_pressed caps then "E" else "e")
to_char shift_pressed caps key_f = some (if xor shift_pressed caps then "F" else "f")
to_char shift_pressed caps key_g = some (if xor shift_pressed caps then "G" else "g")
to_char shift_pressed caps key_h = some (if xor shift_pressed caps then "H" else "h")
to_char shift_pressed caps key_i = some (if xor shift_pressed caps then "I" else "i")
to_char shift_pressed caps key_j = some (if xor shift_pressed caps then "J" else "j")
to_char shift_pressed caps key_k = some (if xor shift_pressed caps then "K" else "k")
to_char shift_pressed caps key_l = some (if xor shift_pressed caps then "L" else "l")
to_char shift_pressed caps key_m = some (if xor shift_pressed caps then "M" else "m")
to_char shift_pressed caps key_n = some (if xor shift_pressed caps then "N" else "n")
to_char shift_pressed caps key_o = some (if xor shift_pressed caps then "O" else "o")
to_char shift_pressed caps key_p = some (if xor shift_pressed caps then "P" else "p")
to_char shift_pressed caps key_q = some (if xor shift_pressed caps then "Q" else "q")
to_char shift_pressed caps key_r = some (if xor shift_pressed caps then "R" else "r")
to_char shift_pressed caps key_s = some (if xor shift_pressed caps then "S" else "s")
to_char shift_pressed caps key_t = some (if xor shift_pressed caps then "T" else "t")
to_char shift_pressed caps key_u = some (if xor shift_pressed caps then "U" else "u")
to_char shift_pressed caps key_v = some (if xor shift_pressed caps then "V" else "v")
to_char shift_pressed caps key_w = some (if xor shift_pressed caps then "W" else "w")
to_char shift_pressed caps key_x = some (if xor shift_pressed caps then "X" else "x")
to_char shift_pressed caps key_y = some (if xor shift_pressed caps then "Y" else "y")
to_char shift_pressed caps key_z = some (if xor shift_pressed caps then "Z" else "z")
to_char shift_pressed caps key1 = some (if shift_pressed then "!" else "1")
to_char shift_pressed caps key2 = some (if shift_pressed then "@" else "2")
to_char shift_pressed caps key3 = some (if shift_pressed then "#" else "3")
to_char shift_pressed caps key4 = some (if shift_pressed then "$" else "4")
to_char shift_pressed caps key5 = some (if shift_pressed then "%" else "5")
to_char shift_pressed caps key6 = some (if shift_pressed then "^" else "6")
to_char shift_pressed caps key7 = some (if shift_pressed then "&" else "7")
to_char shift_pressed caps key8 = some (if shift_pressed then "*" else "8")
to_char shift_pressed caps key9 = some (if shift_pressed then "(" else "9")
to_char shift_pressed caps key0 = some (if shift_pressed then ")" else "0")
to_char shift_pressed caps minus = some (if shift_pressed then "_" else "-")
to_char shift_pressed caps equals = some (if shift_pressed then "+" else "=")
to_char shift_pressed caps left_bracket = some (if shift_pressed then "{" else "[")
to_char shift_pressed caps right_bracket = some (if shift_pressed then "}" else "]")
to_char shift_pressed caps semicolon = some (if shift_pressed then ":" else ";")
to_char shift_pressed caps quote = some (if shift_pressed then "\"" else "'")
to_char shift_pressed caps grave = some (if shift_pressed then "~" else "`")
to_char shift_pressed caps backslash = some (if shift_pressed then "|" else "\\")
to_char shift_pressed caps comma = some (if shift_pressed then "<" else ",")
to_char shift_pressed caps period = some (if shift_pressed then ">" else ".")
to_char shift_pressed caps slash = some (if shift_pressed then "?" else "/")
to_char shift_pressed caps space = some " "
to_char shift_pressed caps enter = some "\n"
to_char shift_pressed caps backspace = some (char 8 tt)
to_char shift_pressed caps _ = none

-- `Option::is_some`
pub is_some {ℓ} : {A : Type ℓ} → Option A → Bool
is_some none = false
is_some (some a) = true

-- The two control characters that a key stands for.
pub is_control : ScanCode → Bool
is_control enter = true
is_control backspace = true
is_control _ = false

-- A key gives a character exactly when `is_character` holds of it or it is Enter or Backspace,
-- whatever the shift keys and the caps lock.
pub to_char-is_character :
    (shift caps : Bool) (s : ScanCode)
    → is_some (to_char shift caps s) ≡ (is_character s || is_control s)
unfolding is_some is_control is_character to_char
to_char-is_character shift caps s = ground arith
