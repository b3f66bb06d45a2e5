-- ===== src/Ps2/Keyboard/Decode.antt =====
-- kernel/src/ps2/keyboard.rs: the scan codes of the bytes that the keyboard sends.
use locos.Prelude.{
  ℕ, ◌==◌, Bool, true, false, ◌≡◌, refl, arith, Option, none, some, List, [], ◌∷◌, if◌then◌else◌,
  All, Bool-cases, inl, inr, some_injective,
}
use locos.Ps2.Keyboard.ScanCodes.{
  ScanCode, discriminant, key_a, key_b, key_c, key_d, key_e, key_f, key_g, key_h, key_i, key_j,
  key_k, key_l, key_m, key_n, key_o, key_p, key_q, key_r, key_s, key_t, key_u, key_v, key_w, key_x,
  key_y, key_z, key1, key2, key3, key4, key5, key6, key7, key8, key9, key0, f1, f2, f3, f4, f5, f6,
  f7, f8, f9, f10, f11, f12, escape, backspace, tab, enter, space, left_shift, right_shift,
  left_ctrl, left_alt, caps_lock, minus, equals, left_bracket, right_bracket, semicolon, quote,
  grave, backslash, comma, period, slash, up_arrow, down_arrow, left_arrow, right_arrow, delete,
  home, end, page_up, page_down, insert,
}

-- The arms of `scancode_to_enum`, for an extended scan code and for the others.

abbrev pub extended_codes : List (ℕ × ScanCode)
extended_codes =
    (0x48, up_arrow)
    ∷ (0x50, down_arrow)
    ∷ (0x4B, left_arrow)
    ∷ (0x4D, right_arrow)
    ∷ (0x53, delete)
    ∷ (0x47, home)
    ∷ (0x4F, end)
    ∷ (0x49, page_up)
    ∷ (0x51, page_down)
    ∷ (0x52, insert)
    ∷ []

abbrev pub base_codes : List (ℕ × ScanCode)
base_codes =
    (0x1E, key_a)
    ∷ (0x30, key_b)
    ∷ (0x2E, key_c)
    ∷ (0x20, key_d)
    ∷ (0x12, key_e)
    ∷ (0x21, key_f)
    ∷ (0x22, key_g)
    ∷ (0x23, key_h)
    ∷ (0x17, key_i)
    ∷ (0x24, key_j)
    ∷ (0x25, key_k)
    ∷ (0x26, key_l)
    ∷ (0x32, key_m)
    ∷ (0x31, key_n)
    ∷ (0x18, key_o)
    ∷ (0x19, key_p)
    ∷ (0x10, key_q)
    ∷ (0x13, key_r)
    ∷ (0x1F, key_s)
    ∷ (0x14, key_t)
    ∷ (0x16, key_u)
    ∷ (0x2F, key_v)
    ∷ (0x11, key_w)
    ∷ (0x2D, key_x)
    ∷ (0x15, key_y)
    ∷ (0x2C, key_z)
    ∷ (0x02, key1)
    ∷ (0x03, key2)
    ∷ (0x04, key3)
    ∷ (0x05, key4)
    ∷ (0x06, key5)
    ∷ (0x07, key6)
    ∷ (0x08, key7)
    ∷ (0x09, key8)
    ∷ (0x0A, key9)
    ∷ (0x0B, key0)
    ∷ (0x3B, f1)
    ∷ (0x3C, f2)
    ∷ (0x3D, f3)
    ∷ (0x3E, f4)
    ∷ (0x3F, f5)
    ∷ (0x40, f6)
    ∷ (0x41, f7)
    ∷ (0x42, f8)
    ∷ (0x43, f9)
    ∷ (0x44, f10)
    ∷ (0x57, f11)
    ∷ (0x58, f12)
    ∷ (0x01, escape)
    ∷ (0x0E, backspace)
    ∷ (0x0F, tab)
    ∷ (0x1C, enter)
    ∷ (0x39, space)
    ∷ (0x2A, left_shift)
    ∷ (0x36, right_shift)
    ∷ (0x1D, left_ctrl)
    ∷ (0x38, left_alt)
    ∷ (0x3A, caps_lock)
    ∷ (0x0C, minus)
    ∷ (0x0D, equals)
    ∷ (0x1A, left_bracket)
    ∷ (0x1B, right_bracket)
    ∷ (0x27, semicolon)
    ∷ (0x28, quote)
    ∷ (0x29, grave)
    ∷ (0x2B, backslash)
    ∷ (0x33, comma)
    ∷ (0x34, period)
    ∷ (0x35, slash)
    ∷ []

-- The first arm that matches.
unfoldable pub arm : ℕ → List (ℕ × ScanCode) → Option ScanCode
arm c [] = none
arm c ((k, s) ∷ rest) = let later = arm c rest in if k == c then some s else later

-- `KeyboardDriver::scancode_to_enum`
unfoldable pub scancode_to_enum : ℕ → Bool → Option ScanCode
unfolding arm
scancode_to_enum scancode true = arm scancode extended_codes
scancode_to_enum scancode false = arm scancode base_codes

-- The keys behind the prefix byte.
pub is_extended : ScanCode → Bool
is_extended up_arrow = true
is_extended down_arrow = true
is_extended left_arrow = true
is_extended right_arrow = true
is_extended delete = true
is_extended home = true
is_extended end = true
is_extended page_up = true
is_extended page_down = true
is_extended insert = true
is_extended _ = false

-- Every key is decoded from its own discriminant, behind the prefix byte if it is one of the
-- extended keys.
pub scancode_to_enum-discriminant :
    (s : ScanCode) → scancode_to_enum (discriminant s) (is_extended s) ≡ some s
unfolding scancode_to_enum arm discriminant is_extended
scancode_to_enum-discriminant s = ground arith

arm-All :
    (c : ℕ) (table : List (ℕ × ScanCode)) (ext : Bool) (s : ScanCode)
    → All (λ row. (discriminant row.1 ≡ row.0) × (is_extended row.1 ≡ ext)) table
    → arm c table ≡ some s
    → (discriminant s ≡ c) × (is_extended s ≡ ext)
unfolding arm
arm-All c [] ext s h e = cc
arm-All c ((k, t) ∷ rest) ext s h e = elim (Bool-cases (k == c)) [
  | inl same ↦
      let found : t ≡ s = some_injective t s (rw same at e) in
      let code : k ≡ c = ground arith in (rw (← found, h.0.0, code) refl, rw (← found, h.0.1) refl)
  | inr other ↦ arm-All c rest ext s h.1 (rw other at e)
]

-- A key decoded from a byte has that discriminant, and it is an extended key exactly when the
-- prefix byte came before.
pub discriminant-scancode_to_enum :
    (c : ℕ) (ext : Bool) (s : ScanCode)
    → scancode_to_enum c ext ≡ some s
    → (discriminant s ≡ c) × (is_extended s ≡ ext)
unfolding scancode_to_enum discriminant is_extended
discriminant-scancode_to_enum c true s e = arm-All c extended_codes true s (ground arith) e
discriminant-scancode_to_enum c false s e = arm-All c base_codes false s (ground arith) e
