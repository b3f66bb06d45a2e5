-- ===== src/Ps2/Keyboard/ScanCodes.antt =====
-- kernel/src/ps2/keyboard.rs: the scan codes of set 1.
use locos.Prelude.{ℕ, Bool, true, false}

-- `ScanCode`
pub data ScanCode : Type 0 where
  key_a key_b key_c key_d key_e key_f key_g key_h key_i key_j key_k key_l key_m key_n key_o :
      ScanCode
  key_p key_q key_r key_s key_t key_u key_v key_w key_x key_y key_z key1 key2 key3 key4 key5 :
      ScanCode
  key6 key7 key8 key9 key0 f1 f2 f3 f4 f5 f6 f7 f8 f9 f10 f11 f12 escape backspace tab enter :
      ScanCode
  space left_shift right_shift left_ctrl left_alt caps_lock minus equals left_bracket : ScanCode
  right_bracket semicolon quote grave backslash comma period slash up_arrow down_arrow : ScanCode
  left_arrow right_arrow delete home end page_up page_down insert : ScanCode

-- `as u8`: the discriminant of a scan code.
unfoldable pub discriminant : ScanCode → ℕ
discriminant key_a = 0x1E
discriminant key_b = 0x30
discriminant key_c = 0x2E
discriminant key_d = 0x20
discriminant key_e = 0x12
discriminant key_f = 0x21
discriminant key_g = 0x22
discriminant key_h = 0x23
discriminant key_i = 0x17
discriminant key_j = 0x24
discriminant key_k = 0x25
discriminant key_l = 0x26
discriminant key_m = 0x32
discriminant key_n = 0x31
discriminant key_o = 0x18
discriminant key_p = 0x19
discriminant key_q = 0x10
discriminant key_r = 0x13
discriminant key_s = 0x1F
discriminant key_t = 0x14
discriminant key_u = 0x16
discriminant key_v = 0x2F
discriminant key_w = 0x11
discriminant key_x = 0x2D
discriminant key_y = 0x15
discriminant key_z = 0x2C
discriminant key1 = 0x02
discriminant key2 = 0x03
discriminant key3 = 0x04
discriminant key4 = 0x05
discriminant key5 = 0x06
discriminant key6 = 0x07
discriminant key7 = 0x08
discriminant key8 = 0x09
discriminant key9 = 0x0A
discriminant key0 = 0x0B
discriminant f1 = 0x3B
discriminant f2 = 0x3C
discriminant f3 = 0x3D
discriminant f4 = 0x3E
discriminant f5 = 0x3F
discriminant f6 = 0x40
discriminant f7 = 0x41
discriminant f8 = 0x42
discriminant f9 = 0x43
discriminant f10 = 0x44
discriminant f11 = 0x57
discriminant f12 = 0x58
discriminant escape = 0x01
discriminant backspace = 0x0E
discriminant tab = 0x0F
discriminant enter = 0x1C
discriminant space = 0x39
discriminant left_shift = 0x2A
discriminant right_shift = 0x36
discriminant left_ctrl = 0x1D
discriminant left_alt = 0x38
discriminant caps_lock = 0x3A
discriminant minus = 0x0C
discriminant equals = 0x0D
discriminant left_bracket = 0x1A
discriminant right_bracket = 0x1B
discriminant semicolon = 0x27
discriminant quote = 0x28
discriminant grave = 0x29
discriminant backslash = 0x2B
discriminant comma = 0x33
discriminant period = 0x34
discriminant slash = 0x35
discriminant up_arrow = 0x48
discriminant down_arrow = 0x50
discriminant left_arrow = 0x4B
discriminant right_arrow = 0x4D
discriminant delete = 0x53
discriminant home = 0x47
discriminant end = 0x4F
discriminant page_up = 0x49
discriminant page_down = 0x51
discriminant insert = 0x52

-- `ScanCode::is_character`
unfoldable pub is_character : ScanCode → Bool
is_character key_a = true
is_character key_b = true
is_character key_c = true
is_character key_d = true
is_character key_e = true
is_character key_f = true
is_character key_g = true
is_character key_h = true
is_character key_i = true
is_character key_j = true
is_character key_k = true
is_character key_l = true
is_character key_m = true
is_character key_n = true
is_character key_o = true
is_character key_p = true
is_character key_q = true
is_character key_r = true
is_character key_s = true
is_character key_t = true
is_character key_u = true
is_character key_v = true
is_character key_w = true
is_character key_x = true
is_character key_y = true
is_character key_z = true
is_character key1 = true
is_character key2 = true
is_character key3 = true
is_character key4 = true
is_character key5 = true
is_character key6 = true
is_character key7 = true
is_character key8 = true
is_character key9 = true
is_character key0 = true
is_character minus = true
is_character equals = true
is_character left_bracket = true
is_character right_bracket = true
is_character semicolon = true
is_character quote = true
is_character grave = true
is_character backslash = true
is_character comma = true
is_character period = true
is_character slash = true
is_character space = true
is_character _ = false
