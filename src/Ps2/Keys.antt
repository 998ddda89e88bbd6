-- ===== src/Ps2/Keys.antt =====
-- The key codes of src/drivers/ps2/ps2_keyboard_keys.h, the table of
-- src/drivers/ps2/ps2_keyboard_keys.c, and the character that each key types.
pub mod Table
use ose.Prelude.{ℕ, List, [], ◌∷◌, Option, none, some, get_or}

-- `KeyCode`: the constructors stand for the distinct values of the enumeration.
pub data KeyCode : Type 0 where
  key_none key_esc key_f1 key_f2 key_f3 key_f4 key_f5 key_f6 key_f7 key_f8 key_f9 key_f10 : KeyCode
  key_f11 key_f12 key_prtscr key_scroll_lock key_pause key_backtick key_1 key_2 key_3 key_4 :
      KeyCode
  key_5 key_6 key_7 key_8 key_9 key_0 key_minus key_equals key_backspace key_insert key_home :
      KeyCode
  key_page_up key_num_lock key_keypad_slash key_keypad_asterisk key_keypad_minus key_tab key_q :
      KeyCode
  key_w key_e key_r key_t key_y key_u key_i key_o key_p key_open_bracket key_close_bracket : KeyCode
  key_delete key_end key_page_down key_keypad_7 key_keypad_8 key_keypad_9 key_caps key_a key_s :
      KeyCode
  key_d key_f key_g key_h key_j key_k key_l key_semicolon key_single_quote key_sharp key_enter :
      KeyCode
  key_keypad_4 key_keypad_5 key_keypad_6 key_keypad_plus key_lshift key_backslash key_z key_x :
      KeyCode
  key_c key_v key_b key_n key_m key_comma key_period key_slash key_rshift key_up_arrow : KeyCode
  key_keypad_1 key_keypad_2 key_keypad_3 key_lctrl key_lgui key_alt key_space key_alrgr : KeyCode
  key_rgui key_apps key_rctrl key_left_arrow key_down_arrow key_right_arrow key_keypad_0 : KeyCode
  key_keypad_period key_keypad_enter key_break key_vertical_line key_exclamation_mark : KeyCode
  key_double_quote key_pound_sign key_dollar_sign key_percent key_circumflex key_ampersand : KeyCode
  key_asterisk key_open_parenthesis key_close_parenthesis key_underscore key_plus : KeyCode
  key_open_curve key_close_curve key_colon key_at key_tilde key_broken_bar key_less_than : KeyCode
  key_greater_than key_question_mark : KeyCode

-- `byte_to_code`, where -1 is `key_none`.
abbrev pub byte_to_code : List KeyCode
byte_to_code =
    key_none ∷ key_f9 ∷ key_none ∷ key_f5 ∷ key_f3 ∷ key_f5 ∷ key_f6 ∷ key_f12 ∷ key_none ∷ key_f10
    ∷ key_f8 ∷ key_f6 ∷ key_f4 ∷ key_tab ∷ key_backtick ∷ key_none ∷ key_none ∷ key_alt ∷ key_lshift
    ∷ key_none ∷ key_lctrl ∷ key_q ∷ key_1 ∷ key_none ∷ key_none ∷ key_none ∷ key_z ∷ key_s ∷ key_a
    ∷ key_w ∷ key_2 ∷ key_none ∷ key_none ∷ key_c ∷ key_x ∷ key_d ∷ key_e ∷ key_4 ∷ key_3 ∷ key_none
    ∷ key_none ∷ key_space ∷ key_v ∷ key_f ∷ key_t ∷ key_r ∷ key_5 ∷ key_none ∷ key_none ∷ key_n
    ∷ key_b ∷ key_h ∷ key_g ∷ key_y ∷ key_6 ∷ key_none ∷ key_none ∷ key_none ∷ key_m ∷ key_j ∷ key_u
    ∷ key_7 ∷ key_8 ∷ key_none ∷ key_none ∷ key_comma ∷ key_k ∷ key_i ∷ key_o ∷ key_0 ∷ key_9
    ∷ key_none ∷ key_none ∷ key_period ∷ key_slash ∷ key_l ∷ key_semicolon ∷ key_p ∷ key_minus
    ∷ key_none ∷ key_none ∷ key_none ∷ key_single_quote ∷ key_none ∷ key_open_bracket ∷ key_equals
    ∷ key_none ∷ key_none ∷ key_caps ∷ key_rshift ∷ key_enter ∷ key_close_bracket ∷ key_none
    ∷ key_backslash ∷ key_none ∷ key_none ∷ key_none ∷ key_none ∷ key_none ∷ key_none ∷ key_none
    ∷ key_none ∷ key_backspace ∷ key_none ∷ key_none ∷ key_keypad_1 ∷ key_none ∷ key_keypad_4
    ∷ key_keypad_7 ∷ key_none ∷ key_none ∷ key_none ∷ key_keypad_0 ∷ key_keypad_period
    ∷ key_keypad_2 ∷ key_keypad_5 ∷ key_keypad_6 ∷ key_keypad_8 ∷ key_esc ∷ key_num_lock ∷ key_f11
    ∷ key_keypad_plus ∷ key_keypad_3 ∷ key_keypad_minus ∷ key_keypad_asterisk ∷ key_keypad_9
    ∷ key_scroll_lock ∷ key_none ∷ []

-- The switch of `send_make_key`: the character that a pressed key types, if any.
unfoldable pub make_char : KeyCode → Option ℕ
make_char key_1 = some b'1'
make_char key_keypad_1 = some b'1'
make_char key_2 = some b'2'
make_char key_keypad_2 = some b'2'
make_char key_3 = some b'3'
make_char key_keypad_3 = some b'3'
make_char key_4 = some b'4'
make_char key_keypad_4 = some b'4'
make_char key_5 = some b'5'
make_char key_keypad_5 = some b'5'
make_char key_6 = some b'6'
make_char key_keypad_6 = some b'6'
make_char key_7 = some b'7'
make_char key_keypad_7 = some b'7'
make_char key_8 = some b'8'
make_char key_keypad_8 = some b'8'
make_char key_9 = some b'9'
make_char key_keypad_9 = some b'9'
make_char key_0 = some b'0'
make_char key_keypad_plus = some b'+'
make_char key_keypad_minus = some b'-'
make_char key_minus = some b'-'
make_char key_equals = some b'='
make_char key_keypad_slash = some b'/'
make_char key_keypad_asterisk = some b'*'
make_char key_q = some b'q'
make_char key_w = some b'w'
make_char key_e = some b'e'
make_char key_r = some b'r'
make_char key_t = some b't'
make_char key_y = some b'y'
make_char key_u = some b'u'
make_char key_i = some b'i'
make_char key_o = some b'o'
make_char key_p = some b'p'
make_char key_open_bracket = some b'['
make_char key_close_bracket = some b']'
make_char key_a = some b'a'
make_char key_s = some b's'
make_char key_d = some b'd'
make_char key_f = some b'f'
make_char key_g = some b'g'
make_char key_h = some b'h'
make_char key_j = some b'j'
make_char key_k = some b'k'
make_char key_l = some b'l'
make_char key_semicolon = some b';'
make_char key_single_quote = some 39
make_char key_sharp = some b'#'
make_char key_backslash = some 92
make_char key_z = some b'z'
make_char key_x = some b'x'
make_char key_c = some b'c'
make_char key_v = some b'v'
make_char key_b = some b'b'
make_char key_n = some b'n'
make_char key_m = some b'm'
make_char key_comma = some b','
make_char key_period = some b'.'
make_char key_slash = some b'/'
make_char key_space = some b' '
make_char key_backspace = some 8
make_char key_backtick = some b'`'
make_char key_enter = some 10
make_char key_keypad_enter = some 10
make_char _ = none
