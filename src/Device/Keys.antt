-- ===== src/Device/Keys.antt =====
-- kernel/include/sys/keys.h: the kinds of key events and the codes of keys.
use lamb_os.Base.{ℕ}

pub data KeyEventType : Type 0 where
  pressed released : KeyEventType

pub data KeyCode : Type 0 where
  key_null key_escape key_f1 key_f2 key_f3 key_f4 key_f5 key_f6 key_f7 key_f8 key_f9 : KeyCode
  key_f10 key_f11 key_f12 key_backtick key_1 key_2 key_3 key_4 key_5 key_6 key_7 key_8 : KeyCode
  key_9 key_0 key_dash key_equals key_backspace key_tab key_q key_w key_e key_r key_t : KeyCode
  key_y key_u key_i key_o key_p key_left_bracket key_right_bracket key_backslash : KeyCode
  key_caps_lock key_a key_s key_d key_f key_g key_h key_j key_k key_l key_semicolon : KeyCode
  key_apostrophe key_enter key_left_shift key_z key_x key_c key_v key_b key_n key_m : KeyCode
  key_comma key_period key_slash key_right_shift key_left_control key_left_super : KeyCode
  key_left_alt key_space key_right_alt key_right_super key_menu key_right_control : KeyCode
  key_print_screen key_scroll_lock key_pause_break key_insert key_home key_page_up : KeyCode
  key_num_lock key_pad_slash key_pad_asterisk key_pad_minus key_delete key_end : KeyCode
  key_page_down key_pad7 key_pad8 key_pad9 key_pad_plus key_pad4 key_pad5 key_pad6 : KeyCode
  key_up key_pad1 key_pad2 key_pad3 key_pad_enter key_left key_down key_right key_pad0 : KeyCode
  key_pad_period : KeyCode

pub record KeyEvent : Type 0 where
  pub type : KeyEventType
  pub key_code : KeyCode

-- The place of a code in the enumeration.
unfoldable pub number : KeyCode → ℕ
number KeyCode.key_null = 0
number KeyCode.key_escape = 1
number KeyCode.key_f1 = 2
number KeyCode.key_f2 = 3
number KeyCode.key_f3 = 4
number KeyCode.key_f4 = 5
number KeyCode.key_f5 = 6
number KeyCode.key_f6 = 7
number KeyCode.key_f7 = 8
number KeyCode.key_f8 = 9
number KeyCode.key_f9 = 10
number KeyCode.key_f10 = 11
number KeyCode.key_f11 = 12
number KeyCode.key_f12 = 13
number KeyCode.key_backtick = 14
number KeyCode.key_1 = 15
number KeyCode.key_2 = 16
number KeyCode.key_3 = 17
number KeyCode.key_4 = 18
number KeyCode.key_5 = 19
number KeyCode.key_6 = 20
number KeyCode.key_7 = 21
number KeyCode.key_8 = 22
number KeyCode.key_9 = 23
number KeyCode.key_0 = 24
number KeyCode.key_dash = 25
number KeyCode.key_equals = 26
number KeyCode.key_backspace = 27
number KeyCode.key_tab = 28
number KeyCode.key_q = 29
number KeyCode.key_w = 30
number KeyCode.key_e = 31
number KeyCode.key_r = 32
number KeyCode.key_t = 33
number KeyCode.key_y = 34
number KeyCode.key_u = 35
number KeyCode.key_i = 36
number KeyCode.key_o = 37
number KeyCode.key_p = 38
number KeyCode.key_left_bracket = 39
number KeyCode.key_right_bracket = 40
number KeyCode.key_backslash = 41
number KeyCode.key_caps_lock = 42
number KeyCode.key_a = 43
number KeyCode.key_s = 44
number KeyCode.key_d = 45
number KeyCode.key_f = 46
number KeyCode.key_g = 47
number KeyCode.key_h = 48
number KeyCode.key_j = 49
number KeyCode.key_k = 50
number KeyCode.key_l = 51
number KeyCode.key_semicolon = 52
number KeyCode.key_apostrophe = 53
number KeyCode.key_enter = 54
number KeyCode.key_left_shift = 55
number KeyCode.key_z = 56
number KeyCode.key_x = 57
number KeyCode.key_c = 58
number KeyCode.key_v = 59
number KeyCode.key_b = 60
number KeyCode.key_n = 61
number KeyCode.key_m = 62
number KeyCode.key_comma = 63
number KeyCode.key_period = 64
number KeyCode.key_slash = 65
number KeyCode.key_right_shift = 66
number KeyCode.key_left_control = 67
number KeyCode.key_left_super = 68
number KeyCode.key_left_alt = 69
number KeyCode.key_space = 70
number KeyCode.key_right_alt = 71
number KeyCode.key_right_super = 72
number KeyCode.key_menu = 73
number KeyCode.key_right_control = 74
number KeyCode.key_print_screen = 75
number KeyCode.key_scroll_lock = 76
number KeyCode.key_pause_break = 77
number KeyCode.key_insert = 78
number KeyCode.key_home = 79
number KeyCode.key_page_up = 80
number KeyCode.key_num_lock = 81
number KeyCode.key_pad_slash = 82
number KeyCode.key_pad_asterisk = 83
number KeyCode.key_pad_minus = 84
number KeyCode.key_delete = 85
number KeyCode.key_end = 86
number KeyCode.key_page_down = 87
number KeyCode.key_pad7 = 88
number KeyCode.key_pad8 = 89
number KeyCode.key_pad9 = 90
number KeyCode.key_pad_plus = 91
number KeyCode.key_pad4 = 92
number KeyCode.key_pad5 = 93
number KeyCode.key_pad6 = 94
number KeyCode.key_up = 95
number KeyCode.key_pad1 = 96
number KeyCode.key_pad2 = 97
number KeyCode.key_pad3 = 98
number KeyCode.key_pad_enter = 99
number KeyCode.key_left = 100
number KeyCode.key_down = 101
number KeyCode.key_right = 102
number KeyCode.key_pad0 = 103
number KeyCode.key_pad_period = 104
