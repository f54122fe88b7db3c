-- ===== src/Device/Keyboard.antt =====
-- kernel/src/device/input/PS2Keyboard.cpp: the interrupt handler pushes scan codes into a ring
-- buffer, and `read` takes them out as key events. While `read` halts for want of a code, the codes
-- of the interrupts to come are an argument.
pub mod Events
use lamb_os.Base.{
  ℕ, ◌-◌, bit_and, Bool, true, false, List, [], ◌∷◌, Option, none, some, ◌==◌, ltb, if◌then◌else◌,
  replicate,
}
use lamb_os.Base.Outcome.{Outcome, done, ◌>>=◌, load, store}
use lamb_os.Util.RingBuffer
use lamb_os.Util.RingBuffer.{RingBuffer}
use lamb_os.Device.Keys.{KeyEventType, KeyCode, KeyEvent, number}

pub record Keyboard : Type 0 where
  pub buffer : RingBuffer ℕ
  pub keys_pressed : List Bool

unfoldable pub init : Keyboard
init = record { buffer = RingBuffer.init 0 128; keys_pressed = replicate 256 false }

abbrev pub scancodes : ℕ
scancodes = 89

abbrev pub scan_set_1 : List KeyCode
scan_set_1 =
    KeyCode.key_null ∷ KeyCode.key_escape ∷ KeyCode.key_1 ∷ KeyCode.key_2 ∷ KeyCode.key_3
    ∷ KeyCode.key_4 ∷ KeyCode.key_5 ∷ KeyCode.key_6 ∷ KeyCode.key_7 ∷ KeyCode.key_8 ∷ KeyCode.key_9
    ∷ KeyCode.key_0 ∷ KeyCode.key_dash ∷ KeyCode.key_equals ∷ KeyCode.key_backspace
    ∷ KeyCode.key_tab ∷ KeyCode.key_q ∷ KeyCode.key_w ∷ KeyCode.key_e ∷ KeyCode.key_r
    ∷ KeyCode.key_t ∷ KeyCode.key_y ∷ KeyCode.key_u ∷ KeyCode.key_i ∷ KeyCode.key_o ∷ KeyCode.key_p
    ∷ KeyCode.key_left_bracket ∷ KeyCode.key_right_bracket ∷ KeyCode.key_enter
    ∷ KeyCode.key_left_control ∷ KeyCode.key_a ∷ KeyCode.key_s ∷ KeyCode.key_d ∷ KeyCode.key_f
    ∷ KeyCode.key_g ∷ KeyCode.key_h ∷ KeyCode.key_j ∷ KeyCode.key_k ∷ KeyCode.key_l
    ∷ KeyCode.key_semicolon ∷ KeyCode.key_apostrophe ∷ KeyCode.key_backtick ∷ KeyCode.key_left_shift
    ∷ KeyCode.key_backslash ∷ KeyCode.key_z ∷ KeyCode.key_x ∷ KeyCode.key_c ∷ KeyCode.key_v
    ∷ KeyCode.key_b ∷ KeyCode.key_n ∷ KeyCode.key_m ∷ KeyCode.key_comma ∷ KeyCode.key_period
    ∷ KeyCode.key_slash ∷ KeyCode.key_right_shift ∷ KeyCode.key_pad_asterisk ∷ KeyCode.key_left_alt
    ∷ KeyCode.key_space ∷ KeyCode.key_caps_lock ∷ KeyCode.key_f1 ∷ KeyCode.key_f2 ∷ KeyCode.key_f3
    ∷ KeyCode.key_f4 ∷ KeyCode.key_f5 ∷ KeyCode.key_f6 ∷ KeyCode.key_f7 ∷ KeyCode.key_f8
    ∷ KeyCode.key_f9 ∷ KeyCode.key_f10 ∷ KeyCode.key_num_lock ∷ KeyCode.key_scroll_lock
    ∷ KeyCode.key_pad7 ∷ KeyCode.key_pad8 ∷ KeyCode.key_pad9 ∷ KeyCode.key_pad_minus
    ∷ KeyCode.key_pad4 ∷ KeyCode.key_pad5 ∷ KeyCode.key_pad6 ∷ KeyCode.key_pad_plus
    ∷ KeyCode.key_pad1 ∷ KeyCode.key_pad2 ∷ KeyCode.key_pad3 ∷ KeyCode.key_pad0
    ∷ KeyCode.key_pad_period ∷ KeyCode.key_null ∷ KeyCode.key_null ∷ KeyCode.key_null
    ∷ KeyCode.key_f11 ∷ KeyCode.key_f12 ∷ []

pub push_scan_code : Keyboard → ℕ → Outcome Keyboard
push_scan_code kb scancode = do
  buffer' ← RingBuffer.enqueue kb.buffer scancode
  done (record kb { buffer = buffer' })

-- while (_buffer.isEmpty()) { halt(); }, where each halt ends with the next code of `arriving`.
-- With none to come the loop never ends, which is `none`.
pub wait : Keyboard → List ℕ → Outcome (Option (Keyboard × List ℕ))
wait kb [] = done (if RingBuffer.is_empty kb.buffer then none else some (kb, []))
wait kb (code ∷ arriving) =
    let later = (do kb' ← push_scan_code kb code; wait kb' arriving) in
    if RingBuffer.is_empty kb.buffer then later else done (some (kb, code ∷ arriving))

-- The event of a scan code.
pub event_of : ℕ → Outcome KeyEvent
event_of scancode = do
  let type = (if bit_and scancode 128 == 128 then KeyEventType.released else KeyEventType.pressed)
  let scancode' = bit_and scancode 0x7F
  key_code ←
      (let found = load scan_set_1 scancode' in
        if ltb scancode' scancodes then found else done KeyCode.key_null)
  done (record { type = type; key_code = key_code })

abbrev pub is_press : KeyEventType → Bool
is_press KeyEventType.pressed = true
is_press KeyEventType.released = false

pub read : Keyboard → List ℕ → Outcome (Option (KeyEvent × Keyboard × List ℕ))
read kb arriving = do
  woken ← wait kb arriving
  elim woken [
    | none ↦ done none
    | some (kb₁, arriving') ↦ (do
      (scancode, buffer') ← RingBuffer.pop 0 kb₁.buffer
      event ← event_of scancode
      keys' ← store kb₁.keys_pressed (number event.key_code) (is_press event.type)
      done (some (event, record { buffer = buffer'; keys_pressed = keys' }, arriving')))
  ]

pub key_is_pressed : Keyboard → KeyCode → Outcome Bool
key_is_pressed kb key = load kb.keys_pressed (number key)
