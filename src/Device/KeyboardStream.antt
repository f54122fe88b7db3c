-- ===== src/Device/KeyboardStream.antt =====
-- kernel/src/device/input/KeyboardInputStream.cpp, over PS2Keyboard. What it prints to the
-- kernel's output stream is part of the state.
pub mod Typing
mod Tests
use lamb_os.Base.{
  ℕ, zero, suc, Bool, true, false, not, ◌||◌, List, [], ◌∷◌, ◌++◌, Option, none, some, ◌==◌,
  if◌then◌else◌, replicate,
}
use lamb_os.Base.Outcome.{Outcome, done, fault, ◌>>=◌, load}
use lamb_os.Device.Keys.{KeyCode, KeyEvent, number}
use lamb_os.Device.Keyboard.{Keyboard, read, key_is_pressed, is_press}

abbrev pub key_to_char : List ℕ
key_to_char =
    0
    ∷ 0
    ∷ 0
    ∷ 0
    ∷ 0
    ∷ 0
    ∷ 0
    ∷ 0
    ∷ 0
    ∷ 0
    ∷ 0
    ∷ 0
    ∷ 0
    ∷ 0
    ∷ b'`'
    ∷ b'1'
    ∷ b'2'
    ∷ b'3'
    ∷ b'4'
    ∷ b'5'
    ∷ b'6'
    ∷ b'7'
    ∷ b'8'
    ∷ b'9'
    ∷ b'0'
    ∷ b'-'
    ∷ b'='
    ∷ 8
    ∷ 9
    ∷ b'q'
    ∷ b'w'
    ∷ b'e'
    ∷ b'r'
    ∷ b't'
    ∷ b'y'
    ∷ b'u'
    ∷ b'i'
    ∷ b'o'
    ∷ b'p'
    ∷ b'['
    ∷ b']'
    ∷ 92
    ∷ 0
    ∷ b'a'
    ∷ b's'
    ∷ b'd'
    ∷ b'f'
    ∷ b'g'
    ∷ b'h'
    ∷ b'j'
    ∷ b'k'
    ∷ b'l'
    ∷ b';'
    ∷ 39
    ∷ 10
    ∷ 0
    ∷ b'z'
    ∷ b'x'
    ∷ b'c'
    ∷ b'v'
    ∷ b'b'
    ∷ b'n'
    ∷ b'm'
    ∷ b','
    ∷ b'.'
    ∷ b'/'
    ∷ 0
    ∷ 0
    ∷ 0
    ∷ 0
    ∷ b' '
    ∷ 0
    ∷ 0
    ∷ 0
    ∷ 0
    ∷ 0
    ∷ 0
    ∷ 0
    ∷ 0
    ∷ 0
    ∷ 0
    ∷ 0
    ∷ b'/'
    ∷ b'*'
    ∷ b'-'
    ∷ 0
    ∷ 0
    ∷ 0
    ∷ b'7'
    ∷ b'8'
    ∷ b'9'
    ∷ b'+'
    ∷ b'4'
    ∷ b'5'
    ∷ b'6'
    ∷ 0
    ∷ b'1'
    ∷ b'2'
    ∷ b'3'
    ∷ 0
    ∷ 0
    ∷ 0
    ∷ 0
    ∷ b'0'
    ∷ b'.'
    ∷ replicate 23 0

abbrev pub key_to_char_shift : List ℕ
key_to_char_shift =
    0
    ∷ 0
    ∷ 0
    ∷ 0
    ∷ 0
    ∷ 0
    ∷ 0
    ∷ 0
    ∷ 0
    ∷ 0
    ∷ 0
    ∷ 0
    ∷ 0
    ∷ 0
    ∷ b'~'
    ∷ b'!'
    ∷ b'@'
    ∷ b'#'
    ∷ b'$'
    ∷ b'%'
    ∷ b'^'
    ∷ b'&'
    ∷ b'*'
    ∷ b'('
    ∷ b')'
    ∷ b'_'
    ∷ b'+'
    ∷ 8
    ∷ 9
    ∷ b'Q'
    ∷ b'W'
    ∷ b'E'
    ∷ b'R'
    ∷ b'T'
    ∷ b'Y'
    ∷ b'U'
    ∷ b'I'
    ∷ b'O'
    ∷ b'P'
    ∷ b'{'
    ∷ b'}'
    ∷ b'|'
    ∷ 0
    ∷ b'A'
    ∷ b'S'
    ∷ b'D'
    ∷ b'F'
    ∷ b'G'
    ∷ b'H'
    ∷ b'J'
    ∷ b'K'
    ∷ b'L'
    ∷ b':'
    ∷ 34
    ∷ 10
    ∷ 0
    ∷ b'Z'
    ∷ b'X'
    ∷ b'C'
    ∷ b'V'
    ∷ b'B'
    ∷ b'N'
    ∷ b'M'
    ∷ b'<'
    ∷ b'>'
    ∷ b'?'
    ∷ 0
    ∷ 0
    ∷ 0
    ∷ 0
    ∷ b' '
    ∷ 0
    ∷ 0
    ∷ 0
    ∷ 0
    ∷ 0
    ∷ 0
    ∷ 0
    ∷ 0
    ∷ 0
    ∷ 0
    ∷ 0
    ∷ b'/'
    ∷ b'*'
    ∷ b'-'
    ∷ 0
    ∷ 0
    ∷ 0
    ∷ b'7'
    ∷ b'8'
    ∷ b'9'
    ∷ b'+'
    ∷ b'4'
    ∷ b'5'
    ∷ b'6'
    ∷ 0
    ∷ b'1'
    ∷ b'2'
    ∷ b'3'
    ∷ 0
    ∷ 0
    ∷ 0
    ∷ 0
    ∷ b'0'
    ∷ b'.'
    ∷ replicate 23 0

pub record KeyboardStream : Type 0 where
  pub keyboard : Keyboard
  pub out : List ℕ

pub char_with_mod_keys : Keyboard → KeyCode → Outcome ℕ
char_with_mod_keys keyboard key_code = do
  left ← key_is_pressed keyboard KeyCode.key_left_shift
  right ←
      (let other = key_is_pressed keyboard KeyCode.key_right_shift in
        if left then done true else other)
  (if right then load key_to_char_shift (number key_code) else load key_to_char (number key_code))

-- do { } while (...), for at most `n` rounds; `fault` stands for a loop that goes on after them, and
-- `none` for one that waits for ever.
pub next_key : ℕ → Keyboard → List ℕ → Outcome (Option (KeyEvent × Keyboard × List ℕ))
next_key zero keyboard arriving = fault
next_key (suc n) keyboard arriving = do
  result ← read keyboard arriving
  elim result [
    | none ↦ done none
    | some (event, keyboard', arriving') ↦ (do
      char ← load key_to_char (number event.key_code)
      (let later = next_key n keyboard' arriving' in
          if not (is_press event.type) || char == 0
          then later
          else done (some (event, keyboard', arriving'))))
  ]

pub read_byte : ℕ → KeyboardStream → List ℕ → Outcome (Option (ℕ × KeyboardStream × List ℕ))
read_byte n s arriving = do
  result ← next_key n s.keyboard arriving
  elim result [
    | none ↦ done none
    | some (event, keyboard', arriving') ↦ (do
      c ← char_with_mod_keys keyboard' event.key_code
      done (some (c, record { keyboard = keyboard'; out = s.out ++ (c ∷ []) }, arriving')))
  ]
