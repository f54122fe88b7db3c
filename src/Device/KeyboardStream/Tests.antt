-- ===== src/Device/KeyboardStream/Tests.antt =====
-- Shift is pressed, the key A is pressed, and then shift is released.
use lamb_os.Base.{
  ℕ, ◌≡◌, ◌⊎◌, refl, ◌<◌, ◌++◌, true, false, List, [], ◌∷◌, some, none, arith, length,
}
use lamb_os.Base.Outcome.{done}
use lamb_os.Util.RingBuffer
use lamb_os.Device.Keys.{number}
use lamb_os.Device.Keyboard
use lamb_os.Device.Keyboard.Events.{IsValid, init-IsValid, waiting, key_of, type_of}
use lamb_os.Device.KeyboardStream.{KeyboardStream, read_byte}
use lamb_os.Device.KeyboardStream.Typing.{types, silent, shifted, character, read_byte_lem}

abbrev idle : KeyboardStream
idle = record { keyboard = Keyboard.init; out = [] }

abbrev codes : List ℕ
codes = 42 ∷ 30 ∷ 170 ∷ []

few_waiting : length (waiting Keyboard.init codes) < 9
unfolding Keyboard.init RingBuffer.init
few_waiting = omega arith

upper_case : character true 30 ≡ b'A'
unfolding key_of number
upper_case = refl

lower_case : character false 30 ≡ b'a'
unfolding key_of number
lower_case = refl

release_is_silent : types 170 ≡ false
unfolding key_of number type_of
release_is_silent = refl

read_byte_lem_example :
    ((silent (waiting idle.keyboard codes) ≡ true) × (read_byte 9 idle codes ≡ done none))
    ⊎ ((before : List ℕ) × (c : ℕ) × (s' : KeyboardStream) × (arriving' : List ℕ) × (waiting
            idle.keyboard codes
          ≡ before ++ (c ∷ waiting s'.keyboard arriving'))
        × (silent before ≡ true)
        × (types c ≡ true)
        × (read_byte 9 idle codes
            ≡ done (some (character (shifted idle.keyboard (before ++ (c ∷ []))) c, s', arriving')))
        × (s'.out ≡ idle.out ++ (character (shifted idle.keyboard (before ++ (c ∷ []))) c ∷ []))
        × IsValid s'.keyboard)
read_byte_lem_example = read_byte_lem 9 idle codes init-IsValid few_waiting
